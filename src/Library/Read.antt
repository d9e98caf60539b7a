-- ===== src/Library/Read.antt =====
-- What reading a document leaves of the links between the versions of a chart.
use asyncflow.ChartData.Yaml.{YamlChart}
use asyncflow.Library.Versions.{SameLinks}
use asyncflow.ChartData.YamlChart.{from_yaml, load_yaml, init_variables}
use asyncflow.ChartData.YamlPatch.{patch_from_yaml, finish_patch}
use asyncflow.ChartData.Json.{init_params, from_json, load_chart, JsonChart}
use asyncflow.ChartData.{ChartData, NodeFunc}
use asyncflow.Base.{◌≡◌, Bool, String, none, some, arith}

-- An object that is no version of another.
unfoldable pub Unlinked : ChartData → Type 0
Unlinked d = (d.prev ≡ none) × (d.next ≡ none) × (d.version ≡ 0)

module _ (create_node_func : String → String → NodeFunc) where
  pub from_json-Unlinked :
      (doc : JsonChart) (d : ChartData) (r : ChartData × Bool)
      → Unlinked d
      → from_json create_node_func doc d ≡ some r
      → Unlinked r.0
  unfolding from_json load_chart init_params Unlinked
  from_json-Unlinked doc d r (p, n, v) e = ground arith

  pub from_yaml-Unlinked :
      (doc : YamlChart) (d : ChartData) (r : ChartData × Bool)
      → Unlinked d
      → from_yaml create_node_func doc d ≡ some r
      → Unlinked r.0
  unfolding from_yaml load_yaml init_variables Unlinked
  from_yaml-Unlinked doc d r (p, n, v) e = ground arith

  pub patch_from_yaml-SameLinks :
      (doc : YamlChart) (d : ChartData) (r : ChartData × Bool)
      → patch_from_yaml create_node_func doc d ≡ some r
      → SameLinks d r.0
  unfolding patch_from_yaml finish_patch SameLinks
  patch_from_yaml-SameLinks doc d r e = ground arith
