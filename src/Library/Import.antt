-- ===== src/Library/Import.antt =====
-- Manager::ImportFile, ImportJson, ImportYaml, ImportChatData, PatchFromYaml and the parsers of
-- src/core/manager.cpp. The readers of files and documents are parameters.
use asyncflow.ChartData.YamlPatch.{patch_from_yaml}
use asyncflow.ChartData.YamlChart.{from_yaml}
use asyncflow.ChartData.Json.{JsonChart, from_json}
use asyncflow.ChartData.{NodeFunc, ChartData}
use asyncflow.Library.{Library, reload, get_chart, create_chart_data, modify_chart_data}
use asyncflow.ChartData.Yaml.{YamlChart}
use asyncflow.Base.{
  ◌+◌, ◌∷◌, if◌then◌else◌, Option, some, String, List, false, true, ℕ, Bool, none, [], length,
}
use text.Mathlib.Text.{◌==◌ as str_eq}

-- What rapidjson makes of a text: an array, or any other value.
pub data JsonDocument : Type 0 where
  json_array : List JsonChart → JsonDocument
  json_other : JsonDocument

-- What ryml makes of a text: a stream of documents, another tree, or an exception.
pub data YamlDocument : Type 0 where
  yaml_stream : List YamlChart → YamlDocument
  yaml_other : YamlDocument
  yaml_error : YamlDocument

-- Manager::ImportChatData
unfoldable pub import_chart_data : List ℕ → Library → Library × ℕ
import_chart_data [] lib = (lib, 0)
import_chart_data (p ∷ ps) lib =
    let r = reload (some p) lib in
    let s = import_chart_data ps r.0 in (s.0, if r.1 then s.1 + 1 else s.1)

-- A new object with the data that was read; one that could not be read is deleted. `none` is
-- undefined.
unfoldable pub keep_chart : ℕ → Library → Option (ChartData × Bool) → Option (Library × Option ℕ)
keep_chart p lib none = none
keep_chart p lib (some (d, true)) = some (modify_chart_data p (λ o. d) lib, some p)
keep_chart p lib (some (d, false)) =
    some (record (modify_chart_data p (λ o. d) lib) { deleted = p ∷ lib.deleted }, none)

abbrev pub cons_some : Option ℕ → List ℕ → List ℕ
cons_some none ps = ps
cons_some (some p) ps = p ∷ ps

module _ (create_node_func : String → String → NodeFunc) where
  -- CreateChartData, then FromJson or FromYaml.
  unfoldable pub create_from_json : JsonChart → Library → Option (Library × Option ℕ)
  create_from_json doc lib =
      let r = create_chart_data lib in
      keep_chart r.1 r.0 (from_json create_node_func doc (r.0.chart_datas r.1))

  unfoldable pub create_from_yaml : YamlChart → Library → Option (Library × Option ℕ)
  create_from_yaml doc lib =
      let r = create_chart_data lib in
      keep_chart r.1 r.0 (from_yaml create_node_func doc (r.0.chart_datas r.1))

  -- Manager::ParseChartsFromJson
  unfoldable pub parse_json_charts : List JsonChart → Library → Option (Library × List ℕ)
  parse_json_charts [] lib = some (lib, [])
  parse_json_charts (doc ∷ docs) lib = elim (create_from_json doc lib) [
    | none ↦ none
    | some (l, p) ↦ elim (parse_json_charts docs l) [
      | none ↦ none
      | some (l2, ps) ↦ some (l2, cons_some p ps)
    ]
  ]

  unfoldable pub parse_charts_from_json : Option JsonDocument → Library → Option (Library × List ℕ)
  parse_charts_from_json none lib = some (lib, [])
  parse_charts_from_json (some json_other) lib = some (lib, [])
  parse_charts_from_json (some (json_array docs)) lib = parse_json_charts docs lib

  -- Manager::_ParseChartsYaml, which reads the path of each document before its handler does.
  unfoldable pub parse_yaml_charts :
      (YamlChart → Library → Option (Library × Option ℕ))
      → List YamlChart
      → Library
      → Option (Library × List ℕ)
  parse_yaml_charts handler [] lib = some (lib, [])
  parse_yaml_charts handler (doc ∷ docs) lib = elim doc.path [
    | none ↦ none
    | some _ ↦ elim (handler doc lib) [
      | none ↦ none
      | some (l, p) ↦ elim (parse_yaml_charts handler docs l) [
        | none ↦ none
        | some (l2, ps) ↦ some (l2, cons_some p ps)
      ]
    ]
  ]

  unfoldable pub parse_charts_yaml :
      (YamlChart → Library → Option (Library × Option ℕ))
      → YamlDocument
      → Library
      → Option (Library × List ℕ)
  parse_charts_yaml handler (yaml_stream docs) lib = parse_yaml_charts handler docs lib
  parse_charts_yaml handler yaml_other lib = some (lib, [])
  parse_charts_yaml handler yaml_error lib = some (lib, [])

  -- Manager::ImportJson, ImportYaml
  unfoldable pub import_json : Option JsonDocument → Library → Option (Library × ℕ)
  import_json doc lib = elim (parse_charts_from_json doc lib) [
    | none ↦ none
    | some (l, ps) ↦ some (import_chart_data ps l)
  ]

  unfoldable pub import_yaml : YamlDocument → Library → Option (Library × ℕ)
  import_yaml doc lib = elim (parse_charts_yaml create_from_yaml doc lib) [
    | none ↦ none
    | some (l, ps) ↦ some (import_chart_data ps l)
  ]

  -- The handler of Manager::PatchFromYaml.
  unfoldable pub patch_in_place : ℕ → YamlChart → Library → Option (Library × Option ℕ)
  patch_in_place p doc lib = elim (patch_from_yaml create_node_func doc (lib.chart_datas p)) [
    | none ↦ none
    | some (d, ok) ↦ some (modify_chart_data p (λ o. d) lib, some p)
  ]

  unfoldable pub patch_new : YamlChart → Library → Option (Library × Option ℕ)
  patch_new doc lib = elim (create_from_yaml doc lib) [
    | none ↦ none
    | some (l, none) ↦ some (l, none)
    | some (l, some p) ↦ some ((reload (some p) l).0, some p)
  ]

  unfoldable pub patch_chart : Bool → YamlChart → Library → Option (Library × Option ℕ)
  patch_chart in_place doc lib = elim doc.path [
    | none ↦ some (lib, none)
    | some path ↦ elim (get_chart path lib) [
      | none ↦ patch_new doc lib
      | some p ↦ if in_place then patch_in_place p doc lib else patch_new doc lib
    ]
  ]

  -- Manager::PatchFromYaml
  unfoldable pub patch_library : Bool → YamlDocument → Library → Option (Library × ℕ)
  patch_library in_place doc lib = elim (parse_charts_yaml (patch_chart in_place) doc lib) [
    | none ↦ none
    | some (l, ps) ↦ some (l, length ps)
  ]

  module _ (read_file : String → Option String) (parse : String → Option JsonDocument)
      (parse_yaml : String → YamlDocument) where
    -- JsonUtil::ParseJson
    unfoldable pub parse_json : String → Option JsonDocument
    parse_json str = if str_eq str "" then none else parse str

    -- Manager::ImportFile, of a text.
    unfoldable pub import_text : String → Library → Option (Library × ℕ)
    import_text str lib = elim (parse str) [
      | none ↦ import_yaml (parse_yaml str) lib
      | some _ ↦ import_json (parse_json str) lib
    ]

    -- Manager::ImportFile, of the name of a file that exists, or else of a text.
    unfoldable pub import_file : String → Library → Option (Library × ℕ)
    import_file file_name lib = elim (read_file file_name) [
      | none ↦ import_text file_name lib
      | some str ↦ import_text str lib
    ]
