-- ===== src/Library/Loaded.antt =====
-- The loads of a library, one after the other.
use asyncflow.Library.Read.{patch_from_yaml-SameLinks}
use mathlib.Core.Option.{some-injective}
use asyncflow.ChartData.YamlPatch.{patch_from_yaml}
use asyncflow.Library.Imported.{
  import_chart_data-IsLoaded, Grows-IsLoaded, AllMade-AllPending, Made-Pending,
}
use mathlib.Core.Path.{subst}
use asyncflow.Library.Reloaded.{Current-frame, reload-IsLoaded}
use asyncflow.ChartData.Yaml.{YamlChart}
use asyncflow.Library.Loads.{
  CreatesAll, Grows-refl, create_from_yaml-Creates, parse_json_charts-CreatesAll,
  parse_yaml_charts-CreatesAll,
}
use asyncflow.Library.Import.{
  patch_in_place, parse_charts_from_json, patch_chart, parse_charts_yaml, import_yaml, import_json,
  patch_new, JsonDocument, YamlDocument, import_chart_data, create_from_yaml, yaml_stream,
  json_array, cons_some, json_other, parse_yaml_charts, patch_library, yaml_other, yaml_error,
}
use asyncflow.ChartData.{NodeFunc, ChartData}
use asyncflow.Library.{Library, modify_chart_data, get_chart}
use asyncflow.Library.Versions.{SameLinks, IsLoaded}
use asyncflow.Base.{
  ◌≡◌, Option, ℕ, List, Bool, inl, String, some, inr, none, arith, eqb→eq, Option-cases, ◌∷◌, [],
  if◌then◌else◌, refl, true, false,
}

-- A chart that is patched keeps its links.
modified-SameLinks :
    (lib : Library) (p : ℕ) (d : ChartData) (x : ℕ)
    → SameLinks (lib.chart_datas p) d
    → SameLinks (lib.chart_datas x) ((modify_chart_data p (λ o. d) lib).chart_datas x)
unfolding SameLinks
modified-SameLinks lib p d x same = ground (arith, eqb→eq p x)

modify-IsLoaded :
    (lib : Library) (p : ℕ) (d : ChartData)
    → SameLinks (lib.chart_datas p) d
    → IsLoaded lib
    → IsLoaded (modify_chart_data p (λ o. d) lib)
unfolding IsLoaded
modify-IsLoaded lib p d same valid name q f =
    Current-frame lib (modify_chart_data p (λ o. d) lib) name q (omega arith)
      (λ x l m. modified-SameLinks lib p d x same) (valid name q f)

-- The charts of a list of new objects are imported.
imported :
    (lib : Library) (s : Library × List ℕ)
    → IsLoaded lib
    → CreatesAll lib s.0 s.1
    → IsLoaded (import_chart_data s.1 s.0).0
imported lib s valid (g, m) =
    import_chart_data-IsLoaded s.1 s.0 (Grows-IsLoaded lib s.0 g valid)
      (AllMade-AllPending lib s.0 s.1 g valid m)

-- A document that is patched, then the others.
next-IsLoaded :
    (r : Option (Library × Option ℕ)) (rest : Library → Option (Library × List ℕ))
    (s : Library × List ℕ)
    → ((q : Library × Option ℕ) → r ≡ some q → IsLoaded q.0)
    → ((l : Library) (t : Library × List ℕ) → IsLoaded l → rest l ≡ some t → IsLoaded t.0)
    → (elim r [
      | none ↦ none
      | some (l, p) ↦ elim (rest l) [ none ↦ none | some (l2, ps) ↦ some (l2, cons_some p ps) ]
    ])
      ≡ some s
    → IsLoaded s.0
next-IsLoaded none rest s one more e = absurd (ground arith)
next-IsLoaded (some (l, o)) rest s one more e = elim (Option-cases (rest l)) [
  | inl g ↦ absurd (ground (arith, e, g))
  | inr ((l2, ps), g) ↦
      subst (λ z. IsLoaded z.0) (some-injective _ _ (rw g at e))
        (more l (l2, ps) (one (l, o) refl) g)
]

module _ (create_node_func : String → String → NodeFunc) where
  parse_charts_from_json-CreatesAll :
      (doc : Option JsonDocument) (lib : Library) (s : Library × List ℕ)
      → parse_charts_from_json create_node_func doc lib ≡ some s
      → CreatesAll lib s.0 s.1
  unfolding parse_charts_from_json
  parse_charts_from_json-CreatesAll none lib s e =
      subst (λ z. CreatesAll lib z.0 z.1) (some-injective _ _ e) (Grows-refl lib, tt)
  parse_charts_from_json-CreatesAll (some json_other) lib s e =
      subst (λ z. CreatesAll lib z.0 z.1) (some-injective _ _ e) (Grows-refl lib, tt)
  parse_charts_from_json-CreatesAll (some (json_array docs)) lib s e =
      parse_json_charts-CreatesAll create_node_func docs lib s e

  parse_charts_yaml-CreatesAll :
      (doc : YamlDocument) (lib : Library) (s : Library × List ℕ)
      → parse_charts_yaml create_node_func (create_from_yaml create_node_func) doc lib ≡ some s
      → CreatesAll lib s.0 s.1
  unfolding parse_charts_yaml
  parse_charts_yaml-CreatesAll yaml_other lib s e =
      subst (λ z. CreatesAll lib z.0 z.1) (some-injective _ _ e) (Grows-refl lib, tt)
  parse_charts_yaml-CreatesAll yaml_error lib s e =
      subst (λ z. CreatesAll lib z.0 z.1) (some-injective _ _ e) (Grows-refl lib, tt)
  parse_charts_yaml-CreatesAll (yaml_stream docs) lib s e =
      parse_yaml_charts-CreatesAll create_node_func docs lib s e

  pub import_json-IsLoaded :
      (doc : Option JsonDocument) (lib : Library) (r : Library × ℕ)
      → IsLoaded lib
      → import_json create_node_func doc lib ≡ some r
      → IsLoaded r.0
  unfolding import_json
  import_json-IsLoaded doc lib r valid e =
      elim (Option-cases (parse_charts_from_json create_node_func doc lib)) [
        | inl f ↦ absurd (ground (arith, e, f))
        | inr (s, f) ↦
            subst (λ z. IsLoaded z.0) (some-injective _ _ (rw (f, import_json) at e))
              (imported lib s valid (parse_charts_from_json-CreatesAll doc lib s f))
      ]

  pub import_yaml-IsLoaded :
      (doc : YamlDocument) (lib : Library) (r : Library × ℕ)
      → IsLoaded lib
      → import_yaml create_node_func doc lib ≡ some r
      → IsLoaded r.0
  unfolding import_yaml
  import_yaml-IsLoaded doc lib r valid e =
      elim (Option-cases
        (parse_charts_yaml create_node_func (create_from_yaml create_node_func) doc lib)) [
          | inl f ↦ absurd (ground (arith, e, f))
          | inr (s, f) ↦
              subst (λ z. IsLoaded z.0) (some-injective _ _ (rw (f, import_yaml) at e))
                (imported lib s valid (parse_charts_yaml-CreatesAll doc lib s f))
        ]

  patch_in_place-IsLoaded :
      (p : ℕ) (doc : YamlChart) (lib : Library) (r : Library × Option ℕ)
      → IsLoaded lib
      → patch_in_place create_node_func p doc lib ≡ some r
      → IsLoaded r.0
  unfolding patch_in_place
  patch_in_place-IsLoaded p doc lib r valid e =
      elim (Option-cases (patch_from_yaml create_node_func doc (lib.chart_datas p))) [
        | inl f ↦ absurd (ground (arith, e, f))
        | inr ((d, ok), f) ↦
            subst (λ z. IsLoaded z.0) (some-injective _ _ (rw (f, patch_in_place) at e))
              (modify-IsLoaded lib p d
                (patch_from_yaml-SameLinks create_node_func doc (lib.chart_datas p) (d, ok) f)
                valid)
      ]

  patch_new-IsLoaded :
      (doc : YamlChart) (lib : Library) (r : Library × Option ℕ)
      → IsLoaded lib
      → patch_new create_node_func doc lib ≡ some r
      → IsLoaded r.0
  unfolding patch_new
  patch_new-IsLoaded doc lib r valid e =
      elim (Option-cases (create_from_yaml create_node_func doc lib)) [
        | inl f ↦ absurd (ground (arith, e, f))
        | inr ((l, none), f) ↦
            subst (λ z. IsLoaded z.0) (some-injective _ _ (rw (f, patch_new) at e))
              (Grows-IsLoaded lib l
                (create_from_yaml-Creates create_node_func doc lib (l, none) f).0 valid)
        | inr ((l, some p), f) ↦
            let (g, m) = create_from_yaml-Creates create_node_func doc lib (l, some p) f in
            subst (λ z. IsLoaded z.0) (some-injective _ _ (rw (f, patch_new) at e))
              (reload-IsLoaded l p (Grows-IsLoaded lib l g valid) (Made-Pending lib l p g valid m))
      ]

  known :
      (p : ℕ) (doc : YamlChart) (lib : Library) (r : Library × Option ℕ) (in_place : Bool)
      → IsLoaded lib
      → (if in_place
          then patch_in_place create_node_func p doc lib
          else patch_new create_node_func doc lib)
        ≡ some r
      → IsLoaded r.0
  known p doc lib r true valid e = patch_in_place-IsLoaded p doc lib r valid e
  known p doc lib r false valid e = patch_new-IsLoaded doc lib r valid e

  patch_chart-IsLoaded :
      (in_place : Bool) (doc : YamlChart) (lib : Library) (r : Library × Option ℕ)
      → IsLoaded lib
      → patch_chart create_node_func in_place doc lib ≡ some r
      → IsLoaded r.0
  unfolding patch_chart
  patch_chart-IsLoaded in_place doc lib r valid e = elim (Option-cases doc.path) [
    | inl f ↦ subst (λ z. IsLoaded z.0) (some-injective _ _ (rw (f, patch_chart) at e)) valid
    | inr (path, f) ↦ elim (Option-cases (get_chart path lib)) [
      | inl g ↦ patch_new-IsLoaded doc lib r valid (rw (f, patch_chart, g) at e)
      | inr (p, g) ↦ known p doc lib r in_place valid (rw (f, patch_chart, g) at e)
    ]
  ]

  parse_yaml_charts-IsLoaded :
      (in_place : Bool) (docs : List YamlChart) (lib : Library) (s : Library × List ℕ)
      → IsLoaded lib
      → parse_yaml_charts create_node_func (patch_chart create_node_func in_place) docs lib ≡ some s
      → IsLoaded s.0
  unfolding parse_yaml_charts
  parse_yaml_charts-IsLoaded in_place [] lib s valid e =
      subst (λ z. IsLoaded z.0) (some-injective _ _ e) valid
  parse_yaml_charts-IsLoaded in_place (doc ∷ docs) lib s valid e = elim (Option-cases doc.path) [
    | inl p ↦ absurd (ground (arith, e, p))
    | inr (name, p) ↦
        next-IsLoaded (patch_chart create_node_func in_place doc lib)
          (parse_yaml_charts create_node_func (patch_chart create_node_func in_place) docs) s
          (λ q f. patch_chart-IsLoaded in_place doc lib q valid f)
          (λ l t v f. parse_yaml_charts-IsLoaded in_place docs l t v f)
          (rw (p, parse_yaml_charts) at e)
  ]

  pub patch_library-IsLoaded :
      (in_place : Bool) (doc : YamlDocument) (lib : Library) (r : Library × ℕ)
      → IsLoaded lib
      → patch_library create_node_func in_place doc lib ≡ some r
      → IsLoaded r.0
  unfolding patch_library parse_charts_yaml
  patch_library-IsLoaded in_place yaml_other lib r valid e =
      subst (λ z. IsLoaded z.0) (some-injective _ _ e) valid
  patch_library-IsLoaded in_place yaml_error lib r valid e =
      subst (λ z. IsLoaded z.0) (some-injective _ _ e) valid
  patch_library-IsLoaded in_place (yaml_stream docs) lib r valid e =
      elim (Option-cases
        (parse_yaml_charts create_node_func (patch_chart create_node_func in_place) docs lib)) [
          | inl f ↦ absurd (ground (arith, e, f))
          | inr (s, f) ↦
              subst (λ z. IsLoaded z.0)
                (some-injective _ _ (rw (f, patch_library, parse_charts_yaml) at e))
                (parse_yaml_charts-IsLoaded in_place docs lib s valid f)
        ]
