-- ===== src/Library/Loads.antt =====
-- The library after Manager::ImportJson, ImportYaml and PatchFromYaml.
use mathlib.Core.Option.{some-injective}
use mathlib.Core.Path.{subst}
use asyncflow.ChartData.YamlChart.{from_yaml}
use asyncflow.ChartData.Yaml.{YamlChart}
use asyncflow.ChartData.Json.{JsonChart, from_json}
use asyncflow.Library.Read.{Unlinked, from_yaml-Unlinked, from_json-Unlinked}
use asyncflow.Library.{Library, create_chart_data}
use asyncflow.ChartData.{NodeFunc, new_chart_data, ChartData}
use asyncflow.Library.Import.{
  keep_chart, create_from_yaml, create_from_json, cons_some, parse_yaml_charts, parse_json_charts,
}
use asyncflow.Base.{
  ◌≤◌, ◌<◌, ◌≡◌, ◌∷◌, ◌∙◌, [], ℕ, arith, true, some, mem, List, Bool, refl, Option, String, none,
  false, inl, inr, eqb→eq, Option-cases,
}

-- Only new objects differ.
unfoldable pub Grows : Library → Library → Type 0
Grows lib lib' =
    (lib.next_chart_data ≤ lib'.next_chart_data)
    × (lib'.chart_data_dict ≡ lib.chart_data_dict)
    × ((p : ℕ) → p < lib.next_chart_data → lib'.chart_datas p ≡ lib.chart_datas p)

pub Grows-refl : (lib : Library) → Grows lib lib
unfolding Grows
Grows-refl lib = (omega arith, refl, λ p l. refl)

pub Grows-trans : (a b c : Library) → Grows a b → Grows b c → Grows a c
unfolding Grows
Grows-trans a b c (l, d, s) (m, e, t) = (omega arith, e ∙ d, λ p k. t p (ground arith) ∙ s p k)

-- An object that was made since.
unfoldable pub Made : Library → Library → ℕ → Type 0
unfolding Unlinked
Made lib lib' p =
    (lib.next_chart_data ≤ p) × (p < lib'.next_chart_data) × Unlinked (lib'.chart_datas p)

-- Objects made one after the other.
abbrev pub AllMade : Library → Library → List ℕ → Type 0
AllMade lib lib' [] = Unit
AllMade lib lib' (p ∷ ps) = Made lib lib' p × (mem p ps ≡ false) × AllMade lib lib' ps

abbrev pub MadeOne : Library → Library → Option ℕ → Type 0
MadeOne lib lib' none = Unit
MadeOne lib lib' (some p) = Made lib lib' p

abbrev pub Creates : Library → Library → Option ℕ → Type 0
Creates lib lib' o = Grows lib lib' × MadeOne lib lib' o

keep_chart-Creates :
    (lib : Library) (r : Option (ChartData × Bool)) (s : Library × Option ℕ)
    → ((q : ChartData × Bool) → r ≡ some q → Unlinked q.0)
    → keep_chart (create_chart_data lib).1 (create_chart_data lib).0 r ≡ some s
    → Creates lib s.0 s.1
unfolding keep_chart create_chart_data Grows Made Unlinked
keep_chart-Creates lib none s u e = absurd (ground arith)
keep_chart-Creates lib (some (d, true)) s u e =
    subst (λ z. Creates lib z.0 z.1) (some-injective _ _ e)
      (
        (omega arith, refl, λ p l. ground arith),
        (omega arith, omega arith, ground (arith, u (d, true) refl)),
      )
keep_chart-Creates lib (some (d, false)) s u e =
    subst (λ z. Creates lib z.0 z.1) (some-injective _ _ e)
      ((omega arith, refl, λ p l. ground arith), tt)

created :
    (lib : Library)
    → (create_chart_data lib).0.chart_datas (create_chart_data lib).1 ≡ new_chart_data
unfolding create_chart_data
created lib = ground arith

pub new-Unlinked : Unlinked new_chart_data
unfolding Unlinked
new-Unlinked = (refl, refl, refl)

module _ (create_node_func : String → String → NodeFunc) where
  create_from_json-Creates :
      (doc : JsonChart) (lib : Library) (s : Library × Option ℕ)
      → create_from_json create_node_func doc lib ≡ some s
      → Creates lib s.0 s.1
  unfolding create_from_json create_chart_data
  create_from_json-Creates doc lib s e =
      keep_chart-Creates lib (from_json create_node_func doc new_chart_data) s
        (λ q f. from_json-Unlinked create_node_func doc new_chart_data q new-Unlinked f)
        (subst
          (λ d.
            keep_chart (create_chart_data lib).1 (create_chart_data lib).0
              (from_json create_node_func doc d)
            ≡ some s)
          (created lib) e)

  pub create_from_yaml-Creates :
      (doc : YamlChart) (lib : Library) (s : Library × Option ℕ)
      → create_from_yaml create_node_func doc lib ≡ some s
      → Creates lib s.0 s.1
  unfolding create_from_yaml create_chart_data
  create_from_yaml-Creates doc lib s e =
      keep_chart-Creates lib (from_yaml create_node_func doc new_chart_data) s
        (λ q f. from_yaml-Unlinked create_node_func doc new_chart_data q new-Unlinked f)
        (subst
          (λ d.
            keep_chart (create_chart_data lib).1 (create_chart_data lib).0
              (from_yaml create_node_func doc d)
            ≡ some s)
          (created lib) e)

Made-mono : (a b c : Library) (p : ℕ) → Grows a b → Made b c p → Made a c p
unfolding Grows Made
Made-mono a b c p (l, d, s) (m, n, u) = (omega arith, n, u)

AllMade-mono : (a b c : Library) (ps : List ℕ) → Grows a b → AllMade b c ps → AllMade a c ps
AllMade-mono a b c [] g m = tt
AllMade-mono a b c (p ∷ ps) g (m, n, o) = (Made-mono a b c p g m, n, AllMade-mono a b c ps g o)

Made-keep : (a b c : Library) (p : ℕ) → Made a b p → Grows b c → Made a c p
unfolding Grows Made Unlinked
Made-keep a b c p (l, m, u) (k, d, s) = (l, omega arith, rw (s p m) u)

Made-apart :
    (a b c : Library) (p : ℕ) (ps : List ℕ) → Made a b p → AllMade b c ps → mem p ps ≡ false
unfolding Made
Made-apart a b c p [] m o = refl
Made-apart a b c p (q ∷ qs) (l, m, u) ((l2, m2, u2), n, o) =
    ground (arith, eqb→eq q p, Made-apart a b c p qs (l, m, u) o)

-- One object, and those made after it.
cons-AllMade :
    (a b c : Library) (o : Option ℕ) (ps : List ℕ)
    → Grows a b
    → Grows b c
    → MadeOne a b o
    → AllMade b c ps
    → AllMade a c (cons_some o ps)
cons-AllMade a b c none ps g k m os = AllMade-mono a b c ps g os
cons-AllMade a b c (some p) ps g k m os =
    (Made-keep a b c p m k, Made-apart a b c p ps m os, AllMade-mono a b c ps g os)

abbrev pub CreatesAll : Library → Library → List ℕ → Type 0
CreatesAll lib lib' ps = Grows lib lib' × AllMade lib lib' ps

Creates-CreatesAll :
    (a b c : Library) (o : Option ℕ) (ps : List ℕ)
    → Creates a b o
    → CreatesAll b c ps
    → CreatesAll a c (cons_some o ps)
Creates-CreatesAll a b c o ps (g, m) (k, os) =
    (Grows-trans a b c g k, cons-AllMade a b c o ps g k m os)

-- One document, then the others.
next-CreatesAll :
    (lib : Library) (r : Option (Library × Option ℕ)) (rest : Library → Option (Library × List ℕ))
    (s : Library × List ℕ)
    → ((q : Library × Option ℕ) → r ≡ some q → Creates lib q.0 q.1)
    → ((l : Library) (t : Library × List ℕ) → rest l ≡ some t → CreatesAll l t.0 t.1)
    → (elim r [
      | none ↦ none
      | some (l, p) ↦ elim (rest l) [ none ↦ none | some (l2, ps) ↦ some (l2, cons_some p ps) ]
    ])
      ≡ some s
    → CreatesAll lib s.0 s.1
next-CreatesAll lib none rest s one more e = absurd (ground arith)
next-CreatesAll lib (some (l, o)) rest s one more e = elim (Option-cases (rest l)) [
  | inl g ↦ absurd (ground (arith, e, g))
  | inr ((l2, ps), g) ↦
      subst (λ z. CreatesAll lib z.0 z.1) (some-injective _ _ (rw g at e))
        (Creates-CreatesAll lib l l2 o ps (one (l, o) refl) (more l (l2, ps) g))
]

module _ (create_node_func : String → String → NodeFunc) where
  pub parse_json_charts-CreatesAll :
      (docs : List JsonChart) (lib : Library) (s : Library × List ℕ)
      → parse_json_charts create_node_func docs lib ≡ some s
      → CreatesAll lib s.0 s.1
  unfolding parse_json_charts
  parse_json_charts-CreatesAll [] lib s e =
      subst (λ z. CreatesAll lib z.0 z.1) (some-injective _ _ e) (Grows-refl lib, tt)
  parse_json_charts-CreatesAll (doc ∷ docs) lib s e =
      next-CreatesAll lib (create_from_json create_node_func doc lib)
        (parse_json_charts create_node_func docs) s
        (create_from_json-Creates create_node_func doc lib) (parse_json_charts-CreatesAll docs) e

  pub parse_yaml_charts-CreatesAll :
      (docs : List YamlChart) (lib : Library) (s : Library × List ℕ)
      → parse_yaml_charts create_node_func (create_from_yaml create_node_func) docs lib ≡ some s
      → CreatesAll lib s.0 s.1
  unfolding parse_yaml_charts
  parse_yaml_charts-CreatesAll [] lib s e =
      subst (λ z. CreatesAll lib z.0 z.1) (some-injective _ _ e) (Grows-refl lib, tt)
  parse_yaml_charts-CreatesAll (doc ∷ docs) lib s e = elim (Option-cases doc.path) [
    | inl p ↦ absurd (ground (arith, e, p))
    | inr (name, p) ↦
        next-CreatesAll lib (create_from_yaml create_node_func doc lib)
          (parse_yaml_charts create_node_func (create_from_yaml create_node_func) docs) s
          (create_from_yaml-Creates create_node_func doc lib) (parse_yaml_charts-CreatesAll docs)
          (rw (p, parse_yaml_charts) at e)
  ]
