-- ===== src/Library/Versions.antt =====
-- The chain of the versions of a chart.
use asyncflow.Library.{Library}
use asyncflow.ChartData.{ChartData}
use asyncflow.Base.{
  ◌+◌, ◌≤◌, ◌<◌, ◌≡◌, ◌≢◌, ◌∷◌, ◌==◌, String, some, ℕ, mem, inr, none, inl, true, List, arith,
  Bool-cases, find_name, eqb→eq, [],
}

-- What ChartData::Update reads and writes, and the name.
unfoldable pub SameLinks : ChartData → ChartData → Type 0
SameLinks d e =
    (e.prev ≡ d.prev) × (e.next ≡ d.next) × (e.version ≡ d.version) × (e.chart_name ≡ d.chart_name)

-- The version at `p`, and those before it, down to version 0; each but `p` points to the version
-- after it.
abbrev pub History : Library → ℕ → List ℕ → Type 0
History lib p [] =
    (p < lib.next_chart_data)
    × ((lib.chart_datas p).prev ≡ none)
    × ((lib.chart_datas p).version ≡ 0)
History lib p (q ∷ qs) =
    (p < lib.next_chart_data)
    × ((lib.chart_datas p).prev ≡ some q)
    × ((lib.chart_datas p).version ≡ (lib.chart_datas q).version + 1)
    × ((lib.chart_datas q).next ≡ some p)
    × ((lib.chart_datas q).chart_name ≡ (lib.chart_datas p).chart_name)
    × History lib q qs

-- The latest version of the chart with a name.
unfoldable pub Current : Library → String → ℕ → Type 0
Current lib name p =
    ((lib.chart_datas p).chart_name ≡ name)
    × ((lib.chart_datas p).next ≡ none)
    × ((qs : List ℕ) × History lib p qs)

unfoldable pub IsLoaded : Library → Type 0
IsLoaded lib =
    (name : String) (p : ℕ) → find_name name lib.chart_data_dict ≡ some p → Current lib name p

-- An object that is not in the map yet.
unfoldable pub Pending : Library → ℕ → Type 0
Pending lib p =
    (p < lib.next_chart_data)
    × ((lib.chart_datas p).prev ≡ none)
    × ((lib.chart_datas p).next ≡ none)
    × ((lib.chart_datas p).version ≡ 0)
    × ((name : String) → find_name name lib.chart_data_dict ≢ some p)

pub History-below :
    (lib : Library) (p : ℕ) (qs : List ℕ) → History lib p qs → p < lib.next_chart_data
History-below lib p [] h = h.0
History-below lib p (q ∷ qs) h = h.0

pub mem_below :
    (lib : Library) (p x : ℕ) (qs : List ℕ)
    → History lib p qs
    → mem x qs ≡ true
    → x < lib.next_chart_data
mem_below lib p x [] h i = absurd (ground arith)
mem_below lib p x (q ∷ qs) (b, e, v, n, c, h) i = elim (Bool-cases (q == x)) [
  | inl e' ↦ ground (arith, eqb→eq q x, History-below lib q qs h)
  | inr e' ↦ mem_below lib q x qs h (ground arith)
]

-- An earlier version has a later one.
pub mem_next :
    (lib : Library) (p x : ℕ) (qs : List ℕ)
    → History lib p qs
    → mem x qs ≡ true
    → (lib.chart_datas x).next ≢ none
mem_next lib p x [] h i e' = ground arith
mem_next lib p x (q ∷ qs) (b, e, v, n, c, h) i e' = elim (Bool-cases (q == x)) [
  | inl e2 ↦ ground (arith, eqb→eq q x)
  | inr e2 ↦ mem_next lib q x qs h (ground arith) e'
]

-- The chain reads the links of its objects alone, and not the next one of its last version.
pub History-frame :
    (lib lib' : Library) (p : ℕ) (qs : List ℕ)
    → lib.next_chart_data ≤ lib'.next_chart_data
    → (lib'.chart_datas p).prev ≡ (lib.chart_datas p).prev
    → (lib'.chart_datas p).version ≡ (lib.chart_datas p).version
    → (lib'.chart_datas p).chart_name ≡ (lib.chart_datas p).chart_name
    → ((x : ℕ) → mem x qs ≡ true → SameLinks (lib.chart_datas x) (lib'.chart_datas x))
    → History lib p qs
    → History lib' p qs
unfolding SameLinks
History-frame lib lib' p [] le ep ev ec same h = ground arith
History-frame lib lib' p (q ∷ qs) le ep ev ec same (b, e, v, n, c, h) =
    let s = same q (ground arith) in
    (
      ground arith,
      ground arith,
      ground arith,
      ground arith,
      ground arith,
      History-frame lib lib' q qs le s.0 s.2 s.3 (λ x i. same x (ground arith)) h,
    )
