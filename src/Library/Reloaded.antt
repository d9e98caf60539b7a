-- ===== src/Library/Reloaded.antt =====
-- The versions that Manager::ReloadChartData leaves.
use text.Mathlib.TextEquality.{eq_iff}
use mathlib.Core.Path.{subst}
use text.Mathlib.Text.{◌==◌ as str_eq}
use asyncflow.Library.{Library, enter_chart, update_version, reload}
use asyncflow.ChartData.{ChartData}
use asyncflow.Library.Versions.{
  IsLoaded, Current, SameLinks, Pending, History-below, History-frame, mem_below, mem_next,
}
use asyncflow.Base.{
  ◌≤◌, ◌<◌, ◌≡◌, ◌≢◌, ◌⊎◌, ◌∙◌, String, ℕ, inr, none, refl, inl, Bool-cases, ◌+◌, ◌==◌, [], false,
  some, arith, sym, find_name, find_name-put_name, eqb→eq, ◌∷◌, ap, Option-cases,
}

pub links_refl : (d : ChartData) → SameLinks d d
unfolding SameLinks
links_refl d = (refl, refl, refl, refl)

-- A chart whose objects keep their links is still loaded.
pub Current-frame :
    (lib lib' : Library) (name : String) (p : ℕ)
    → lib.next_chart_data ≤ lib'.next_chart_data
    → ((x : ℕ)
        → x < lib.next_chart_data
        → ((x ≡ p) ⊎ ((lib.chart_datas x).next ≢ none))
        → SameLinks (lib.chart_datas x) (lib'.chart_datas x))
    → Current lib name p
    → Current lib' name p
unfolding Current SameLinks
Current-frame lib lib' name p le same (n, x, (qs, h)) =
    let s = same p (History-below lib p qs h) (inl refl) in
    (
      s.3 ∙ n,
      s.1 ∙ x,
      (
        qs,
        History-frame lib lib' p qs le s.0 s.2 s.3
            (λ y i. same y (mem_below lib p y qs h i) (inr (mem_next lib p y qs h i))) h,
      ),
    )

-- What the map holds after a chart is entered.
found_after :
    (lib : Library) (p q : ℕ) (name : String)
    → find_name name (enter_chart p lib).chart_data_dict ≡ some q
    → ((q ≡ p) × ((lib.chart_datas p).chart_name ≡ name))
      ⊎ ((find_name name lib.chart_data_dict ≡ some q)
          × (str_eq (lib.chart_datas p).chart_name name ≡ false))
found_after lib p q name f = elim (Bool-cases (str_eq (lib.chart_datas p).chart_name name)) [
  | inl same ↦ inl (
    ground (arith, find_name-put_name (lib.chart_datas p).chart_name name p lib.chart_data_dict),
    ground (arith, eq_iff (lib.chart_datas p).chart_name name),
  )
  | inr other ↦ inr (
    ground (arith, find_name-put_name (lib.chart_datas p).chart_name name p lib.chart_data_dict),
    other,
  )
]

-- The first version of a chart.
enter_first : (lib : Library) (p : ℕ) → IsLoaded lib → Pending lib p → IsLoaded (enter_chart p lib)
unfolding IsLoaded Pending Current
enter_first lib p valid (b, e, n, v, out) name q f = elim (found_after lib p q name f) [
  | inl (s, c) ↦ subst (λ z. Current (enter_chart p lib) name z) (sym s) (c, n, ([], (b, e, v)))
  | inr (g, other) ↦
      Current-frame lib (enter_chart p lib) name q (omega arith)
        (λ x l m. links_refl (lib.chart_datas x)) (valid name q g)
]

-- The pointers that ChartData::Update writes.
pub Update_links :
    (lib : Library) (old p x : ℕ)
    → (x == old) ≡ false
    → (x == p) ≡ false
    → SameLinks (lib.chart_datas x) ((update_version old p lib).chart_datas x)
unfolding update_version SameLinks
Update_links lib old p x a b = ground arith

Update_new :
    (lib : Library) (old p : ℕ)
    → (old == p) ≡ false
    → let d = (update_version old p lib).chart_datas p in
      (d.prev ≡ some old)
      × (d.next ≡ (lib.chart_datas p).next)
      × (d.version ≡ (lib.chart_datas old).version + 1)
      × (d.chart_name ≡ (lib.chart_datas p).chart_name)
unfolding update_version
Update_new lib old p a = ground (arith, eqb→eq p old)

Update_old :
    (lib : Library) (old p : ℕ)
    → (old == p) ≡ false
    → let d = (update_version old p lib).chart_datas old in
      (d.prev ≡ (lib.chart_datas old).prev)
      × (d.next ≡ some p)
      × (d.version ≡ (lib.chart_datas old).version)
      × (d.chart_name ≡ (lib.chart_datas old).chart_name)
unfolding update_version
Update_old lib old p a = ground (arith, eqb→eq p old)

-- An object with a later version is not one without.
pub other_object :
    (lib : Library) (y p : ℕ)
    → (lib.chart_datas y).next ≢ none
    → (lib.chart_datas p).next ≡ none
    → (y == p) ≡ false
other_object lib y p some_next no_next = elim (Bool-cases (y == p)) [
  | inl e ↦ absurd (some_next (ground (arith, eqb→eq y p)))
  | inr e ↦ e
]

-- The chain of the new version is the old one's with it at the front.
new_version :
    (lib : Library) (old p : ℕ)
    → Current lib (lib.chart_datas p).chart_name old
    → Pending lib p
    → (old == p) ≡ false
    → Current (update_version old p lib) (lib.chart_datas p).chart_name p
unfolding Current Pending update_version
new_version lib old p (c, x, (qs, h)) (b, e, n, v, out) ne =
    let w = Update_new lib old p ne in
    let o = Update_old lib old p ne in
    (
      w.3,
      w.1 ∙ n,
      (
        old ∷ qs,
        (
          b,
          w.0,
          w.2 ∙ ap (λ z. z + 1) (sym o.2),
          o.1,
          (o.3 ∙ c ∙ sym w.3),
          History-frame lib (update_version old p lib) old qs (omega arith) o.0 o.2 o.3
              (λ y i.
                Update_links lib old p y (other_object lib y old (mem_next lib old y qs h i) x)
                  (other_object lib y p (mem_next lib old y qs h i) n))
              h,
        ),
      ),
    )

-- An object of a chain that does not end at `o`, which has no later version.
pub apart :
    (lib : Library) (y q o : ℕ)
    → (lib.chart_datas o).next ≡ none
    → (q == o) ≡ false
    → ((y ≡ q) ⊎ ((lib.chart_datas y).next ≢ none))
    → (y == o) ≡ false
apart lib y q o no_next qo (inl e) = rw e qo
apart lib y q o no_next qo (inr m) = other_object lib y o m no_next

-- The chart of another name keeps its chain.
other_version :
    (lib : Library) (old p q : ℕ) (name : String)
    → Current lib (lib.chart_datas p).chart_name old
    → Pending lib p
    → (old == p) ≡ false
    → Current lib name q
    → (q == old) ≡ false
    → (q == p) ≡ false
    → Current (update_version old p lib) name q
unfolding Current Pending update_version
other_version lib old p q name (c, x, (qs, h)) (b, e, n, v, out) ne cur qo qp =
    Current-frame lib (update_version old p lib) name q (omega arith)
      (λ y l m. Update_links lib old p y (apart lib y q old x qo m) (apart lib y q p n qp m)) cur

pub entry_apart :
    (lib : Library) (p q : ℕ) (name : String)
    → Pending lib p
    → find_name name lib.chart_data_dict ≡ some q
    → (q == p) ≡ false
unfolding Pending
entry_apart lib p q name (b, e, n, v, out) f = elim (Bool-cases (q == p)) [
  | inl same ↦ absurd (out name (ground (arith, eqb→eq q p)))
  | inr other ↦ other
]

-- Charts of different names are different objects.
names_apart :
    (lib : Library) (c name : String) (old q : ℕ)
    → Current lib c old
    → Current lib name q
    → str_eq c name ≡ false
    → (q == old) ≡ false
unfolding Current
names_apart lib c name old q a b ne = elim (Bool-cases (q == old)) [
  | inl same ↦ absurd (ground (arith, eqb→eq q old, eq_iff c name, a.0, b.0))
  | inr other ↦ other
]

entered :
    (lib : Library) (p q : ℕ) (name : String)
    → Current lib name q
    → Current (enter_chart p lib) name q
unfolding Current
entered lib p q name (c, x, (qs, h)) = (
  c,
  x,
  (
    qs,
    History-frame lib (enter_chart p lib) q qs (omega arith) refl refl refl
        (λ y i. links_refl (lib.chart_datas y)) h,
  ),
)

-- The next version of a chart.
enter_next :
    (lib : Library) (old p : ℕ)
    → IsLoaded lib
    → Pending lib p
    → find_name (lib.chart_datas p).chart_name lib.chart_data_dict ≡ some old
    → IsLoaded (enter_chart p (update_version old p lib))
unfolding IsLoaded update_version
enter_next lib old p valid pend f name q g =
    let cur = valid (lib.chart_datas p).chart_name old f in
    let ne = entry_apart lib p old (lib.chart_datas p).chart_name pend f in
    let same = (Update_new lib old p ne).3 in
    entered (update_version old p lib) p q name
      (elim (found_after (update_version old p lib) p q name g) [
        | inl (s, c) ↦ rw (s, sym c, same) (new_version lib old p cur pend ne)
        | inr (h, other) ↦
            other_version lib old p q name cur pend ne (valid name q h)
              (names_apart lib (lib.chart_datas p).chart_name name old q cur (valid name q h)
                (rw (sym same) other))
              (entry_apart lib p q name pend h)
      ])

-- Every import that succeeds keeps the chains of versions.
pub reload-IsLoaded :
    (lib : Library) (p : ℕ) → IsLoaded lib → Pending lib p → IsLoaded (reload (some p) lib).0
unfolding reload
reload-IsLoaded lib p valid pend =
    elim (Option-cases (find_name (lib.chart_datas p).chart_name lib.chart_data_dict)) [
      | inl e ↦ rw (e, reload) (enter_first lib p valid pend)
      | inr (old, e) ↦ rw (e, reload) (enter_next lib old p valid pend e)
    ]
