-- ===== src/Library/Imported.antt =====
-- The versions after Manager::ImportFile and PatchFromYaml.
use asyncflow.Library.Read.{Unlinked}
use mathlib.Core.Path.{subst}
use asyncflow.Library.Reloaded.{Current-frame, reload-IsLoaded, entry_apart, links_refl}
use asyncflow.Library.Loads.{Grows, AllMade, Made}
use asyncflow.Library.{Library, reload, enter_chart, update_version}
use asyncflow.Library.Versions.{IsLoaded, Pending, Current, History-below, SameLinks}
use asyncflow.Library.Import.{import_chart_data}
use asyncflow.Base.{
  ◌≡◌, ◌≢◌, ◌∷◌, ◌==◌, [], ℕ, sym, List, inl, refl, some, false, arith, inr, mem, String, ◌≤◌,
  Option-cases, eqb→eq, length, find_name-put_name, find_name,
}

pub Grows-IsLoaded : (lib lib' : Library) → Grows lib lib' → IsLoaded lib → IsLoaded lib'
unfolding Grows IsLoaded
Grows-IsLoaded lib lib' (le, d, s) valid name p f =
    Current-frame lib lib' name p le
      (λ x l m.
        subst (SameLinks (lib.chart_datas x)) (sym (s x l)) (links_refl (lib.chart_datas x)))
      (valid name p (rw d at f))

not_found :
    (lib : Library) (p : ℕ) (name : String)
    → IsLoaded lib
    → lib.next_chart_data ≤ p
    → find_name name lib.chart_data_dict ≢ some p
unfolding IsLoaded Current
not_found lib p name valid l f =
    let (c, x, (qs, h)) = valid name p f in omega (arith, l, History-below lib p qs h)

-- An object that was made since is not in the map.
pub Made-Pending :
    (lib lib' : Library) (p : ℕ) → Grows lib lib' → IsLoaded lib → Made lib lib' p → Pending lib' p
unfolding Grows IsLoaded Made Pending Unlinked Current
Made-Pending lib lib' p (le, d, s) valid (l, m, (a, b, c)) = (
  m,
  a,
  b,
  c,
  λ name f. not_found lib p name valid l (subst (λ m. find_name name m ≡ some p) d f),
)

abbrev pub AllPending : Library → List ℕ → Type 0
AllPending lib [] = Unit
AllPending lib (p ∷ ps) = Pending lib p × (mem p ps ≡ false) × AllPending lib ps

pub AllMade-AllPending :
    (lib lib' : Library) (ps : List ℕ)
    → Grows lib lib'
    → IsLoaded lib
    → AllMade lib lib' ps
    → AllPending lib' ps
AllMade-AllPending lib lib' [] g v m = tt
AllMade-AllPending lib lib' (p ∷ ps) g v (m, n, o) =
    (Made-Pending lib lib' p g v m, n, AllMade-AllPending lib lib' ps g v o)

-- A reload leaves the other objects that are not in the map.
enter-Pending :
    (lib : Library) (p q : ℕ) → (p == q) ≡ false → Pending lib q → Pending (enter_chart p lib) q
unfolding Pending
enter-Pending lib p q ne (b, e, n, v, out) = (
  b,
  e,
  n,
  v,
  λ name f. ground (
    arith,
    find_name-put_name (lib.chart_datas p).chart_name name p lib.chart_data_dict,
    out name,
  ),
)

update-Pending :
    (lib : Library) (old p q : ℕ)
    → (q == old) ≡ false
    → (q == p) ≡ false
    → Pending lib q
    → Pending (update_version old p lib) q
unfolding Pending update_version
update-Pending lib old p q a c (b, e, n, v, out) =
    (b, ground arith, ground arith, ground arith, out)

reload-Pending :
    (lib : Library) (p q : ℕ)
    → IsLoaded lib
    → (p == q) ≡ false
    → Pending lib q
    → Pending (reload (some p) lib).0 q
unfolding reload
reload-Pending lib p q valid ne pend =
    elim (Option-cases (find_name (lib.chart_datas p).chart_name lib.chart_data_dict)) [
      | inl e ↦ rw (e, reload) (enter-Pending lib p q ne pend)
      | inr (old, e) ↦
          rw (e, reload)
            (enter-Pending (update_version old p lib) p q ne (
              update-Pending lib old p q
                (ground (
                  arith,
                  eqb→eq q old,
                  entry_apart lib q old (lib.chart_datas p).chart_name pend e,
                ))
                (ground (arith, eqb→eq q p)) pend))
    ]

pub reload-AllPending :
    (lib : Library) (p : ℕ) (ps : List ℕ)
    → IsLoaded lib
    → mem p ps ≡ false
    → AllPending lib ps
    → AllPending (reload (some p) lib).0 ps
reload-AllPending lib p [] valid ne pend = tt
reload-AllPending lib p (q ∷ qs) valid ne (b, c, d) = (
  reload-Pending lib p q valid (ground (arith, eqb→eq p q)) b,
  c,
  reload-AllPending lib p qs valid (ground arith) d,
)

pub import_chart_data-IsLoaded :
    (ps : List ℕ) (lib : Library)
    → IsLoaded lib
    → AllPending lib ps
    → IsLoaded (import_chart_data ps lib).0
unfolding import_chart_data
import_chart_data-IsLoaded [] lib valid pend = valid
import_chart_data-IsLoaded (p ∷ ps) lib valid (a, b, c) =
    import_chart_data-IsLoaded ps (reload (some p) lib).0 (reload-IsLoaded lib p valid a)
      (reload-AllPending lib p ps valid b c)

import_chart_data-count : (ps : List ℕ) (lib : Library) → (import_chart_data ps lib).1 ≡ length ps
unfolding import_chart_data reload
import_chart_data-count [] lib = refl
import_chart_data-count (p ∷ ps) lib =
    ground (arith, import_chart_data-count ps (reload (some p) lib).0)
