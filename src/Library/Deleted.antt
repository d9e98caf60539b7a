-- ===== src/Library/Deleted.antt =====
-- The loads of a process, and the objects that its end deletes.
use asyncflow.Library.Loaded.{patch_library-IsLoaded, import_yaml-IsLoaded, import_json-IsLoaded}
use mathlib.Core.Option.{some-injective}
use mathlib.Core.Path.{subst}
use asyncflow.LinkedList.Chain.{Distinct}
use asyncflow.Library.Import.{
  JsonDocument, YamlDocument, import_file, import_text, patch_library, parse_json,
}
use asyncflow.ChartData.{NodeFunc}
use asyncflow.Library.Versions.{IsLoaded, History, Current}
use asyncflow.Library.{delete_chart_data, Library, empty_library, get_chart}
use asyncflow.Base.{
  ◌<◌, ◌≡◌, ◌∷◌, ◌++◌, ◌==◌, [], ℕ, suc, Option, String, List, refl, some, inl, mem, arith, Bool,
  inr, true, none, zero, length, Bool-cases, eqb→eq, Option-cases, false, find_name,
}

-- A call of Manager::ImportFile or PatchFromYaml.
pub data LoadCall : Type 0 where
  import_call : String → LoadCall
  patch_call : Bool → String → LoadCall

module _ (create_node_func : String → String → NodeFunc) (read_file : String → Option String)
    (parse : String → Option JsonDocument) (parse_yaml : String → YamlDocument) where
  unfoldable pub load : LoadCall → Library → Option (Library × ℕ)
  load (import_call file_name) lib =
      import_file create_node_func read_file parse parse_yaml file_name lib
  load (patch_call in_place str) lib = patch_library create_node_func in_place (parse_yaml str) lib

  unfoldable pub load_all : List LoadCall → Library → Option Library
  load_all [] lib = some lib
  load_all (c ∷ cs) lib = elim (load c lib) [ none ↦ none | some (l, n) ↦ load_all cs l ]

  import_text-IsLoaded :
      (str : String) (lib : Library) (r : Library × ℕ)
      → IsLoaded lib
      → import_text create_node_func read_file parse parse_yaml str lib ≡ some r
      → IsLoaded r.0
  unfolding import_text
  import_text-IsLoaded str lib r valid e = elim (Option-cases (parse str)) [
    | inl f ↦
        import_yaml-IsLoaded create_node_func (parse_yaml str) lib r valid
          (rw (f, import_text) at e)
    | inr (d, f) ↦
        import_json-IsLoaded create_node_func
          (parse_json create_node_func read_file parse parse_yaml str) lib r valid
          (rw (f, import_text) at e)
  ]

  load-IsLoaded :
      (c : LoadCall) (lib : Library) (r : Library × ℕ)
      → IsLoaded lib
      → load c lib ≡ some r
      → IsLoaded r.0
  unfolding load import_file
  load-IsLoaded (import_call file_name) lib r valid e = elim (Option-cases (read_file file_name)) [
    | inl f ↦ import_text-IsLoaded file_name lib r valid (rw (f, load, import_file) at e)
    | inr (str, f) ↦ import_text-IsLoaded str lib r valid (rw (f, load, import_file) at e)
  ]
  load-IsLoaded (patch_call in_place str) lib r valid e =
      patch_library-IsLoaded create_node_func in_place (parse_yaml str) lib r valid e

  -- After any sequence of imports and patches, in place or not, that goes through, from a library
  -- in which each chart that the map names has that name, no later version, and a chain of earlier
  -- versions of the same name, each pointing to the next one, with numbers that go down by one to 0
  -- (the library without charts is one), the library is such a library.
  pub load_all-IsLoaded :
      (cs : List LoadCall) (lib lib' : Library)
      → IsLoaded lib
      → load_all cs lib ≡ some lib'
      → IsLoaded lib'
  unfolding load_all
  load_all-IsLoaded [] lib lib' valid e = subst IsLoaded (some-injective _ _ e) valid
  load_all-IsLoaded (c ∷ cs) lib lib' valid e = elim (Option-cases (load c lib)) [
    | inl f ↦ absurd (ground (arith, e, f))
    | inr (r, f) ↦
        load_all-IsLoaded cs r.0 lib' (load-IsLoaded c lib r valid f) (rw (f, load_all) at e)
  ]

pub empty-IsLoaded : IsLoaded empty_library
unfolding IsLoaded find_name
empty-IsLoaded name p e = absurd (ground arith)

-- Earlier versions have smaller numbers.
version_below :
    (lib : Library) (p x : ℕ) (qs : List ℕ)
    → History lib p qs
    → mem x qs ≡ true
    → (lib.chart_datas x).version < (lib.chart_datas p).version
version_below lib p x [] h i = absurd (ground arith)
version_below lib p x (q ∷ qs) (b, e, v, n, c, h) i = elim (Bool-cases (q == x)) [
  | inl e2 ↦ ground (arith, eqb→eq q x)
  | inr e2 ↦ omega (arith, v, version_below lib q x qs h (ground arith))
]

History-Distinct : (lib : Library) (p : ℕ) (qs : List ℕ) → History lib p qs → Distinct (p ∷ qs)
History-Distinct lib p [] h = (refl, tt)
History-Distinct lib p (q ∷ qs) h = (
  elim (Bool-cases (mem p (q ∷ qs))) [
    | inl i ↦ absurd (omega (arith, version_below lib p p (q ∷ qs) h i))
    | inr i ↦ i
  ],
  History-Distinct lib q qs h.5,
)

History-version :
    (lib : Library) (p : ℕ) (qs : List ℕ)
    → History lib p qs
    → (lib.chart_datas p).version ≡ length qs
History-version lib p [] h = h.2
History-version lib p (q ∷ qs) (b, e, v, n, c, h) = omega (arith, v, History-version lib q qs h)

delete-History :
    (k : ℕ) (lib : Library) (p : ℕ) (qs : List ℕ)
    → History lib p qs
    → length qs < k
    → delete_chart_data k p lib ≡ some (record lib { deleted = (p ∷ qs) ++ lib.deleted })
unfolding delete_chart_data
delete-History zero lib p qs h l = absurd (ground arith)
delete-History (suc k) lib p [] h l = ground arith
delete-History (suc k) lib p (q ∷ qs) (b, e, v, n, c, h) l =
    let ne : (q == p) ≡ false = ground (arith, eqb→eq q p) in
    rw (e, delete_chart_data, ne, delete-History k lib q qs h (omega (arith, l))) refl

-- In a library whose map names loaded charts, the deletion of a chart ends within one step more
-- than the number of its version, and deletes each of its versions exactly once.
pub delete_chart_data-versions :
    (k : ℕ) (lib : Library) (name : String) (p : ℕ)
    → IsLoaded lib
    → get_chart name lib ≡ some p
    → (lib.chart_datas p).version < k
    → (qs : List ℕ) × History lib p qs
      × Distinct (p ∷ qs)
      × (delete_chart_data k p lib ≡ some (record lib { deleted = (p ∷ qs) ++ lib.deleted }))
unfolding IsLoaded get_chart Current
delete_chart_data-versions k lib name p valid e l =
    let (c, x, (qs, h)) = valid name p e in
    (
      qs,
      h,
      History-Distinct lib p qs h,
      delete-History k lib p qs h (omega (arith, l, History-version lib p qs h)),
    )
