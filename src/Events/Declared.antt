-- ===== src/Events/Declared.antt =====
-- The events that are declared after Manager::ImportEvent, and their lookups.
use text.Mathlib.Text.{◌==◌ as str_eq}
use mathlib.Core.Option.{some-injective}
use mathlib.Core.Path.{subst}
use asyncflow.Events.{
  load_json_events, EventManager, new_event_manager, set_own_events, load_yaml_events, EventInfo,
  JsonEvent, no_event, YamlEvent, init_from_json, add_event, clear_events, load_yaml_docs,
  init_from_yaml, JsonEvents, event_array, or_zero, YamlEvents, import_event, params_of,
  event_stream, import_events, event_other, parse_events, event_tree,
}
use asyncflow.Base.{
  ◌≡◌, ◌∷◌, [], Option, ℕ, List, refl, some, String, ℤ, ◌+◌, ◌++◌, none, inr, inl, arith,
  Option-cases, to_int, Bool-cases,
}

-- The first event is the one without a name of its own.
unfoldable pub IsDeclared : EventManager → Type 0
IsDeclared m = (es : List EventInfo) × (m.event_info_list ≡ no_event ∷ es)

pub new-IsDeclared : IsDeclared new_event_manager
unfolding IsDeclared new_event_manager
new-IsDeclared = (_, refl)

pub set_own_events-list :
    (id : ℤ) (name : String) (m : EventManager)
    → (set_own_events id name m).event_info_list ≡ m.event_info_list
unfolding set_own_events
set_own_events-list id name m = ground arith

add_event-IsDeclared :
    (id argc : ℤ) (name : String) (m m' : EventManager)
    → m'.event_info_list ≡ m.event_info_list
    → IsDeclared m
    → IsDeclared (add_event id argc name m')
unfolding IsDeclared
add_event-IsDeclared id argc name m m' same (es, d) =
    (es ++ record { id = id; arg_count = argc; name = name } ∷ [], ground (arith, same, d))

load_json_events-IsDeclared :
    (es : List JsonEvent) (m : EventManager) (count : ℕ) (r : EventManager × ℕ)
    → IsDeclared m
    → load_json_events es m count ≡ some r
    → IsDeclared r.0
unfolding load_json_events
load_json_events-IsDeclared [] m count r d e = subst (λ z. IsDeclared z.0) (some-injective _ _ e) d
load_json_events-IsDeclared (j ∷ js) m count r d e = elim (Option-cases j.id) [
  | inl f ↦ absurd (ground (arith, e, f))
  | inr (id, f) ↦ elim (Option-cases j.name) [
    | inl g ↦ absurd (ground (arith, e, f, g))
    | inr (name, g) ↦
        load_json_events-IsDeclared js
          (add_event id (or_zero j.arg_count) name (set_own_events id name m)) (count + 1) r
          (add_event-IsDeclared id (or_zero j.arg_count) name m (set_own_events id name m)
            (set_own_events-list id name m) d)
          (rw (f, load_json_events, g) at e)
  ]
]

cleared-IsDeclared : (m : EventManager) → IsDeclared (clear_events m)
unfolding IsDeclared
cleared-IsDeclared m = ([], refl)

init_from_json-IsDeclared :
    (doc : Option JsonEvents) (m : EventManager) (r : EventManager × ℤ)
    → IsDeclared m
    → init_from_json doc m ≡ some r
    → IsDeclared r.0
unfolding init_from_json
init_from_json-IsDeclared none m r d e = subst (λ z. IsDeclared z.0) (some-injective _ _ e) d
init_from_json-IsDeclared (some event_other) m r d e = absurd (ground arith)
init_from_json-IsDeclared (some (event_array es)) m r d e =
    elim (Option-cases (load_json_events es (clear_events m) 0)) [
      | inl f ↦ absurd (ground (arith, e, f))
      | inr (q, f) ↦
          subst (λ z. IsDeclared z.0) (some-injective _ _ (rw (f, init_from_json) at e))
            (load_json_events-IsDeclared es (clear_events m) 0 q (cleared-IsDeclared m) f)
    ]

module _ (stoi : String → Option ℤ) where
  load_yaml_events-IsDeclared :
      (es : List YamlEvent) (m r : EventManager)
      → IsDeclared m
      → load_yaml_events stoi es m ≡ some r
      → IsDeclared r
  unfolding load_yaml_events
  load_yaml_events-IsDeclared [] m r d e = subst IsDeclared (some-injective _ _ e) d
  load_yaml_events-IsDeclared (y ∷ ys) m r d e = elim (Option-cases y.id) [
    | inl f ↦ absurd (ground (arith, e, f))
    | inr (val, f) ↦ elim (Option-cases (stoi val)) [
      | inl h ↦ absurd (ground (arith, e, f, h))
      | inr (id, h) ↦ elim (Option-cases y.name) [
        | inl g ↦ absurd (ground (arith, e, f, g, h))
        | inr (name, g) ↦
            load_yaml_events-IsDeclared ys (add_event id (to_int (params_of y.parameters)) name m) r
              (add_event-IsDeclared id (to_int (params_of y.parameters)) name m m refl d)
              (rw (f, load_yaml_events, h, g) at e)
      ]
    ]
  ]

  load_yaml_docs-IsDeclared :
      (docs : List (List YamlEvent)) (m r : EventManager)
      → IsDeclared m
      → load_yaml_docs stoi docs m ≡ some r
      → IsDeclared r
  unfolding load_yaml_docs
  load_yaml_docs-IsDeclared [] m r d e = subst IsDeclared (some-injective _ _ e) d
  load_yaml_docs-IsDeclared (doc ∷ docs) m r d e =
      elim (Option-cases (load_yaml_events stoi doc (clear_events m))) [
        | inl f ↦ absurd (ground (arith, e, f))
        | inr (m', f) ↦
            load_yaml_docs-IsDeclared docs m' r
              (load_yaml_events-IsDeclared doc (clear_events m) m' (cleared-IsDeclared m) f)
              (rw (f, load_yaml_docs) at e)
      ]

  init_from_yaml-IsDeclared :
      (doc : YamlEvents) (m : EventManager) (r : EventManager × ℤ)
      → IsDeclared m
      → init_from_yaml stoi doc m ≡ some r
      → IsDeclared r.0
  unfolding init_from_yaml
  init_from_yaml-IsDeclared event_tree m r d e =
      subst (λ z. IsDeclared z.0) (some-injective _ _ e) d
  init_from_yaml-IsDeclared (event_stream docs) m r d e =
      elim (Option-cases (load_yaml_docs stoi docs m)) [
        | inl f ↦ absurd (ground (arith, e, f))
        | inr (q, f) ↦
            subst (λ z. IsDeclared z.0) (some-injective _ _ (rw (f, init_from_yaml) at e))
              (load_yaml_docs-IsDeclared docs m q d f)
      ]

  module _ (read_file : String → Option String) (parse : String → Option JsonEvents)
      (parse_yaml : String → YamlEvents) where
    import_events-IsDeclared :
        (file_name str : String) (m : EventManager) (r : EventManager × ℤ)
        → IsDeclared m
        → import_events stoi read_file parse parse_yaml file_name str m ≡ some r
        → IsDeclared r.0
    unfolding import_events
    import_events-IsDeclared file_name str m r d e = elim (Option-cases (parse file_name)) [
      | inl f ↦ init_from_yaml-IsDeclared (parse_yaml str) m r d (rw (f, import_events) at e)
      | inr (v, f) ↦
          init_from_json-IsDeclared (parse_events stoi read_file parse parse_yaml str) m r d
            (rw (f, import_events) at e)
    ]

    import_event-IsDeclared :
        (file_name : String) (m : EventManager) (r : EventManager × ℤ)
        → IsDeclared m
        → import_event stoi read_file parse parse_yaml file_name m ≡ some r
        → IsDeclared r.0
    unfolding import_event
    import_event-IsDeclared file_name m r d e = elim (Option-cases (read_file file_name)) [
      | inl f ↦ import_events-IsDeclared file_name file_name m r d (rw (f, import_event) at e)
      | inr (str, f) ↦ elim (Bool-cases (str_eq str "")) [
        | inl g ↦ subst (λ z. IsDeclared z.0) (some-injective _ _ (rw (f, import_event, g) at e)) d
        | inr g ↦ import_events-IsDeclared file_name str m r d (rw (f, import_event, g) at e)
      ]
    ]

    -- Imports one after the other.
    unfoldable pub import_all : List String → EventManager → Option EventManager
    import_all [] m = some m
    import_all (f ∷ fs) m = elim (import_event stoi read_file parse parse_yaml f m) [
      | none ↦ none
      | some (m', n) ↦ import_all fs m'
    ]

    pub import_all-IsDeclared :
        (fs : List String) (m r : EventManager)
        → IsDeclared m
        → import_all fs m ≡ some r
        → IsDeclared r
    unfolding import_all
    import_all-IsDeclared [] m r d e = subst IsDeclared (some-injective _ _ e) d
    import_all-IsDeclared (f ∷ fs) m r d e =
        elim (Option-cases (import_event stoi read_file parse parse_yaml f m)) [
          | inl g ↦ absurd (ground (arith, e, g))
          | inr (q, g) ↦
              import_all-IsDeclared fs q.0 r (import_event-IsDeclared f m q d g)
                (rw (g, import_all) at e)
        ]
