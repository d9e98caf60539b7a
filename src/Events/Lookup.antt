-- ===== src/Events/Lookup.antt =====
-- The events that EventManager finds by a number.
use asyncflow.ChartData.Json.{or_empty}
use mathlib.Core.List.{append-nil, append_assoc}
use asyncflow.Events.Declared.{
  IsDeclared, set_own_events-list, import_all, import_all-IsDeclared, new-IsDeclared,
}
use asyncflow.Events.{
  EventInfo, get_event_name, EventManager, JsonEvent, load_json_events, or_zero, add_event,
  set_own_events, get_event_args_count, event_array, clear_events, init_from_json, JsonEvents,
  YamlEvents, new_event_manager,
}
use asyncflow.Base.{
  ◌≡◌, inr, arith, none, List, refl, String, some, ℕ, inl, get_elem?, ℤ, to_size_t, Bool-cases, leb,
  length, get_elem?-none, get_elem?-some, ◌+◌, ◌<◌, ◌∷◌, ◌++◌, [], suc, zero, map, pos, ◌^◌, sym,
  ◌∙◌, to_size_t-pos, to_int_small, get_elem?-below, Option,
}

-- The name of the event at an index, of the first event where there is none.
abbrev pub name_at : List EventInfo → ℕ → String
name_at es i = elim (get_elem? es i) [ none ↦ "None" | some e ↦ e.name ]

get_event_name-at :
    (id : ℤ) (m : EventManager)
    → IsDeclared m
    → get_event_name id m ≡ some (name_at m.event_info_list (to_size_t id))
unfolding IsDeclared get_event_name
get_event_name-at id m (es, d) = elim (Bool-cases (leb (length m.event_info_list) (to_size_t id))) [
  | inl out ↦
      ground (arith, out, get_elem?-none m.event_info_list (to_size_t id) (ground (arith, out)), d)
  | inr in' ↦
      let (x, e) = get_elem?-some m.event_info_list (to_size_t id) (ground (arith, in')) in
      ground (arith, in', e)
]

-- What an event of a document declares.
abbrev pub info_of : JsonEvent → EventInfo
info_of e = record { id = or_zero e.id; arg_count = or_zero e.arg_count; name = or_empty e.name "" }

-- The events have ids and names, and the ids count from `n` on.
abbrev pub Numbered : ℕ → List JsonEvent → Type 0
Numbered n [] = Unit
Numbered n (e ∷ es) =
    (e.id ≡ some (pos n)) × ((name : String) × (e.name ≡ some name)) × Numbered (n + 1) es

load_json_events-list :
    (n : ℕ) (es : List JsonEvent) (m : EventManager) (count : ℕ)
    → Numbered n es
    → (r : EventManager) × (load_json_events es m count ≡ some (r, count + length es))
      × (r.event_info_list ≡ m.event_info_list ++ map info_of es)
unfolding load_json_events
load_json_events-list n [] m count t = (m, ground arith, sym (append-nil m.event_info_list))
load_json_events-list n (e ∷ es) m count (i, (name, j), t) =
    let (r, f, l) =
      load_json_events-list (n + 1) es
        (add_event (pos n) (or_zero e.arg_count) name (set_own_events (pos n) name m)) (count + 1)
        t in
    (
      r,
      ground (arith, i, j, f),
      ground (
        arith,
        l,
        i,
        j,
        set_own_events-list (pos n) name m,
        append_assoc m.event_info_list (info_of e ∷ []) (map info_of es),
      ),
    )

get_elem?-map :
    (es : List JsonEvent) (k : ℕ) (e : JsonEvent)
    → get_elem? es k ≡ some e
    → get_elem? (map info_of es) k ≡ some (info_of e)
get_elem?-map [] k e h = absurd (ground arith)
get_elem?-map (x ∷ xs) zero e h = ground arith
get_elem?-map (x ∷ xs) (suc k) e h = get_elem?-map xs k e h

Numbered-id :
    (n : ℕ) (es : List JsonEvent) (k : ℕ) (e : JsonEvent)
    → Numbered n es
    → get_elem? es k ≡ some e
    → (e.id ≡ some (pos (n + k))) × (e.name ≡ some (info_of e).name) × (k < length es)
Numbered-id n [] k e t h = absurd (ground arith)
Numbered-id n (x ∷ xs) zero e (i, (name, j), t) h = ground arith
Numbered-id n (x ∷ xs) (suc k) e (i, j, t) h =
    let (a, b, c) = Numbered-id (n + 1) xs k e t h in (ground (arith, a), b, omega (arith, c))

-- An event at an index is found by it.
found_at :
    (m : EventManager) (i : ℕ) (x : EventInfo)
    → i < 2 ^ 64
    → get_elem? m.event_info_list i ≡ some x
    → (get_event_args_count (pos i) m ≡ some x.arg_count) × (get_event_name (pos i) m ≡ some x.name)
unfolding get_event_args_count get_event_name
found_at m i x l e = rw (to_size_t-pos i l) (
  ground (arith, e, get_elem?-below m.event_info_list i x e),
  ground (arith, e, get_elem?-below m.event_info_list i x e, to_size_t-pos i l),
)

-- Where a JSON document declares events with names, the ids of which count from 1 on in order, and
-- fewer than 2 to the 31, InitFromJson succeeds with their number, and each of the events is found
-- by its id, with its name and its number of arguments.
pub init_from_json-lookup :
    (es : List JsonEvent) (m : EventManager) (k : ℕ) (e : JsonEvent)
    → Numbered 1 es
    → length es < 2 ^ 31
    → get_elem? es k ≡ some e
    → (r : EventManager) × (init_from_json (some (event_array es)) m ≡ some (r, pos (length es)))
      × (e.id ≡ some (pos (suc k)))
      × (get_event_args_count (pos (suc k)) r ≡ some (or_zero e.arg_count))
      × (get_event_name (pos (suc k)) r ≡ e.name)
unfolding init_from_json get_event_args_count get_event_name
init_from_json-lookup es m k e t l h =
    let (r, f, list) = load_json_events-list 1 es (clear_events m) 0 t in
    let (a, b, c) = Numbered-id 1 es k e t h in
    let counted : load_json_events es (clear_events m) 0 ≡ some (r, length es) =
      ground (arith, f) in
    let at : get_elem? r.event_info_list (suc k) ≡ some (info_of e) =
      rw list (get_elem?-map es k e h) in
    let found = found_at r (suc k) (info_of e) (omega (arith, l, c)) at in
    (
      r,
      rw (counted, init_from_json, to_int_small (length es) l) refl,
      ground (arith, a),
      found.0,
      found.1 ∙ sym b,
    )

module _ (stoi : String → Option ℤ) (read_file : String → Option String)
    (parse : String → Option JsonEvents) (parse_yaml : String → YamlEvents) where
  -- After any sequence of imports of events that goes through, from the events that a manager
  -- starts with, each `int` has a name: that of the event at it, as an index of 64 bits, or "None"
  -- if there is no event at it.
  pub import_all-names :
      (fs : List String) (m : EventManager) (id : ℤ)
      → import_all stoi read_file parse parse_yaml fs new_event_manager ≡ some m
      → get_event_name id m ≡ some (name_at m.event_info_list (to_size_t id))
  import_all-names fs m id e = get_event_name-at id m (
      import_all-IsDeclared stoi read_file parse parse_yaml fs new_event_manager m new-IsDeclared e)
