-- ===== src/Events.antt =====
-- EventManager (include/core/event_manager.h, src/core/event_manager.cpp) and
-- Manager::ImportEvent. The documents are what the code reads of them; their parsers are
-- parameters.
use text.Mathlib.Text.{◌==◌ as str_eq}
use asyncflow.Base.{
  ◌+◌, ◌-◌, ◌∷◌, ◌++◌, [], if◌then◌else◌, some, ℕ, none, String, Option, List, pos, ℤ, to_int, leb,
  negsuc, ltb, to_size_t, length, get_elem?,
}
pub mod Declared
pub mod Lookup

pub record EventInfo : Type 0 where
  pub id : ℤ
  pub arg_count : ℤ
  pub name : String

-- The list, and the static START_EVENT and TICK_EVENT of AsyncEventBase.
pub record EventManager : Type 0 where
  pub event_info_list : List EventInfo
  pub start_event : ℤ
  pub tick_event : ℤ

abbrev pub no_event : EventInfo
no_event = record { id = pos 0; arg_count = pos 0; name = "None" }

unfoldable pub new_event_manager : EventManager
new_event_manager = record {
  event_info_list =
      no_event
      ∷ record { id = pos 1; arg_count = pos 0; name = "Start" }
      ∷ record { id = pos 2; arg_count = pos 0; name = "Tick" }
      ∷ [];
  start_event = pos 1;
  tick_event = pos 2;
}

-- The index is compared as a `size_t`; `none` is an index outside the vector.
unfoldable pub get_event_name : ℤ → EventManager → Option String
get_event_name event_id m =
    let id = if leb (length m.event_info_list) (to_size_t event_id) then pos 0 else event_id in
    elim (get_elem? m.event_info_list (to_size_t id)) [ none ↦ none | some e ↦ some e.name ]

unfoldable pub get_event_args_count : ℤ → EventManager → Option ℤ
get_event_args_count event_id m =
    if ltb (to_size_t event_id) (length m.event_info_list)
    then elim (get_elem? m.event_info_list (to_size_t event_id)) [
      | none ↦ none
      | some e ↦ some e.arg_count
    ]
    else some (negsuc 0)

unfoldable pub get_event_count : EventManager → ℤ
get_event_count m = to_int (length m.event_info_list)

-- The members of an event in JSON, or that they are missing.
pub record JsonEvent : Type 0 where
  pub id : Option ℤ
  pub name : Option String
  pub arg_count : Option ℤ

pub data JsonEvents : Type 0 where
  event_array : List JsonEvent → JsonEvents
  event_other : JsonEvents

abbrev pub or_zero : Option ℤ → ℤ
or_zero none = pos 0
or_zero (some n) = n

abbrev pub add_event : ℤ → ℤ → String → EventManager → EventManager
add_event id argc name m = record m {
  event_info_list = m.event_info_list ++ record { id = id; arg_count = argc; name = name } ∷ [];
}

-- The ids of the two events that the engine sends itself.
unfoldable pub set_own_events : ℤ → String → EventManager → EventManager
set_own_events id name m =
    if str_eq name "Start"
    then record m { start_event = id }
    else if str_eq name "Tick"
    then record m { tick_event = id }
    else m

-- The loop of EventManager::InitFromJson; `none` is a member that is read and missing.
unfoldable pub load_json_events : List JsonEvent → EventManager → ℕ → Option (EventManager × ℕ)
load_json_events [] m count = some (m, count)
load_json_events (e ∷ es) m count = elim e.id [
  | none ↦ none
  | some id ↦ elim e.name [
    | none ↦ none
    | some name ↦
        load_json_events es (add_event id (or_zero e.arg_count) name (set_own_events id name m))
          (count + 1)
  ]
]

abbrev pub clear_events : EventManager → EventManager
clear_events m = record m { event_info_list = no_event ∷ [] }

unfoldable pub init_from_json : Option JsonEvents → EventManager → Option (EventManager × ℤ)
init_from_json none m = some (m, pos 0)
init_from_json (some event_other) m = none
init_from_json (some (event_array es)) m = elim (load_json_events es (clear_events m) 0) [
  | none ↦ none
  | some (m', count) ↦ some (m', to_int count)
]

-- An event in YAML, with the number of its parameters if there are any.
pub record YamlEvent : Type 0 where
  pub id : Option String
  pub name : Option String
  pub parameters : Option ℕ

pub data YamlEvents : Type 0 where
  event_stream : List (List YamlEvent) → YamlEvents
  event_tree : YamlEvents

abbrev pub params_of : Option ℕ → ℕ
params_of none = 0
params_of (some n) = n

module _ (stoi : String → Option ℤ) where
  -- The loops of EventManager::InitFromYaml. `none` is undefined, or an exception of `std::stoi`.
  unfoldable pub load_yaml_events : List YamlEvent → EventManager → Option EventManager
  load_yaml_events [] m = some m
  load_yaml_events (e ∷ es) m = elim e.id [
    | none ↦ none
    | some val ↦ elim (stoi val) [
      | none ↦ none
      | some id ↦ elim e.name [
        | none ↦ none
        | some name ↦ load_yaml_events es (add_event id (to_int (params_of e.parameters)) name m)
      ]
    ]
  ]

  unfoldable pub load_yaml_docs : List (List YamlEvent) → EventManager → Option EventManager
  load_yaml_docs [] m = some m
  load_yaml_docs (doc ∷ docs) m = elim (load_yaml_events doc (clear_events m)) [
    | none ↦ none
    | some m' ↦ load_yaml_docs docs m'
  ]

  unfoldable pub init_from_yaml : YamlEvents → EventManager → Option (EventManager × ℤ)
  init_from_yaml event_tree m = some (m, negsuc 0)
  init_from_yaml (event_stream docs) m = elim (load_yaml_docs docs m) [
    | none ↦ none
    | some m' ↦ some (m', to_int (length m'.event_info_list - 1))
  ]

  module _ (read_file : String → Option String) (parse : String → Option JsonEvents)
      (parse_yaml : String → YamlEvents) where
    -- JsonUtil::ParseJson
    unfoldable pub parse_events : String → Option JsonEvents
    parse_events str = if str_eq str "" then none else parse str

    -- Manager::ImportEvent after the file is read. It is the name that it parses to tell the
    -- formats apart.
    unfoldable pub import_events : String → String → EventManager → Option (EventManager × ℤ)
    import_events file_name str m = elim (parse file_name) [
      | none ↦ init_from_yaml (parse_yaml str) m
      | some _ ↦ init_from_json (parse_events str) m
    ]

    -- Manager::ImportEvent
    unfoldable pub import_event : String → EventManager → Option (EventManager × ℤ)
    import_event file_name m = elim (read_file file_name) [
      | none ↦ import_events file_name file_name m
      | some str ↦ if str_eq str "" then some (m, pos 0) else import_events file_name str m
    ]
