-- ===== src/Tests/Documents.antt =====
-- The theorems on the loading of charts and events and on random uuids, at small documents.
use asyncflow.ChartData.YamlChart.{
  from_yaml, load_yaml, init_nodes, connect_all, create_all, enter_all, init_variables,
}
use asyncflow.Events.Lookup.{import_all-names, init_from_json-lookup}
use asyncflow.LinkedList.Chain.{Distinct}
use asyncflow.Library.Deleted.{
  LoadCall, load_all, load, import_call, load_all-IsLoaded, patch_call, empty-IsLoaded,
  delete_chart_data-versions,
}
use asyncflow.Events.Declared.{import_all}
use asyncflow.Uuid.Random.{uuid4_str, uuid4_str-digits}
use asyncflow.Library.{
  Library, delete_chart_data, empty_library, create_chart_data, reload, update_version, get_chart,
}
use asyncflow.Library.Versions.{IsLoaded, History}
use asyncflow.Library.Import.{
  YamlDocument, yaml_stream, import_file, import_text, import_yaml, parse_charts_yaml,
  parse_yaml_charts, create_from_yaml, keep_chart, import_chart_data, patch_library, patch_chart,
  patch_new,
}
use asyncflow.ChartData.{user}
use asyncflow.Events.{
  YamlEvents, JsonEvent, EventManager, get_event_name, new_event_manager, import_event,
  event_stream, init_from_json, no_event, event_array, import_events, get_event_args_count,
  init_from_yaml, load_yaml_docs, load_yaml_events,
}
use asyncflow.Base.{
  ◌-◌, ◌^◌, ◌<◌, ◌≡◌, ◌∷◌, ◌++◌, [], arith, ℕ, List, some, String, false, none, refl, pos, negsuc,
  find_name, put_name,
}

-- A document without nodes, which is read whatever the text.
abbrev documents : String → YamlDocument
documents str =
    yaml_stream
      (record { path = some "main"; variables = none; nodes = none; connectors = none } ∷ [])

abbrev load_calls : List LoadCall
load_calls = import_call "charts" ∷ patch_call false "charts" ∷ []

abbrev versions : Library
versions =
    elim (load_all (λ code name. user 5) (λ name. none) (λ str. none) documents load_calls
      empty_library) [ none ↦ empty_library | some lib ↦ lib ]

loaded_versions :
    load_all (λ code name. user 5) (λ name. none) (λ str. none) documents load_calls empty_library
    ≡ some versions
unfolding load_all load import_file import_text import_yaml parse_charts_yaml parse_yaml_charts
    create_from_yaml create_chart_data keep_chart from_yaml load_yaml init_nodes connect_all
    create_all enter_all init_variables import_chart_data reload update_version find_name put_name
    patch_library patch_chart patch_new get_chart
loaded_versions = refl

load_all-IsLoaded_example : IsLoaded versions
load_all-IsLoaded_example =
    load_all-IsLoaded (λ code name. user 5) (λ name. none) (λ str. none) documents load_calls
      empty_library versions empty-IsLoaded loaded_versions

versions-main : (get_chart "main" versions ≡ some 1) × ((versions.chart_datas 1).version ≡ 1)
unfolding load_all load import_file import_text import_yaml parse_charts_yaml parse_yaml_charts
    create_from_yaml create_chart_data keep_chart from_yaml load_yaml init_nodes connect_all
    create_all enter_all init_variables import_chart_data reload update_version find_name put_name
    patch_library patch_chart patch_new get_chart
versions-main = (refl, refl)

delete_chart_data-versions_example :
    (qs : List ℕ) × History versions 1 qs
    × Distinct (1 ∷ qs)
    × (delete_chart_data 2 1 versions
        ≡ some (record versions { deleted = (1 ∷ qs) ++ versions.deleted }))
delete_chart_data-versions_example =
    delete_chart_data-versions 2 versions "main" 1 load_all-IsLoaded_example versions-main.0
      (rw versions-main.1 (omega arith))

abbrev start_json : JsonEvent
start_json = record { id = some (pos 1); name = some "Start"; arg_count = none }

abbrev see_json : JsonEvent
see_json = record { id = some (pos 2); name = some "OnSee"; arg_count = some (pos 3) }

abbrev two_events : List JsonEvent
two_events = start_json ∷ see_json ∷ []

init_from_json-lookup_example :
    (r : EventManager) × (init_from_json (some (event_array two_events)) new_event_manager
      ≡ some (r, pos 2))
    × (some (pos 2) ≡ some (pos 2))
    × (get_event_args_count (pos 2) r ≡ some (pos 3))
    × (get_event_name (pos 2) r ≡ some "OnSee")
init_from_json-lookup_example =
    init_from_json-lookup two_events new_event_manager 1 see_json
      (refl, ("Start", refl), (refl, ("OnSee", refl), tt)) (omega arith) refl

abbrev event_stream_of : String → YamlEvents
event_stream_of str =
    event_stream ((record { id = some "1"; name = some "Start"; parameters = none } ∷ []) ∷ [])

abbrev declared : EventManager
declared = record new_event_manager {
  event_info_list = no_event ∷ record { id = pos 1; arg_count = pos 0; name = "Start" } ∷ [];
}

imported_events :
    import_all
      (λ str. some (pos 1))
      (λ name. none)
      (λ str. none)
      event_stream_of
      ("events" ∷ [])
      new_event_manager
    ≡ some declared
unfolding import_all import_event import_events init_from_yaml load_yaml_docs load_yaml_events
    new_event_manager
imported_events = refl

import_all-names_example : get_event_name (negsuc 0) declared ≡ some "None"
import_all-names_example =
    import_all-names (λ str. some (pos 1)) (λ name. none) (λ str. none) event_stream_of
      ("events" ∷ []) declared (negsuc 0) imported_events

uuid4_str-digits_example :
    ((i : ℕ) → (n : ℕ) × (n < 16) × (uuid4_str (λ d. d) (λ k. 2 ^ 64 - 1) i ≡ n))
    × (uuid4_str (λ d. d) (λ k. 2 ^ 64 - 1) 12 ≡ 4)
    × (uuid4_str (λ d. d) (λ k. 2 ^ 64 - 1) 16 ≡ 15)
uuid4_str-digits_example = uuid4_str-digits (λ d. d) (λ k. 2 ^ 64 - 1)
