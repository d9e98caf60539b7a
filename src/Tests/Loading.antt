-- ===== src/Tests/Loading.antt =====
-- The theorems on loading charts and on uuids, at small documents.
use asyncflow.Base.{
  find_name, put_name, ◌+◌, ◌<◌, mem, ◌≤◌, ◌||◌, ℕ, ◌≡◌, refl, true, none, some, [], ◌∷◌, ◌==◌,
  if◌then◌else◌,
}
use asyncflow.ChartData.{
  add_subsequence, set_children, get_node_count, get_node_data, get_var_index, NodeData,
  new_node_data, ChartData, new_chart_data, user,
}
use asyncflow.ChartData.YamlPatch.{
  patch_from_yaml, finish_patch, patch_nodes, add_missing, find_index, insert_uids, insert_uid,
}
use asyncflow.ChartData.PatchConnectors.{IsConnected, patch_from_yaml-IsConnected}
use asyncflow.ChartData.Yaml.{
  YamlChart, init_from_yaml, init_text, init_code, init_call, choose_func,
}
use asyncflow.ChartData.YamlChart.{
  from_yaml, load_yaml, init_nodes, connect_all, connect, create_all, create_node, enter_all,
  enter_uid, init_variables,
}
use asyncflow.ChartData.YamlConnectors.{from_yaml-connectors}
use asyncflow.Uuid.{n_to_d, d_to_n}
use asyncflow.Uuid.Forms.{n_to_d-d_to_n}
use asyncflow.ChartData.Json.{JsonNode, JsonChart, from_json}
use asyncflow.ChartData.Connectors.{from_json-connectors}

-- A node that leads to itself and to a uid that no node has.
abbrev json_node : JsonNode
json_node = record {
  uid = some "a";
  text = none;
  func_name = some "go";
  type = some "function";
  param = none;
  sub_chart_var = none;
  success = some ("a" ∷ "b" ∷ []);
  fail = none;
}

abbrev json_chart : JsonChart
json_chart = record {
  path = some "main";
  var_count = none;
  variables = none;
  nodes = some (json_node ∷ []);
  start = some ("a" ∷ []);
  start_func = none;
}

from_json-connectors_example :
    (r : ChartData) × (from_json (λ code name. user 5) json_chart new_chart_data ≡ some (r, true))
    × (r.chart_name ≡ "main")
    × (get_node_count r ≡ 2)
    × ((i : ℕ) (n : NodeData)
        → get_node_data r i ≡ some n
        → (n.node_id ≡ i)
          × ((id : ℕ) → mem id n.on_success ≡ true → id < get_node_count r)
          × ((id : ℕ) → mem id n.on_fail ≡ true → id < get_node_count r))
from_json-connectors_example =
    from_json-connectors (λ code name. user 5) json_chart new_chart_data "main" (json_node ∷ [])
      ("a" ∷ []) refl refl refl (refl, tt) refl

-- The start node, which leads to a node of a function and back.
abbrev yaml_chart : YamlChart
yaml_chart = record {
  path = some "main";
  variables = none;
  nodes = some (
      record { uid = some "a"; text = none; no_loop_check = none; code = none }
      ∷ record {
        uid = some "b";
        text = some "go";
        no_loop_check = some "true";
        code = some (record {
          type = some "FUNC";
          return_var_name = none;
          func_name = some "go";
          content = none;
        });
      }
      ∷ []);
  connectors = some (
      record { start = "a"; end = "b"; type = 2 }
      ∷ record { start = "b"; end = "a"; type = 0 }
      ∷ []);
}

abbrev yaml_result : ChartData
yaml_result = record new_chart_data {
  chart_name = "main";
  node_list =
      record (new_node_data 0) { node_uid = "a"; on_fail = 1 ∷ []; on_success = 1 ∷ [] }
      ∷ record (new_node_data 1) {
        node_uid = "b";
        text = "go";
        is_no_loop_check = true;
        node_func = user 5;
        on_fail = 0 ∷ [];
      }
      ∷ [];
}

from_yaml-yaml_result :
    from_yaml (λ code name. user 5) yaml_chart new_chart_data ≡ some (yaml_result, true)
unfolding from_yaml load_yaml init_nodes connect_all connect create_all create_node enter_all
    enter_uid init_variables init_from_yaml init_text init_code init_call choose_func
    add_subsequence get_var_index find_name put_name
from_yaml-yaml_result = refl

from_yaml-connectors_example :
    (get_node_count yaml_result ≡ 2)
    × ((i : ℕ) (n : NodeData)
        → get_node_data yaml_result i ≡ some n
        → (n.node_id ≡ i)
          × ((id : ℕ) → mem id n.on_success ≡ true → id < get_node_count yaml_result)
          × ((id : ℕ) → mem id n.on_fail ≡ true → id < get_node_count yaml_result))
from_yaml-connectors_example =
    from_yaml-connectors (λ code name. user 5) yaml_chart new_chart_data "main" (yaml_result, true)
      refl refl from_yaml-yaml_result

-- Digits by their index, with a dash that is 0.
abbrev dashed_digits : ℕ → ℕ
dashed_digits i = if (i == 8) || (i == 13) || (i == 18) || (i == 23) then 0 else i + 1

n_to_d-d_to_n_example :
    ((i : ℕ) → i < 32 → d_to_n (n_to_d 0 dashed_digits (λ j. 7)) (λ j. 7) i ≡ dashed_digits i)
    × ((i : ℕ) → i < 36 → n_to_d 0 (d_to_n dashed_digits (λ j. 7)) (λ j. 7) i ≡ dashed_digits i)
n_to_d-d_to_n_example = n_to_d-d_to_n 0 dashed_digits (λ j. 7) (λ j. 7) refl refl refl refl

-- A patch that adds a node and leads to it.
abbrev yaml_patch : YamlChart
yaml_patch = record {
  path = some "main";
  variables = none;
  nodes = some (
      record {
        uid = some "c";
        text = none;
        no_loop_check = none;
        code = some (record {
          type = some "EVENT";
          return_var_name = none;
          func_name = some "on";
          content = none;
        });
      }
      ∷ []);
  connectors = some (record { start = "b"; end = "c"; type = 1 } ∷ []);
}

abbrev patched : ChartData
patched = record yaml_result {
  node_list =
      record (new_node_data 0) { node_uid = "a"; on_fail = 1 ∷ []; on_success = 1 ∷ [] }
      ∷ record (new_node_data 1) {
        node_uid = "b";
        text = "go";
        is_no_loop_check = true;
        node_func = user 5;
        on_fail = 0 ∷ [];
        on_success = 2 ∷ [];
      }
      ∷ record (new_node_data 2) { node_uid = "c"; node_func = user 5; is_event = true }
      ∷ [];
}

patch_from_yaml-patched :
    patch_from_yaml (λ code name. user 5) yaml_patch yaml_result ≡ some (patched, true)
unfolding patch_from_yaml finish_patch patch_nodes add_missing find_index insert_uids insert_uid
    set_children connect_all connect create_node init_from_yaml init_text init_code init_call
    choose_func add_subsequence get_var_index find_name put_name
patch_from_yaml-patched = refl

yaml_result-IsConnected : IsConnected yaml_result
unfolding IsConnected
yaml_result-IsConnected =
    (from_yaml-connectors (λ code name. user 5) yaml_chart new_chart_data "main" (yaml_result, true)
      refl refl from_yaml-yaml_result).1

patch_from_yaml-IsConnected_example :
    IsConnected patched × (get_node_count yaml_result ≤ get_node_count patched)
patch_from_yaml-IsConnected_example =
    patch_from_yaml-IsConnected (λ code name. user 5) yaml_patch yaml_result (patched, true)
      yaml_result-IsConnected patch_from_yaml-patched
