-- ===== src/ChartData.antt =====
-- include/core/node_data.h, include/core/chart_data.h and the parts of src/core/node_data.cpp and
-- src/core/chart_data.cpp that do not read a document. An index of -1 is `none`.
pub mod Json
pub mod Yaml
pub mod YamlChart
pub mod Placed
pub mod YamlNodes
pub mod YamlConnectors
pub mod YamlPatch
pub mod Patched
pub mod PatchConnectors
pub mod Ids
pub mod Connectors
use text.Mathlib.Text.{◌==◌ as str_eq}
use asyncflow.Base.{
  ℕ, String, Bool, false, Option, none, some, List, [], ◌∷◌, ◌++◌, ◌==◌, if◌then◌else◌, get_elem?,
  length, find_name,
}

-- The three functions that a control node can be bound to.
pub data ControlFunc : Type 0 where
  wait_all stop_node stop_flow : ControlFunc

-- `user` is a function of the scripting language, which the bindings look up.
pub data NodeFunc : Type 0 where
  no_func : NodeFunc
  user : ℕ → NodeFunc
  control : ControlFunc → List ℕ → NodeFunc

pub record NodeData : Type 0 where
  pub node_id : ℕ
  pub var_id : Option ℕ
  pub is_event : Bool
  pub is_no_loop_check : Bool
  pub node_func : NodeFunc
  pub on_fail : List ℕ
  pub on_success : List ℕ
  pub text : String
  pub node_uid : String

abbrev pub new_node_data : ℕ → NodeData
new_node_data id = record {
  node_id = id;
  var_id = none;
  is_event = false;
  is_no_loop_check = false;
  node_func = no_func;
  on_fail = [];
  on_success = [];
  text = "";
  node_uid = "";
}

unfoldable pub get_subsequence_ids : NodeData → Bool → List ℕ
get_subsequence_ids d result = if result then d.on_success else d.on_fail

-- The types of a connector: 0 on failure, 1 on success, 2 on both; any other is dropped.
unfoldable pub add_subsequence : ℕ → ℕ → NodeData → NodeData
add_subsequence id type d =
    if type == 0
    then record d { on_fail = d.on_fail ++ id ∷ [] }
    else if type == 1
    then record d { on_success = d.on_success ++ id ∷ [] }
    else if type == 2
    then record d { on_fail = d.on_fail ++ id ∷ []; on_success = d.on_success ++ id ∷ [] }
    else d

unfoldable pub set_children : List ℕ → List ℕ → NodeData → NodeData
set_children f s d = record d { on_fail = f; on_success = s }

pub record Parameter : Type 0 where
  pub name : String
  pub type : String
  pub is_params : Bool

-- `prev` and `next` are the neighbours in the chain of versions.
pub record ChartData : Type 0 where
  pub variable_count : ℕ
  pub params_count : ℕ
  pub prev : Option ℕ
  pub next : Option ℕ
  pub version : ℕ
  pub variables : List Parameter
  pub variable_dict : List (String × ℕ)
  pub node_list : List NodeData
  pub chart_name : String
  pub start_func_name : String

abbrev pub new_chart_data : ChartData
new_chart_data = record {
  variable_count = 0;
  params_count = 0;
  prev = none;
  next = none;
  version = 0;
  variables = [];
  variable_dict = [];
  node_list = [];
  chart_name = "";
  start_func_name = "";
}

unfoldable pub get_node_count : ChartData → ℕ
get_node_count d = length d.node_list

-- `none` is an index outside the vector, which the code reads all the same.
unfoldable pub get_node_data : ChartData → ℕ → Option NodeData
get_node_data d i = get_elem? d.node_list i

find_uid : String → List NodeData → Option NodeData
find_uid uid [] = none
find_uid uid (n ∷ ns) = if str_eq n.node_uid uid then some n else find_uid uid ns

unfoldable pub get_node_data_by_uid : ChartData → String → Option NodeData
unfolding find_uid
get_node_data_by_uid d uid = find_uid uid d.node_list

unfoldable pub get_variable : ChartData → ℕ → Option Parameter
get_variable d idx = get_elem? d.variables idx

unfoldable pub get_variable_name : ChartData → ℕ → String
get_variable_name d idx = elim (get_elem? d.variables idx) [ none ↦ "__error" | some v ↦ v.name ]

unfoldable pub get_var_index : ChartData → String → Option ℕ
get_var_index d name = find_name name d.variable_dict
