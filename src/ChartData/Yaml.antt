-- ===== src/ChartData/Yaml.antt =====
-- The loading of a chart from YAML: ChartData::FromYaml (src/core/chart_data.cpp) and
-- NodeData::InitFromYaml (src/core/node_data.cpp). The parser is third-party code. A document is what
-- the code reads of it: each child, or that it is missing. Uids are ASCII.
use Prim.Native.Char.{Char, nul}
use Prim.Native.String.{[] as empty, ◌∷◌ as prepend, ◌++◌ as append, len}
use text.Mathlib.Text.{◌==◌ as str_eq}
use asyncflow.Base.{
  ℕ, zero, suc, ◌+◌, String, Bool, true, false, Option, none, some, List, [], ◌∷◌, ◌||◌, ◌==◌,
  if◌then◌else◌, leb, find_name, put_name,
}
use asyncflow.Uuid.{n_to_d, d_to_n}
use asyncflow.ChartData.{
  NodeFunc, control, wait_all, stop_node, stop_flow, NodeData, Parameter, ChartData, get_var_index,
}

-- The text of a `content` that is a scalar, and its items if it is a sequence.
pub record YamlContent : Type 0 where
  pub text : String
  pub items : List String

pub record YamlCode : Type 0 where
  pub type : Option String
  pub return_var_name : Option String
  pub func_name : Option String
  pub content : Option YamlContent

pub record YamlNode : Type 0 where
  pub uid : Option String
  pub text : Option String
  pub no_loop_check : Option String
  pub code : Option YamlCode

-- The number of the type is what `std::stoi` reads.
pub record YamlConnector : Type 0 where
  pub start : String
  pub end : String
  pub type : ℕ

pub record YamlVariable : Type 0 where
  pub name : String
  pub type : String
  pub is_param : Option String

pub record YamlChart : Type 0 where
  pub path : Option String
  pub variables : Option (List YamlVariable)
  pub nodes : Option (List YamlNode)
  pub connectors : Option (List YamlConnector)

-- A text as a buffer, with the null character after it, and back.
unfoldable pub to_buffer : String → ℕ → Char
to_buffer empty i = nul
to_buffer (prepend c s) zero = c
to_buffer (prepend c s) (suc i) = to_buffer s i

unfoldable pub of_buffer : ℕ → ℕ → (ℕ → Char) → String
of_buffer zero i b = empty
of_buffer (suc k) i b = prepend (b i) (of_buffer k (i + 1) b)

abbrev pub is_text : String → Option String → Bool
is_text s none = false
is_text s (some t) = str_eq t s

unfoldable pub to_parameter : YamlVariable → Parameter
to_parameter v = record { name = v.name; type = v.type; is_params = is_text "true" v.is_param }

-- A uid without dashes is given them; any other is left as it is.
unfoldable pub with_dashes : String → String
with_dashes id =
    if len id == 32 then of_buffer 36 0 (n_to_d (to_buffer "-" 0) (to_buffer id) (λ i. nul)) else id

-- The dashes of a uid taken away; the read of a shorter one is undefined.
unfoldable pub without_dashes : String → Option String
without_dashes uid =
    if leb 35 (len uid) then some (of_buffer 32 0 (d_to_n (to_buffer uid) (λ i. nul))) else none

-- The ids of the arguments of a control function, if all are known.
unfoldable pub control_params : List (String × ℕ) → List String → Option (List ℕ)
control_params id_map [] = some []
control_params id_map (item ∷ items) = elim (find_name (with_dashes item) id_map) [
  | none ↦ none
  | some id ↦ elim (control_params id_map items) [ none ↦ none | some ids ↦ some (id ∷ ids) ]
]

unfoldable pub create_yaml_control : String → List ℕ → NodeFunc → NodeFunc
create_yaml_control name ids old =
    if str_eq name "stopflow"
    then control stop_flow ids
    else if str_eq name "stopnode"
    then control stop_node ids
    else if str_eq name "waitall"
    then control wait_all ids
    else old

-- The branch of a control node; the result is false if an argument is not known.
unfoldable pub init_control : List (String × ℕ) → Option YamlContent → NodeData → NodeData × Bool
init_control id_map none d = (d, true)
init_control id_map (some content) d = elim content.items [
  | [] ↦ (d, true)
  | name ∷ items ↦ elim (control_params id_map items) [
    | none ↦ (d, false)
    | some ids ↦ (record d { node_func = create_yaml_control name ids d.node_func }, true)
  ]
]

unfoldable pub init_text : YamlNode → String → NodeData → NodeData
init_text node uid d = record d {
  node_uid = uid;
  text = elim node.text [ none ↦ d.text | some s ↦ s ];
  is_no_loop_check = elim node.no_loop_check [
    | none ↦ d.is_no_loop_check
    | some s ↦ str_eq s "true"
  ];
}

module _ (create_node_func : String → String → NodeFunc) where
  -- The function of a node of type FUNC or EVENT; `none` is undefined.
  unfoldable pub choose_func : ChartData → YamlCode → String → Option NodeFunc
  choose_func chart code uid = elim code.func_name [
    | some name ↦ some (create_node_func "" name)
    | none ↦ elim code.content [
      | some content ↦
          some
            (create_node_func (append "return function(self) \n" (append content.text "\n end")) "")
      | none ↦ elim (without_dashes uid) [
        | none ↦ none
        | some id ↦ some (create_node_func "" (append chart.chart_name (append "." id)))
      ]
    ]
  ]

  unfoldable pub init_call : ChartData → YamlCode → Bool → NodeData → Option (NodeData × Bool)
  init_call chart code is_event d = elim (choose_func chart code d.node_uid) [
    | none ↦ none
    | some f ↦ some (
      record d {
        var_id = elim code.return_var_name [
          | none ↦ d.var_id
          | some name ↦ get_var_index chart name
        ];
        node_func = f;
        is_event = is_event;
      },
      true,
    )
  ]

  -- The part of InitFromYaml for the code of a node.
  unfoldable pub init_code :
      ChartData → List (String × ℕ) → YamlCode → NodeData → Option (NodeData × Bool)
  init_code chart id_map code d = elim code.type [
    | none ↦ none
    | some type ↦
        if str_eq "FUNC" type || str_eq "EVENT" type
        then init_call chart code (str_eq "EVENT" type) d
        else if str_eq "CONTROL" type
        then some (init_control id_map code.content d)
        else some (d, if str_eq "ERROR" type then false else true)
  ]

  -- NodeData::InitFromYaml, with the map that it adds to; `none` is undefined.
  unfoldable pub init_from_yaml :
      ChartData
      → YamlNode
      → List (String × ℕ)
      → NodeData
      → Option (List (String × ℕ) × NodeData × Bool)
  init_from_yaml chart node id_map d = elim node.uid [
    | none ↦ none
    | some uid ↦
        let m = put_name uid d.node_id id_map in
        if d.node_id == 0 then some (m, record d { node_uid = uid }, true) else elim node.code [
          | none ↦ some (m, init_text node uid d, true)
          | some code ↦ elim (init_code chart m code (init_text node uid d)) [
            | none ↦ none
            | some r ↦ some (m, r.0, r.1)
          ]
        ]
  ]
