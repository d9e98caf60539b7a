-- ===== src/Debug.antt =====
-- The messages of the debugger: include/debug/debug_common.h and the writing functions of
-- src/debug/json_debugger.cpp. A message is the list of the calls of the JSON writer.
use Prim.Native.Char.{Char, code}
use asyncflow.Base.{
  ◌≡◌, refl, inl, inr, Bool-cases, ◌∷◌, ◌++◌, ◌==◌, [], if◌then◌else◌, Bool, zero, none, some,
  false, List, String, Option, ℕ, suc, ℤ, pos, negsuc,
}
pub mod Grammar
pub mod Complete
pub mod Infos
pub mod Messages
pub mod Texts
pub mod Sent

-- A call of rapidjson's PrettyWriter.
pub data Token : Type 0 where
  start_object end_object start_array end_array : Token
  write_string : String → Token
  write_bool : Bool → Token
  write_int : ℤ → Token
  write_uint64 : ℕ → Token

pub record ChartInfo : Type 0 where
  pub agent_id : ℕ
  pub owner_node_addr : ℕ
  pub owner_node_id : ℤ
  pub owner_node_uid : String
  pub object_name : String
  pub chart_name : String
  pub owner_chart_name : String
  pub chart_uid : String

pub record NodeStatusData : Type 0 where
  pub id : ℤ
  pub node_id : ℤ
  pub node_uid : String
  pub old_status : ℤ
  pub new_status : ℤ
  pub result : Bool

pub record NodeMessageData : Type 0 where
  pub id : ℤ
  pub node_id : ℤ
  pub node_uid : String
  pub message : String

pub record VariableStatusData : Type 0 where
  pub id : ℤ
  pub variable_name : String
  pub node_uid : String
  pub old_value : String
  pub new_value : String

pub record EventStatusData : Type 0 where
  pub id : ℤ
  pub event_name : String
  pub node_uid : String
  pub n_args : List String
  pub argcount : ℤ

-- A DebugData, by its type.
pub data DebugData : Type 0 where
  node_status : NodeStatusData → DebugData
  variable_status : VariableStatusData → DebugData
  event_status : EventStatusData → DebugData
  node_message : NodeMessageData → DebugData

-- What the `c_str()` of a text gives its reader: the characters before the first null.
unfoldable pub c_str : String → String
c_str String.[] = String.[]
c_str (String.◌∷◌ c s) = let rest = c_str s in if code c == 0 then String.[] else String.◌∷◌ c rest

c_str-cons :
    (c : Char) (s : String)
    → (code c == 0) ≡ false
    → c_str (String.◌∷◌ c s) ≡ String.◌∷◌ c (c_str s)
unfolding c_str
c_str-cons c s e = rw (e, c_str) refl

c_str_idem_cons :
    (c : Char) (s : String)
    → (code c == 0) ≡ false
    → c_str (c_str s) ≡ c_str s
    → c_str (c_str (String.◌∷◌ c s)) ≡ c_str (String.◌∷◌ c s)
c_str_idem_cons c s e ih = rw (c_str-cons c s e, c_str-cons c (c_str s) e, ih) refl

pub c_str_idem : (s : String) → c_str (c_str s) ≡ c_str s
unfolding c_str
c_str_idem String.[] = refl
c_str_idem (String.◌∷◌ c s) = elim (Bool-cases (code c == 0)) [
  | inl e ↦ rw (e, c_str) refl
  | inr e ↦ c_str_idem_cons c s e (c_str_idem s)
]

-- A member whose value is the `c_str()` of a text.
abbrev pub member_string : String → String → List Token
member_string name value = write_string name ∷ write_string (c_str value) ∷ []

abbrev pub member_int : String → ℤ → List Token
member_int name value = write_string name ∷ write_int value ∷ []

abbrev pub member_uint64 : String → ℕ → List Token
member_uint64 name value = write_string name ∷ write_uint64 value ∷ []

-- StartObject, the members, EndObject.
abbrev pub object : List Token → List Token
object ts = start_object ∷ ts ++ end_object ∷ []

abbrev pub array : List Token → List Token
array ts = start_array ∷ ts ++ end_array ∷ []

-- Serialize_ChartInfo_Json
unfoldable pub serialize_chart_info : ChartInfo → List Token
serialize_chart_info ci = object (
    member_uint64 "agent_id" ci.agent_id
    ++ member_uint64 "owner_node_addr" ci.owner_node_addr
    ++ member_int "owner_node_id" ci.owner_node_id
    ++ member_string "owner_node_uid" ci.owner_node_uid
    ++ member_string "object_name" ci.object_name
    ++ member_string "chart_name" ci.chart_name
    ++ member_string "owner_chart_name" ci.owner_chart_name
    ++ member_string "graph_uid" ci.chart_uid)

abbrev pub eq_int : ℤ → ℕ → Bool
eq_int (pos n) k = n == k
eq_int (negsuc n) k = false

-- Serialize_NodeStatusData_Json
unfoldable pub serialize_node_status : NodeStatusData → List Token
serialize_node_status d = object (
    member_string "type" "node_status"
    ++ member_int "id" d.id
    ++ member_int "node_id" d.node_id
    ++ member_string "node_uid" d.node_uid
    ++ member_int "old_status" d.old_status
    ++ member_int "new_status" d.new_status
    ++ (if eq_int d.new_status 2 then write_string "result" ∷ write_bool d.result ∷ [] else []))

-- Serialize_NodeMessageData_Json
unfoldable pub serialize_node_message : NodeMessageData → List Token
serialize_node_message d = object (
    member_string "type" "node_message"
    ++ member_int "id" d.id
    ++ member_int "node_id" d.node_id
    ++ member_string "node_uid" d.node_uid
    ++ (write_string "message" ∷ write_string d.message ∷ []))

-- Serialize_VariableStatusData_Json
unfoldable pub serialize_variable_status : VariableStatusData → List Token
serialize_variable_status d = object (
    member_string "type" "variable_status"
    ++ member_int "id" d.id
    ++ member_string "variable_name" d.variable_name
    ++ member_string "node_uid" d.node_uid
    ++ member_string "old_value" d.old_value
    ++ member_string "new_value" d.new_value)

abbrev pub loop_count : ℤ → ℕ
loop_count (pos n) = n
loop_count (negsuc n) = 0

-- The first k of the arguments; `none` if there are fewer.
unfoldable pub write_args : ℕ → List String → Option (List Token)
write_args zero args = some []
write_args (suc k) [] = none
write_args (suc k) (a ∷ args) = elim (write_args k args) [
  | none ↦ none
  | some ts ↦ some (write_string (c_str a) ∷ ts)
]

-- Serialize_EventStatusData_Json
unfoldable pub serialize_event_status : EventStatusData → Option (List Token)
serialize_event_status d = elim (write_args (loop_count d.argcount) d.n_args) [
  | none ↦ none
  | some args ↦ some (
      object (
        member_string "type" "event_status"
        ++ member_int "id" d.id
        ++ member_string "event_name" d.event_name
        ++ member_string "node_uid" d.node_uid
        ++ member_int "arg_count" d.argcount
        ++ write_string "event_params" ∷ array args))
]

-- The body of the loop of PrepareChartDebugData.
unfoldable pub serialize_debug_data : DebugData → Option (List Token)
serialize_debug_data (node_status d) = some (serialize_node_status d)
serialize_debug_data (variable_status d) = some (serialize_variable_status d)
serialize_debug_data (event_status d) = serialize_event_status d
serialize_debug_data (node_message d) = some (serialize_node_message d)

unfoldable pub serialize_all : List DebugData → Option (List Token)
serialize_all [] = some []
serialize_all (d ∷ ds) = elim (serialize_debug_data d) [
  | none ↦ none
  | some ts ↦ elim (serialize_all ds) [ none ↦ none | some us ↦ some (ts ++ us) ]
]
