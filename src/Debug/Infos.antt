-- ===== src/Debug/Infos.antt =====
-- Deserialize_ChartInfo_Json (src/debug/json_debugger.cpp), on the members of an object.
use asyncflow.Debug.{
  c_str, c_str_idem, start_object, ChartInfo, Token, serialize_chart_info, write_string, write_int,
  write_uint64,
}
use asyncflow.Base.{
  ◌-◌, ◌^◌, ◌≡◌, ◌∷◌, [], if◌then◌else◌, none, true, List, String, ℕ, refl, some, false, Bool, ℤ,
  pos, negsuc, find_name, ltb, to_size_t, to_int,
}

-- The constructor of ChartInfo.
abbrev pub new_chart_info : ChartInfo
new_chart_info = record {
  agent_id = 2 ^ 64 - 1;
  owner_node_addr = 2 ^ 64 - 1;
  owner_node_id = negsuc 0;
  owner_node_uid = "";
  object_name = "";
  chart_name = "";
  owner_chart_name = "";
  chart_uid = "";
}

-- The members of an object that has neither objects nor arrays inside.
unfoldable pub read_members : List Token → List (String × Token)
read_members (write_string name ∷ value ∷ ts) = (name, value) ∷ read_members ts
read_members _ = []

unfoldable pub read_object : List Token → List (String × Token)
read_object (start_object ∷ ts) = read_members ts
read_object _ = []

abbrev pub int_below : ℕ → ℤ → Bool
int_below k (pos n) = ltb n k
int_below k (negsuc n) = ltb n k

-- IsInt, IsInt64 with a bound of 2 to the 31, or to the 63.
unfoldable pub is_int_of : ℕ → Token → Bool
is_int_of k (write_int n) = int_below k n
is_int_of k (write_uint64 n) = ltb n k
is_int_of k _ = false

unfoldable pub get_uint64 : Token → ℕ → ℕ
get_uint64 (write_int n) old = to_size_t n
get_uint64 (write_uint64 n) old = n
get_uint64 _ old = old

unfoldable pub get_int : Token → ℤ → ℤ
get_int (write_int n) old = n
get_int (write_uint64 n) old = to_int n
get_int _ old = old

unfoldable pub read_uint64 : ℕ → String → List (String × Token) → ℕ → ℕ
read_uint64 k name obj old = elim (find_name name obj) [
  | none ↦ old
  | some t ↦ if is_int_of k t then get_uint64 t old else old
]

unfoldable pub read_int : String → List (String × Token) → ℤ → ℤ
read_int name obj old = elim (find_name name obj) [
  | none ↦ old
  | some t ↦ if is_int_of (2 ^ 31) t then get_int t old else old
]

abbrev pub get_string : Token → String → String
get_string (write_string s) old = c_str s
get_string _ old = old

unfoldable pub read_string : String → List (String × Token) → String → String
read_string name obj old = elim (find_name name obj) [ none ↦ old | some t ↦ get_string t old ]

-- Deserialize_ChartInfo_Json, which does not read the uid.
unfoldable pub deserialize_chart_info : List (String × Token) → ChartInfo → ChartInfo
deserialize_chart_info obj ci = record ci {
  agent_id = read_uint64 (2 ^ 31) "agent_id" obj ci.agent_id;
  owner_node_addr = read_uint64 (2 ^ 63) "owner_node_addr" obj ci.owner_node_addr;
  owner_node_id = read_int "owner_node_id" obj ci.owner_node_id;
  owner_node_uid = read_string "owner_node_uid" obj ci.owner_node_uid;
  object_name = read_string "object_name" obj ci.object_name;
  chart_name = read_string "chart_name" obj ci.chart_name;
  owner_chart_name = read_string "owner_chart_name" obj ci.owner_chart_name;
}

-- A chart's entry that is written and read again is the same up to the first null character of each
-- text, but for its uid, which is lost, provided that the owner's number is an `int`; an agent's id from 2 to the 31 on and an address
-- from 2 to the 63 on are not read either and leave what the constructor puts there.
pub serialize-deserialize :
    (ci : ChartInfo)
    → int_below (2 ^ 31) ci.owner_node_id ≡ true
    → deserialize_chart_info (read_object (serialize_chart_info ci)) new_chart_info ≡ record ci {
      agent_id = if ltb ci.agent_id (2 ^ 31) then ci.agent_id else 2 ^ 64 - 1;
      owner_node_addr = if ltb ci.owner_node_addr (2 ^ 63) then ci.owner_node_addr else 2 ^ 64 - 1;
      owner_node_uid = c_str ci.owner_node_uid;
      object_name = c_str ci.object_name;
      chart_name = c_str ci.chart_name;
      owner_chart_name = c_str ci.owner_chart_name;
      chart_uid = "";
    }
unfolding deserialize_chart_info serialize_chart_info read_object read_members read_uint64 read_int
    read_string find_name is_int_of get_uint64 get_int
serialize-deserialize ci l =
    rw
      (
        l,
        c_str_idem ci.owner_node_uid,
        c_str_idem ci.object_name,
        c_str_idem ci.chart_name,
        c_str_idem ci.owner_chart_name,
      )
      refl
