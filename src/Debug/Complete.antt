-- ===== src/Debug/Complete.antt =====
-- What the debugger writes is JSON.
use mathlib.Core.Option.{some-injective}
use mathlib.Core.Path.{subst}
use asyncflow.Debug.Grammar.{
  AreMembers, append-AreMembers, AreElements, IsValue, object-IsValue, uint64-AreMembers,
  append-AreElements, string-AreMembers, value-AreElements, int-AreMembers, member-AreMembers,
  array-IsValue,
}
use asyncflow.Debug.{
  serialize_variable_status, serialize_event_status, serialize_debug_data, serialize_node_message,
  serialize_all, Token, write_args, serialize_node_status, serialize_chart_info, EventStatusData,
  write_string, NodeMessageData, NodeStatusData, DebugData, ChartInfo, VariableStatusData,
  write_bool, node_status, loop_count, variable_status, event_status, node_message, eq_int, array,
}
use asyncflow.Base.{
  ◌≡◌, ◌∷◌, ◌++◌, [], if◌then◌else◌, refl, true, ℕ, zero, String, some, arith, false, suc, inl, inr,
  List, Bool, Option-cases,
}

status-AreMembers :
    (s : Bool) (r : Bool) → AreMembers (if s then write_string "result" ∷ write_bool r ∷ [] else [])
unfolding AreMembers
status-AreMembers true r ps = refl
status-AreMembers false r ps = refl

-- One member, then the others.
pub members : (ts us : List Token) → AreMembers ts → AreMembers us → AreMembers (ts ++ us)
members ts us t u = append-AreMembers ts us t u

pub serialize_chart_info-IsValue : (ci : ChartInfo) → IsValue (serialize_chart_info ci)
unfolding serialize_chart_info
serialize_chart_info-IsValue ci = object-IsValue _ (
    members _ _ (uint64-AreMembers _ _) (
      members _ _ (uint64-AreMembers _ _) (
        members _ _ (int-AreMembers _ _) (
          members _ _ (string-AreMembers _ _) (
            members _ _ (string-AreMembers _ _) (
              members _ _ (string-AreMembers _ _)
                (members _ _ (string-AreMembers _ _) (string-AreMembers _ _))))))))

serialize_node_status-IsValue : (d : NodeStatusData) → IsValue (serialize_node_status d)
unfolding serialize_node_status
serialize_node_status-IsValue d = object-IsValue _ (
    members _ _ (string-AreMembers _ _) (
      members _ _ (int-AreMembers _ _) (
        members _ _ (int-AreMembers _ _) (
          members _ _ (string-AreMembers _ _) (
            members _ _ (int-AreMembers _ _) (
              members _ _ (int-AreMembers _ _)
                (status-AreMembers (eq_int d.new_status 2) d.result)))))))

-- A text that is written with its length.
text-AreMembers : (name value : String) → AreMembers (write_string name ∷ write_string value ∷ [])
unfolding AreMembers
text-AreMembers name value ps = refl

serialize_node_message-IsValue : (d : NodeMessageData) → IsValue (serialize_node_message d)
unfolding serialize_node_message
serialize_node_message-IsValue d = object-IsValue _ (
    members _ _ (string-AreMembers _ _) (
      members _ _ (int-AreMembers _ _) (
        members _ _ (int-AreMembers _ _)
          (members _ _ (string-AreMembers _ _) (text-AreMembers "message" d.message)))))

serialize_variable_status-IsValue : (d : VariableStatusData) → IsValue (serialize_variable_status d)
unfolding serialize_variable_status
serialize_variable_status-IsValue d = object-IsValue _ (
    members _ _ (string-AreMembers _ _) (
      members _ _ (int-AreMembers _ _) (
        members _ _ (string-AreMembers _ _) (
          members _ _ (string-AreMembers _ _)
            (members _ _ (string-AreMembers _ _) (string-AreMembers _ _))))))

write_args-AreElements :
    (k : ℕ) (args : List String) (ts : List Token) → write_args k args ≡ some ts → AreElements ts
unfolding write_args AreElements
write_args-AreElements zero args ts e = subst AreElements (some-injective _ _ e) (λ ps. refl)
write_args-AreElements (suc k) [] ts e = absurd (ground arith)
write_args-AreElements (suc k) (a ∷ args) ts e = elim (Option-cases (write_args k args)) [
  | inl f ↦ absurd (ground (arith, e, f))
  | inr (us, f) ↦
      subst AreElements (some-injective _ _ (rw (f, write_args) at e))
        (write_args-AreElements k args us f)
]

serialize_event_status-IsValue :
    (d : EventStatusData) (ts : List Token) → serialize_event_status d ≡ some ts → IsValue ts
unfolding serialize_event_status
serialize_event_status-IsValue d ts e =
    elim (Option-cases (write_args (loop_count d.argcount) d.n_args)) [
      | inl f ↦ absurd (ground (arith, e, f))
      | inr (args, f) ↦ subst IsValue (some-injective _ _ (rw (f, serialize_event_status) at e)) (
          object-IsValue _ (
            members _ _ (string-AreMembers _ _) (
              members _ _ (int-AreMembers _ _) (
                members _ _ (string-AreMembers _ _) (
                  members _ _ (string-AreMembers _ _) (
                    members _ _ (int-AreMembers _ _) (
                      member-AreMembers "event_params" (array args) (
                        array-IsValue args
                          (write_args-AreElements (loop_count d.argcount) d.n_args args f)))))))))
    ]

pub serialize_debug_data-IsValue :
    (d : DebugData) (ts : List Token) → serialize_debug_data d ≡ some ts → IsValue ts
unfolding serialize_debug_data
serialize_debug_data-IsValue (node_status d) ts e =
    subst IsValue (some-injective _ _ e) (serialize_node_status-IsValue d)
serialize_debug_data-IsValue (variable_status d) ts e =
    subst IsValue (some-injective _ _ e) (serialize_variable_status-IsValue d)
serialize_debug_data-IsValue (event_status d) ts e = serialize_event_status-IsValue d ts e
serialize_debug_data-IsValue (node_message d) ts e =
    subst IsValue (some-injective _ _ e) (serialize_node_message-IsValue d)

pub serialize_all-AreElements :
    (ds : List DebugData) (ts : List Token) → serialize_all ds ≡ some ts → AreElements ts
unfolding serialize_all AreElements
serialize_all-AreElements [] ts e = subst AreElements (some-injective _ _ e) (λ ps. refl)
serialize_all-AreElements (d ∷ ds) ts e = elim (Option-cases (serialize_debug_data d)) [
  | inl f ↦ absurd (ground (arith, e, f))
  | inr (us, f) ↦ elim (Option-cases (serialize_all ds)) [
    | inl g ↦ absurd (ground (arith, e, f, g))
    | inr (vs, g) ↦ subst AreElements (some-injective _ _ (rw (f, serialize_all, g) at e)) (
        append-AreElements us vs (value-AreElements us (serialize_debug_data-IsValue d us f))
          (serialize_all-AreElements ds vs g))
  ]
]
