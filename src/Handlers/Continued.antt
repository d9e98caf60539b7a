-- ===== src/Handlers/Continued.antt =====
-- The two of AsyncManager::ContinueBreakpoint (src/core/async_manager.cpp) and BreakpointFunc::call
-- (src/core/node_func.cpp). `key` is the
-- address of a node of a chart's data.
use asyncflow.ChartData.YamlPatch.{find_index}
use asyncflow.Engine.Agents.Defs.{get_chart_data}
use text.Mathlib.Text.{◌==◌ as str_eq}
use asyncflow.Debug.Sent.{map_message}
use asyncflow.Handlers.{
  get_debug_chart_info, find_debug_chart, reply_error, send_reply, param_string,
}
use asyncflow.Sessions.{Sessions}
use asyncflow.Debug.{Token}
use asyncflow.Engine.Containers.{push, leave_container, container_remove, append_to}
use asyncflow.Handlers.Breakpoints.{
  own_func, breakpoint_func, Breakpoints, command, is_breakpoint_func,
}
use asyncflow.Engine.Control.{activate_node, is_active, add_async_node}
use asyncflow.Engine.State.{Ptr, World, async_waiting, modify_node, running}
use asyncflow.Base.{
  ◌≡◌, ◌⊎◌, ◌&&◌, ◌∷◌, ◌==◌, [], if◌then◌else◌, arith, true, mem, inl, inr, false, Bool, refl, some,
  ℕ, none, List, Option, All, Bool-cases, mem-without, eqb_refl, update, String, ℤ, negsuc, not,
}

-- A loop over waiting_nodes_ that activates the nodes that are wanted. The activation takes a node
-- out of the list that the loop runs over, after which the loop is undefined.
unfoldable pub continue_nodes : (Ptr → Bool) → List Ptr → World → Option World
continue_nodes wanted [] w = some w
continue_nodes wanted (p ∷ ps) w =
    let w1 = activate_node p false w in
    let here = continue_nodes wanted ps w1 in
    let later = continue_nodes wanted ps w in
    if wanted p then (if mem p w1.waiting_nodes then here else none) else later

module _ (key : Ptr → ℕ → ℕ) where
  abbrev pub key_of : Ptr → World → ℕ
  key_of p w = key (w.charts (w.nodes p).chart).data_ (w.nodes p).node_data

  -- SetExecute on the function of each node that is continued.
  unfoldable pub set_execute : List Ptr → (Ptr → Bool) → World → Breakpoints → Breakpoints
  set_execute [] wanted w b = b
  set_execute (p ∷ ps) wanted w b =
      let rest = set_execute ps wanted w b in
      if wanted p
      then elim (b.node_func (key_of p w)) [
        | own_func ↦ rest
        | breakpoint_func flag ↦ record rest {
          node_func = update rest.node_func (key_of p w) (breakpoint_func true);
        }
      ]
      else rest

  abbrev pub at_breakpoint : Ptr → Breakpoints → World → Ptr → Bool
  at_breakpoint c b w p = (w.nodes p).chart == c && b.break_point (key_of p w)

  -- ContinueBreakpoint of a chart.
  unfoldable pub continue_chart : Ptr → Breakpoints → World → Option (Breakpoints × World)
  continue_chart c b w = elim (continue_nodes (at_breakpoint c b w) w.waiting_nodes w) [
    | none ↦ none
    | some w' ↦ some (set_execute w.waiting_nodes (at_breakpoint c b w) w b, w')
  ]

  -- ContinueBreakpoint of a node's data.
  unfoldable pub continue_data : ℕ → World → Option World
  continue_data d w = continue_nodes (λ p. key_of p w == d) w.waiting_nodes w

  -- BreakpointFunc::call, of the current node: true if the original function is called.
  unfoldable pub call_breakpoint : Bool → Ptr → Breakpoints → World → Breakpoints × World × Bool
  call_breakpoint debug p b w = elim (b.node_func (key_of p w)) [
    | own_func ↦ (b, w, true)
    | breakpoint_func true ↦
        (record b { node_func = update b.node_func (key_of p w) (breakpoint_func false) }, w, true)
    | breakpoint_func false ↦
        if debug
        then (b, add_async_node p (modify_node p (λ n. record n { status = running }) w), false)
        else (b, w, true)
  ]

-- ContinueHandler and BreakPointHandler (src/debug/json_debugger.cpp).
module _ (lock : ℕ → ℕ) (throws : ℕ → Bool) (to_string : ℕ → String)
    (contains : String → String → Bool) (agent_name chart_uid : ℕ → String)
    (key : Ptr → ℕ → ℕ) where
  -- The reply is sent before the nodes go on.
  unfoldable pub continue_handler :
      World
      → Option (List (String × Token))
      → ℕ
      → ℤ
      → Breakpoints
      → Sessions
      → Option (Sessions × Option (Breakpoints × World))
  continue_handler w params hdl id b s = elim (get_debug_chart_info params) [
    | none ↦ none
    | some info ↦
        elim (find_debug_chart lock throws to_string contains agent_name chart_uid info w) [
          | inl text ↦ some (
            reply_error lock throws to_string contains agent_name chart_uid hdl (negsuc 0) text id
                s,
            some (b, w),
          )
          | inr c ↦ some (
            send_reply lock throws to_string contains agent_name chart_uid hdl
                (map_message "continue" (("chart_name", info.chart_name) ∷ []) id) s,
            continue_chart key c b w,
          )
        ]
  ]

  abbrev command_name : Bool → String
  command_name set = if set then "set" else "delete"

  -- The nodes of a deleted breakpoint that go on, in DeleteBreakpoint.
  abbrev let_go : Bool → ℕ → Breakpoints → World → Option World
  let_go set d b w =
      if not set && b.break_point d && is_breakpoint_func (b.node_func d)
      then continue_data key d w
      else some w

  -- BreakPointHandler (src/debug/json_debugger.cpp), of a node of a chart's data. A command is "set"
  -- or else "delete".
  unfoldable pub break_point_node :
      World
      → String
      → String
      → Bool
      → ℕ
      → ℕ
      → ℤ
      → Breakpoints
      → Sessions
      → Sessions × Breakpoints × Option World
  break_point_node w name uid set d hdl id b s = (
    send_reply lock throws to_string contains agent_name chart_uid hdl
        (map_message "break_point"
          (("chart_name", name) ∷ ("node_uid", uid) ∷ ("command", command_name set) ∷ []) id)
        s,
    (command (set, d) b).0,
    let_go set d b w,
  )

  unfoldable pub break_point_handler :
      World
      → Option (List (String × Token))
      → ℕ
      → ℤ
      → Breakpoints
      → Sessions
      → Option (Sessions × Breakpoints × Option World)
  break_point_handler w params hdl id b s = elim (param_string "chart_name" params) [
    | none ↦ none
    | some name ↦ elim (get_chart_data name w) [
      | none ↦ some (
        reply_error lock throws to_string contains agent_name chart_uid hdl (negsuc 9)
            "The chart is not exist in chart_data" id s,
        b,
        some w,
      )
      | some cd ↦ elim (param_string "node_uid" params) [
        | none ↦ none
        | some uid ↦ elim (find_index uid (w.chart_datas cd).node_list) [
          | none ↦ some (
            reply_error lock throws to_string contains agent_name chart_uid hdl (negsuc 3)
                "The uid is not exist in chart_data" id s,
            b,
            some w,
          )
          | some i ↦ elim (param_string "command" params) [
            | none ↦ none
            | some text ↦
                some (break_point_node w name uid (str_eq text "set") (key cd i) hdl id b s)
          ]
        ]
      ]
    ]
  ]

-- The waiting nodes are in the list of waiting nodes.
abbrev pub AreWaiting : List Ptr → World → Type 0
AreWaiting ps w = All (λ p. (w.nodes p).container ≡ some async_waiting) ps

taken_out :
    (p : Ptr) (w : World)
    → (w.nodes p).container ≡ some async_waiting
    → mem p (activate_node p false w).waiting_nodes ≡ false
unfolding activate_node is_active push leave_container container_remove append_to
taken_out p w e = ground (arith, e, mem-without p p w.waiting_nodes, eqb_refl p)

-- Whatever nodes are to go on, the loop over waiting nodes that are in the list of waiting nodes
-- changes nothing if none of them is one of those, and is undefined if one is.
pub continue_nodes_lem :
    (wanted : Ptr → Bool) (ps : List Ptr) (w : World)
    → AreWaiting ps w
    → (continue_nodes wanted ps w ≡ some w × All (λ p. wanted p ≡ false) ps)
      ⊎ (continue_nodes wanted ps w ≡ none × ((p : Ptr) × (mem p ps ≡ true) × (wanted p ≡ true)))
unfolding continue_nodes
continue_nodes_lem wanted [] w all = inl (refl, tt)
continue_nodes_lem wanted (p ∷ ps) w (e, all) = elim (Bool-cases (wanted p)) [
  | inl y ↦ inr (rw (y, continue_nodes, taken_out p w e) refl, (p, ground arith, y))
  | inr n ↦ elim (continue_nodes_lem wanted ps w all) [
    | inl (f, none_wanted) ↦ inl (rw (n, continue_nodes) f, (n, none_wanted))
    | inr (f, (q, i, y)) ↦ inr (rw (n, continue_nodes) f, (q, ground arith, y))
  ]
]
