-- ===== src/Handlers/Breakpoints.antt =====
-- BreakPointHandler (src/debug/json_debugger.cpp), Manager::SetBreakpoint and DeleteBreakpoint
-- (src/core/manager.cpp).
use asyncflow.Base.{
  ◌≡◌, ◌∷◌, [], if◌then◌else◌, ℕ, refl, arith, true, false, Bool, List, eqb→eq, update, ◌||◌, inl,
  inr, mem, All, Bool-cases,
}

-- The function of a node: its own, or a BreakpointFunc around it with its `continue_flag_`.
pub data BreakFunc : Type 0 where
  own_func : BreakFunc
  breakpoint_func : Bool → BreakFunc

-- The flag and the function of each NodeData.
pub record Breakpoints : Type 0 where
  pub break_point : ℕ → Bool
  pub node_func : ℕ → BreakFunc

abbrev pub no_breakpoints : Breakpoints
no_breakpoints = record { break_point = λ d. false; node_func = λ d. own_func }

abbrev pub is_breakpoint_func : BreakFunc → Bool
is_breakpoint_func own_func = false
is_breakpoint_func (breakpoint_func b) = true

abbrev pub set_break_point : ℕ → Bool → Breakpoints → Breakpoints
set_break_point d flag b = record b { break_point = update b.break_point d flag }

unfoldable pub set_breakpoint : ℕ → Breakpoints → Breakpoints × Bool
set_breakpoint d b =
    if is_breakpoint_func (b.node_func d)
    then (b, false)
    else (record b { node_func = update b.node_func d (breakpoint_func false) }, true)

-- Without the nodes that go on, which AsyncManager keeps.
unfoldable pub delete_breakpoint : ℕ → Breakpoints → Breakpoints × Bool
delete_breakpoint d b =
    if is_breakpoint_func (b.node_func d)
    then (record b { node_func = update b.node_func d own_func }, true)
    else (b, false)

-- The effect of BreakPointHandler on a node that is there, and whether the call it makes succeeds.
unfoldable pub set_command : ℕ → Breakpoints → Breakpoints × Bool
set_command d b = if b.break_point d then (b, true) else set_breakpoint d (set_break_point d true b)

unfoldable pub delete_command : ℕ → Breakpoints → Breakpoints × Bool
delete_command d b =
    if b.break_point d then delete_breakpoint d (set_break_point d false b) else (b, true)

-- A command for a node: true to set the breakpoint, false to delete it.
unfoldable pub command : Bool × ℕ → Breakpoints → Breakpoints × Bool
command (true, d) b = set_command d b
command (false, d) b = delete_command d b

-- What happens to the nodes of charts' data: a command, or a patch in place that gives a node a new
-- function (NodeData::InitFromYaml, which leaves the flag as it is).
pub data BreakEvent : Type 0 where
  commanded : Bool × ℕ → BreakEvent
  patched : ℕ → BreakEvent

unfoldable pub replace_func : ℕ → Breakpoints → Breakpoints
replace_func d b = record b { node_func = update b.node_func d own_func }

-- The events in turn, and the commands whose call was refused.
unfoldable pub events : List BreakEvent → Breakpoints → Breakpoints × List (Bool × ℕ)
events [] b = (b, [])
events (commanded c ∷ es) b =
    let r = command c b in let s = events es r.0 in (s.0, if r.1 then s.1 else c ∷ s.1)
events (patched d ∷ es) b = events es (replace_func d b)

-- The nodes that were patched.
abbrev pub patched_nodes : List BreakEvent → List ℕ
patched_nodes [] = []
patched_nodes (commanded c ∷ es) = patched_nodes es
patched_nodes (patched d ∷ es) = d ∷ patched_nodes es

-- A function that is a breakpoint has its flag set, and the flag tells of all nodes but those in the
-- list.
unfoldable pub IsMarked : List ℕ → Breakpoints → Type 0
IsMarked ps b =
    (d : ℕ)
    → (is_breakpoint_func (b.node_func d) ≡ true → b.break_point d ≡ true)
      × (mem d ps ≡ false → b.break_point d ≡ is_breakpoint_func (b.node_func d))

-- A command that is refused deletes a breakpoint of a node in the list.
abbrev pub Refused : List ℕ → Bool × ℕ → Type 0
Refused ps c = (c.0 ≡ false) × (mem c.1 ps ≡ true)

IsMarked-weaken :
    (ps qs : List ℕ) (b : Breakpoints)
    → ((d : ℕ) → mem d ps ≡ true → mem d qs ≡ true)
    → IsMarked ps b
    → IsMarked qs b
unfolding IsMarked
IsMarked-weaken ps qs b le v = λ d. ((v d).0, λ h. (v d).1 (ground (arith, le d)))

command-IsMarked :
    (ps : List ℕ) (c : Bool × ℕ) (b : Breakpoints) → IsMarked ps b → IsMarked ps (command c b).0
unfolding IsMarked command set_command delete_command set_breakpoint delete_breakpoint
command-IsMarked ps (true, d) b v = λ x. (
  λ h. ground (arith, (v d).0, (v x).0, eqb→eq d x),
  λ h. ground (arith, (v d).0, (v x).1 h, eqb→eq d x),
)
command-IsMarked ps (false, d) b v = λ x. (
  λ h. ground (arith, (v d).0, (v x).0, eqb→eq d x),
  λ h. ground (arith, (v d).0, (v x).1 h, eqb→eq d x),
)

command-Refused :
    (ps : List ℕ) (c : Bool × ℕ) (b : Breakpoints)
    → IsMarked ps b
    → (command c b).1 ≡ false
    → Refused ps c
unfolding IsMarked command set_command delete_command set_breakpoint delete_breakpoint
command-Refused ps (true, d) b v h = absurd (ground (arith, (v d).0))
command-Refused ps (false, d) b v h =
    (refl, elim (Bool-cases (mem d ps)) [ inl e ↦ e | inr e ↦ absurd (ground (arith, (v d).1 e)) ])

replace_func-IsMarked :
    (ps : List ℕ) (d : ℕ) (b : Breakpoints) → IsMarked ps b → IsMarked (d ∷ ps) (replace_func d b)
unfolding IsMarked replace_func
replace_func-IsMarked ps d b v = λ x. (λ h. ground (arith, (v x).0), λ h. ground (arith, (v x).1))

-- The nodes patched before the events, and in them.
events_kept :
    (es : List BreakEvent) (ps : List ℕ) (b : Breakpoints)
    → IsMarked ps b
    → (qs : List ℕ) → ((d : ℕ) → (mem d ps || mem d (patched_nodes es)) ≡ true → mem d qs ≡ true)
    → IsMarked qs (events es b).0 × All (Refused qs) (events es b).1
unfolding events
events_kept [] ps b v qs le = (IsMarked-weaken ps qs b (λ d m. le d (ground arith)) v, tt)
events_kept (patched x ∷ es) ps b v qs le =
    events_kept es (x ∷ ps) (replace_func x b) (replace_func-IsMarked ps x b v) qs
      (λ d m. le d (ground arith))
events_kept (commanded c ∷ es) ps b v qs le =
    let rest = events_kept es ps (command c b).0 (command-IsMarked ps c b v) qs le in
    elim (Bool-cases (command c b).1) [
      | inl e ↦ (rest.0, rw e rest.1)
      | inr e ↦
          let bad = command-Refused ps c b v e in
          (rest.0, rw e ((bad.0, le c.1 (ground (arith, bad.1))), rest.1))
    ]

-- From no breakpoints, after any commands of the debugger to set and to delete breakpoints and any
-- patches in place of nodes' functions, in any order: a function that is a breakpoint has its flag
-- set, the flag of a node that no patch reached is set just if its function is a breakpoint, and
-- each call of SetBreakpoint or DeleteBreakpoint that was refused deletes a breakpoint of a node
-- that a patch reached.
pub events-IsMarked :
    (es : List BreakEvent)
    → IsMarked (patched_nodes es) (events es no_breakpoints).0
      × All (Refused (patched_nodes es)) (events es no_breakpoints).1
unfolding IsMarked
events-IsMarked es =
    events_kept es [] no_breakpoints (λ d. (λ h. absurd (ground arith), λ h. refl))
      (patched_nodes es) (λ d m. ground arith)
