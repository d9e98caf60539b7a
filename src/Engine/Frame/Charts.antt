-- ===== src/Engine/Frame/Charts.antt =====
-- The core of the manager (Frame/Core) under the operations of src/core/chart.cpp and src/core/agent.cpp.
use asyncflow.Base.{
  ℕ, ◌-◌, String, Bool, true, false, not, ◌≡◌, refl, ◌∙◌, Option, none, some, List, [], ◌∷◌, arith,
  inl, inr, Option-cases, Bool-cases,
}
use text.Mathlib.Text.{◌==◌ as str_eq}
use asyncflow.Engine.State.{
  Ptr, World, Attacher, detached, subchart, running, executor, modify_node, modify_chart, fault_at,
}
use asyncflow.Engine.Lifecycle.{data_of_chart, set_attacher, find_chart, charts_named}
use asyncflow.Engine.Agents.{wait_event, get_chart_data, create_chart, add_chart}
use asyncflow.Engine.Control.{get_current_node, get_node}
use asyncflow.Engine.Frame.Core.{core, core-push}
use asyncflow.Engine.Frame.Lifecycle.{core-stop_chart, core-stop_node, core-set_attacher}
use asyncflow.Engine.Frame.Agents.{core-wait_event, core-create_chart, core-add_chart}
use asyncflow.Engine.Lifecycle.{stop_node as stop}
use asyncflow.Engine.Run.Events.{event}
use asyncflow.Engine.Run.Charts.{
  returned_node, started_node, continue_flow, resume_owner, chart_return, wait_start, launch,
  start_chart, start_chart_named, start_if_stopped, iterators_kept, start_charts, start_dict,
  start_agent, new_subchart, choose_subchart, call_subchart, return_current,
}
use asyncflow.Engine.Frame.Events.{index-core, core-event}

pub core-fault_at : (w : World) → core (fault_at w) ≡ core w
unfolding core
core-fault_at w = refl

core-new_subchart : (a p cd : Ptr) (w : World) → core (new_subchart a p cd w).0 ≡ core w
unfolding core new_subchart
core-new_subchart a p cd w =
    let w1 = (create_chart cd (some p) w).0 in
    let c = (create_chart cd (some p) w).1 in
    core-set_attacher (subchart c) p (add_chart a c (some p) w1).0
    ∙ core-add_chart a c (some p) w1
    ∙ core-create_chart cd (some p) w

core-choose_subchart :
    (a p cd : Ptr) (t : Attacher) (w : World) → core (choose_subchart a p cd t w).0 ≡ core w
unfolding core choose_subchart
core-choose_subchart a p cd detached w = core-new_subchart a p cd w
core-choose_subchart a p cd (subchart c) w =
    ground
      (arith, core-new_subchart a p cd (set_attacher detached p w), core-set_attacher detached p w)
core-choose_subchart a p cd _ w = refl

module _ (flow : Ptr → World → World × Bool) (i : ℕ)
    (keeps : (p : Ptr) (w : World) → w.current_index ≡ i → core (flow p w).0 ≡ core w) where
  core-continue_flow :
      (p : Ptr) (w : World) → w.current_index ≡ i → core (continue_flow flow p w).0 ≡ core w
  unfolding core continue_flow
  core-continue_flow p w h =
      let w1 = modify_node p (λ n. record n { run_flag = true }) w in
      ground (arith, keeps p w h, core-push (executor (w.current_index - 1)) p w1)

  core-start_event :
      (a p : Ptr) (imm : Bool) (w : World)
      → w.current_index ≡ i
      → core (event flow w.start_event (some a) 0 imm false (wait_event a p w.start_event w)).0
        ≡ core w
  core-start_event a p imm w h =
      let w1 = wait_event a p w.start_event w in
      let e : core w1 ≡ core w = core-wait_event a p w.start_event w in
      core-event flow i keeps w.start_event (some a) 0 imm false w1 (index-core w1 w e h) ∙ e

  core-resume_owner :
      (p : Ptr) (b : Bool) (w : World)
      → w.current_index ≡ i
      → core (resume_owner flow p b w) ≡ core w
  unfolding core resume_owner
  core-resume_owner p b w h =
      let w1 = returned_node b p (stop p w) in
      let e1 : core w1 ≡ core w = core-stop_node p w in
      let w2 = (continue_flow flow p w1).0 in
      let e2 : core w2 ≡ core w = core-continue_flow p w1 (index-core w1 w e1 h) ∙ e1 in
      elim (Bool-cases (continue_flow flow p w1).1) [
        | inl e ↦ rw (e, resume_owner) e2
        | inr e ↦ elim (Option-cases (w2.charts (w2.nodes p).chart).agent) [
          | inl f ↦ rw (e, f, resume_owner) e2
          | inr (a, f) ↦
              rw (e, f, resume_owner) (core-start_event a p true w2 (index-core w2 w e2 h) ∙ e2)
        ]
      ]

  pub core-chart_return :
      (c : Ptr) (b : Bool) (w : World)
      → w.current_index ≡ i
      → core (chart_return flow c b w) ≡ core w
  unfolding core chart_return
  core-chart_return c b w h = elim (Option-cases (w.charts c).owner_node) [
    | inl e ↦ rw (e, chart_return) (core-stop_chart c w)
    | inr (p, e) ↦
        rw (e, chart_return)
          (core-stop_chart c (resume_owner flow p b w) ∙ core-resume_owner p b w h)
  ]

  core-launch :
      (a p : Ptr) (sync : Bool) (w : World)
      → w.current_index ≡ i
      → core (launch flow a p sync w) ≡ core w
  unfolding launch wait_start
  core-launch a p false w h = core-start_event a p false w h
  core-launch a p true w h =
      let w1 = (flow p w).0 in
      let e : core w1 ≡ core w = keeps p w h in
      elim (Bool-cases (flow p w).1) [
        | inl f ↦ rw (f, launch) e
        | inr f ↦ rw (f, launch) (core-start_event a p false w1 (index-core w1 w e h) ∙ e)
      ]

  pub core-start_chart :
      (a c : Ptr) (sync : Bool) (w : World)
      → w.current_index ≡ i
      → core (start_chart flow a c sync w).0 ≡ core w
  unfolding core start_chart
  core-start_chart a c sync w h = elim (Bool-cases (w.charts c).is_running) [
    | inl r ↦ rw (r, start_chart)
    | inr r ↦ elim (Option-cases (get_node c 0 w)) [
      | inl e ↦ rw (r, e, start_chart)
      | inr (p, e) ↦
          rw (r, e, start_chart)
            (core-launch a p sync
              (started_node (str_eq (data_of_chart c w).start_func_name "") p
                (modify_chart c (λ x. record x { is_running = true }) w))
              h)
    ]
  ]

  pub core-start_chart_named :
      (a : Ptr) (name : String) (w : World)
      → w.current_index ≡ i
      → core (start_chart_named flow a name w).0 ≡ core w
  unfolding core start_chart_named
  core-start_chart_named a name w h = elim (Option-cases (find_chart a name none w)) [
    | inl e ↦ rw (e, start_chart_named)
    | inr (c, e) ↦
        rw (e, start_chart_named) (ground (arith, core-start_chart a c (not w.defer_event) w h))
  ]

  core-start_if_stopped :
      (a c : Ptr) (w : World) → w.current_index ≡ i → core (start_if_stopped flow a c w) ≡ core w
  unfolding start_if_stopped
  core-start_if_stopped a c w h = ground (arith, core-start_chart a c (not w.defer_event) w h)

  core-start_charts :
      (a : Ptr) (name : String) (cs : List Ptr) (w : World)
      → w.current_index ≡ i
      → core (start_charts flow a name cs w).0 ≡ core w
  unfolding start_charts
  core-start_charts a name [] w h = refl
  core-start_charts a name (c ∷ cs) w h =
      let w1 = start_if_stopped flow a c w in
      let k : core w1 ≡ core w = core-start_if_stopped a c w h in
      elim (Bool-cases (iterators_kept a name w w1)) [
        | inl e ↦ rw (e, start_charts) (core-start_charts a name cs w1 (index-core w1 w k h) ∙ k)
        | inr e ↦ rw (e, start_charts) (core-fault_at w1 ∙ k)
      ]

  core-start_dict :
      (a : Ptr) (dict : List (String × List Ptr)) (w : World)
      → w.current_index ≡ i
      → core (start_dict flow a dict w) ≡ core w
  unfolding start_dict
  core-start_dict a [] w h = refl
  core-start_dict a ((name, cs) ∷ dict) w h =
      let r = start_charts flow a name (charts_named a name w) w in
      let k : core r.0 ≡ core w = core-start_charts a name (charts_named a name w) w h in
      elim (Bool-cases r.1) [
        | inl e ↦ rw (e, start_dict) (core-start_dict a dict r.0 (index-core r.0 w k h) ∙ k)
        | inr e ↦ rw (e, start_dict) k
      ]

  pub core-start_agent :
      (a : Ptr) (w : World) → w.current_index ≡ i → core (start_agent flow a w) ≡ core w
  unfolding start_agent
  core-start_agent a w h = core-start_dict a (w.agents a).chart_dict w h

  pub core-call_subchart :
      (name : String) (a : Option Ptr) (w : World)
      → w.current_index ≡ i
      → core (call_subchart flow name a w).0 ≡ core w
  unfolding core call_subchart
  core-call_subchart name none w h = refl
  core-call_subchart name (some a) w h = elim (Option-cases (get_current_node w)) [
    | inl e ↦ rw (e, call_subchart)
    | inr (p, e) ↦ elim (Option-cases (get_chart_data name w)) [
      | inl f ↦ rw (e, f, call_subchart)
      | inr (cd, f) ↦
          let w1 = (choose_subchart a p cd (w.nodes p).attacher w).0 in
          let k : core w1 ≡ core w = core-choose_subchart a p cd (w.nodes p).attacher w in
          elim (Option-cases (choose_subchart a p cd (w.nodes p).attacher w).1) [
            | inl g ↦ rw (e, f, g, call_subchart) k
            | inr (c, g) ↦
                rw (e, f, g, call_subchart)
                  (core-start_chart a c true (modify_node p (λ n. record n { status = running }) w1)
                      (index-core w1 w k h)
                    ∙ k)
          ]
    ]
  ]

  pub core-return_current :
      (b : Bool) (w : World) → w.current_index ≡ i → core (return_current flow b w) ≡ core w
  unfolding core return_current
  core-return_current b w h = elim (Option-cases (get_current_node w)) [
    | inl e ↦ rw (e, return_current)
    | inr (p, e) ↦ rw (e, return_current) (core-chart_return (w.nodes p).chart b w h)
  ]
