-- ===== src/Engine/Frame/Step.antt =====
-- The core of the manager (Frame/Core) under the operations of src/core/manager.cpp.
use asyncflow.Base.{
  ℕ, zero, suc, ◌+◌, String, true, false, ◌≡◌, refl, ap, ◌∙◌, Option, none, some, List, [], ◌∷◌,
  arith, inl, inr, Option-cases, Bool-cases, List-cases, length, reverse, ltb,
}
use asyncflow.Engine.State.{
  Ptr, World, Timer, node_timer, agent_timer, WheelCall, fired, advance, cancel, r_true, detached,
  modify_node, modify_agent, call_wheel,
}
use asyncflow.Engine.Containers.{active_pop}
use asyncflow.Engine.Lifecycle.{charts_named, delete_chart, set_attacher, stop_node}
use asyncflow.Engine.Agents.{start_agent_timer}
use asyncflow.Engine.Control.{remove_async_node}
use asyncflow.Engine.Run.Script.{Script}
use asyncflow.Engine.Run.Events.{handle_event}
use asyncflow.Engine.Run.Executor.{run_flow}
use asyncflow.Engine.Step.{
  release_nodes, release_lists, delete_named, delete_dict, delete_agent, delete_agents, dying_step,
  switch, next_event, execute, fire_timers, timer_step, resume_node, async_step, event_loop, step,
}
use asyncflow.Engine.Frame.Core.{Core, core, core-active_pop}
use asyncflow.Engine.Frame.Lifecycle.{core-delete_chart, core-set_attacher, core-stop_node}
use asyncflow.Engine.Frame.Control.{core-remove_async_node}
use asyncflow.Engine.Frame.Events.{index-core, core-event, core-handle_event}
use asyncflow.Engine.Frame.Executor.{core-run_flow}

core-release_nodes : (ps : List Ptr) (w : World) → core (release_nodes ps w) ≡ core w
unfolding core release_nodes
core-release_nodes [] w = refl
core-release_nodes (p ∷ ps) w =
    core-release_nodes ps (modify_node p (λ n. record n { container = none }) w)

core-release_lists : (dict : List (ℕ × ℕ)) (w : World) → core (release_lists dict w) ≡ core w
unfolding release_lists
core-release_lists [] w = refl
core-release_lists ((id, l) ∷ dict) w =
    core-release_lists dict (release_nodes (w.lists l) w) ∙ core-release_nodes (w.lists l) w

core-delete_named :
    (k : ℕ) (a : Ptr) (name : String) (w : World) → core (delete_named k a name w) ≡ core w
unfolding core delete_named
core-delete_named zero a name w = ground arith
core-delete_named (suc k) a name w = elim (List-cases (reverse (charts_named a name w))) [
  | inl e ↦ rw (e, delete_named)
  | inr (c, cs, e) ↦ elim (Option-cases (w.charts c).owner_node) [
    | inl f ↦
        rw (e, f, delete_named)
          (core-delete_named k a name (delete_chart c w) ∙ core-delete_chart c w)
    | inr (p, f) ↦
        rw (e, f, delete_named)
          (core-delete_named k a name (set_attacher detached p w) ∙ core-set_attacher detached p w)
  ]
]

core-delete_dict :
    (a : Ptr) (dict : List (String × List Ptr)) (w : World) → core (delete_dict a dict w) ≡ core w
unfolding delete_dict
core-delete_dict a [] w = refl
core-delete_dict a ((name, cs) ∷ dict) w =
    core-delete_dict a dict (delete_named (length (charts_named a name w)) a name w)
    ∙ core-delete_named (length (charts_named a name w)) a name w

core-delete_agent : (a : Ptr) (w : World) → core (delete_agent a w) ≡ core w
unfolding core delete_agent
core-delete_agent a w =
    let w0 = call_wheel (cancel (agent_timer a)) w in
    let dict = (w.agents a).waiting_nodes_dict in
    let w2 = modify_agent a (λ x. record x { waiting_nodes_dict = [] }) (release_lists dict w0) in
    core-delete_dict a (w2.agents a).chart_dict w2 ∙ core-release_lists dict w0

core-delete_agents : (as' : List Ptr) (w : World) → core (delete_agents as' w) ≡ core w
unfolding delete_agents
core-delete_agents [] w = refl
core-delete_agents (a ∷ as') w = core-delete_agents as' (delete_agent a w) ∙ core-delete_agent a w

core-dying_step : (w : World) → core (dying_step w) ≡ core w
unfolding core dying_step
core-dying_step w = core-delete_agents w.destroying_agents w

module _ (behaviour : ℕ → ℕ → Script) (due : List WheelCall → Option Timer) where
  flow_keeps :
      (p : Ptr) (w : World) → w.current_index ≡ 0 → core (run_flow behaviour p w).0 ≡ core w
  flow_keeps p w h = core-run_flow behaviour p w (omega arith)

  core-execute :
      (t : Timer) (w : World) → w.current_index ≡ 0 → core (execute behaviour due t w) ≡ core w
  unfolding core execute start_agent_timer
  core-execute (node_timer p) w h =
      flow_keeps p (modify_node p (λ n. record n { result = r_true }) w) h
  core-execute (agent_timer a) w h =
      ground (
        arith,
        core-event (run_flow behaviour) 0 flow_keeps w.tick_event (some a) 0 false false w h,
      )

  core-fire_timers :
      (k : ℕ) (w : World) → w.current_index ≡ 0 → core (fire_timers behaviour due k w) ≡ core w
  unfolding core fire_timers
  core-fire_timers zero w h = refl
  core-fire_timers (suc k) w h = elim (Option-cases (due w.wheel)) [
    | inl e ↦ rw (e, fire_timers)
    | inr (t, e) ↦
        let w1 = execute behaviour due t (call_wheel (fired t) w) in
        let k1 : core w1 ≡ core w = core-execute t (call_wheel (fired t) w) h in
        rw (e, fire_timers) (core-fire_timers k w1 (index-core w1 w k1 h) ∙ k1)
  ]

  core-timer_step :
      (k ms : ℕ) (w : World) → w.current_index ≡ 0 → core (timer_step behaviour due k ms w) ≡ core w
  unfolding core timer_step
  core-timer_step k ms w h = elim (Bool-cases (ltb 0 ms)) [
    | inl e ↦ rw (e, timer_step) (core-fire_timers k (call_wheel (advance ms) w) h)
    | inr e ↦ rw (e, timer_step)
  ]

  core-resume_node :
      (p : Ptr) (w : World) → w.current_index ≡ 0 → core (resume_node behaviour due p w) ≡ core w
  unfolding core resume_node
  core-resume_node p w h =
      let n0 = w.nodes p in
      let w1 =
        modify_node p (λ n. record n { skip = n0.skip; result = n0.result }) (stop_node p w) in
      let w2 = remove_async_node p w1 in
      let e : core w2 ≡ core w = core-remove_async_node p w1 ∙ core-stop_node p w in
      flow_keeps p w2 (index-core w2 w e h) ∙ e

  core-async_step :
      (k : ℕ) (w : World) → w.current_index ≡ 0 → core (async_step behaviour due k w) ≡ core w
  unfolding core async_step
  core-async_step zero w h = ground arith
  core-async_step (suc k) w h = elim (List-cases w.activate_nodes) [
    | inl e ↦ rw (e, async_step)
    | inr (p, ps, e) ↦
        let w1 = (active_pop w).0 in
        let e1 : core w1 ≡ core w = core-active_pop w in
        let w2 = resume_node behaviour due p w1 in
        let e2 : core w2 ≡ core w = core-resume_node p w1 (index-core w1 w e1 h) ∙ e1 in
        rw (e, async_step) (core-async_step k w2 (index-core w2 w e2 h) ∙ e2)
  ]

  core-event_loop :
      (k : ℕ) (w : World) → w.current_index ≡ 0 → core (event_loop behaviour due k w) ≡ core w
  unfolding core event_loop
  core-event_loop zero w h = ground arith
  core-event_loop (suc k) w h = elim (List-cases w.out_event_list) [
    | inl e ↦ rw (e, event_loop)
    | inr (ev, evs, e) ↦
        let w1 = (next_event w).0 in
        let e1 : core w1 ≡ core w = unfold next_event in ground arith in
        let w2 = handle_event (run_flow behaviour) ev w1 in
        let e2 : core w2 ≡ core w =
          core-handle_event (run_flow behaviour) 0 flow_keeps ev w1 (index-core w1 w e1 h) ∙ e1 in
        rw (e, event_loop) (core-event_loop k w2 (index-core w2 w e2 h) ∙ e2)
  ]

  -- A step that starts outside any flow, and whose node functions make calls of the type Call alone
  -- (no step, setup, exit or import_event), any of them in any order, leaves the executor stack empty, the nesting of triggered
  -- events, the declared events and the settings as they were, and the frame counter one higher; it
  -- ends out of the step, and the stack of executors that the model provides is enough for it.
  pub core-step :
      (fuel : ℕ) (ms : Option ℕ) (w : World)
      → w.current_index ≡ 0
      → core (step behaviour due fuel ms w)
        ≡ record (core w) { current_frame = w.current_frame + 1; in_step = false }
  unfolding core step switch
  core-step fuel ms w h =
      let t : ℕ = elim ms [ none ↦ w.default_time_interval | some n ↦ n ] in
      let w0 = record w { in_step = true } in
      let w1 = timer_step behaviour due fuel t w0 in
      let e1 : core w1 ≡ core w0 = core-timer_step fuel t w0 h in
      let w2 = async_step behaviour due fuel w1 in
      let e2 : core w2 ≡ core w0 = core-async_step fuel w1 (index-core w1 w0 e1 h) ∙ e1 in
      let w3 = event_loop behaviour due fuel (switch w2) in
      let e3 : core w3 ≡ core w0 = core-event_loop fuel (switch w2) (index-core w2 w0 e2 h) ∙ e2 in
      ap (λ (c : Core). record c { current_frame = c.current_frame + 1; in_step = false })
        (core-dying_step w3 ∙ e3)
