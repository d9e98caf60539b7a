-- ===== src/Engine/Frame/Agents.antt =====
-- The core of the manager (Frame/Core) under the operations of src/core/agent.cpp.
use asyncflow.Engine.Agents.Defs.{
  register_game_object, register_agent, get_agent, create_agent, add_agent, start_agent_timer,
  set_tick_interval,
}
use asyncflow.Base.{
  ℕ, ◌+◌, String, Bool, ◌≡◌, refl, ◌∙◌, Option, none, some, List, [], ◌∷◌, arith, inl, inr,
  Option-cases, Bool-cases, update,
}
use asyncflow.ChartData.{NodeData}
use asyncflow.Engine.State.{Ptr, World, linked, new_node, modify_agent}
use asyncflow.Engine.Lifecycle.{stop_chart, find_chart}
use asyncflow.Engine.Agents.{
  get_wait_nodes, create_wait_nodes, wait_event, create_nodes, create_chart, add_chart,
  attach_chart_data, attach_chart, remove_chart, stop_chart_named, stop_charts, stop_dict,
  stop_agent, unregister_agent, add_dying_agent, unregister_game_object, get_chart_data,
}
use asyncflow.Engine.Frame.Core.{core, core-push}
use asyncflow.Engine.Frame.Lifecycle.{core-stop_chart, core-delete_chart}

pub core-get_wait_nodes :
    (a : Ptr) (id : ℕ) (b : Bool) (w : World) → core (get_wait_nodes a id b w).0 ≡ core w
unfolding core get_wait_nodes create_wait_nodes
core-get_wait_nodes a id b w = ground arith

pub core-wait_event : (a p : Ptr) (id : ℕ) (w : World) → core (wait_event a p id w) ≡ core w
unfolding core wait_event
core-wait_event a p id w = elim (Option-cases (get_wait_nodes a id Bool.true w).1) [
  | inl e ↦ rw (e, wait_event) (core-get_wait_nodes a id Bool.true w)
  | inr (l, e) ↦
      rw (e, wait_event)
        (core-push (linked l) p (get_wait_nodes a id Bool.true w).0
          ∙ core-get_wait_nodes a id Bool.true w)
]

core-create_nodes :
    (c : Ptr) (i : ℕ) (ds : List NodeData) (w : World) → core (create_nodes c i ds w).0 ≡ core w
unfolding core create_nodes
core-create_nodes c i [] w = refl
core-create_nodes c i (d ∷ ds) w = core-create_nodes c (i + 1) ds (record w {
  nodes = update w.nodes w.next_node (new_node c i d.node_id);
  next_node = w.next_node + 1;
})

pub core-create_chart :
    (cd : Ptr) (owner : Option Ptr) (w : World) → core (create_chart cd owner w).0 ≡ core w
unfolding core create_chart
core-create_chart cd owner w =
    core-create_nodes w.next_chart 0 (w.chart_datas cd).node_list
      (record w { next_chart = w.next_chart + 1 })

pub core-add_chart :
    (a c : Ptr) (owner : Option Ptr) (w : World) → core (add_chart a c owner w).0 ≡ core w
unfolding core add_chart
core-add_chart a c owner w = ground arith

pub core-attach_chart_data : (a cd : Ptr) (w : World) → core (attach_chart_data a cd w).0 ≡ core w
unfolding attach_chart_data
core-attach_chart_data a cd w =
    let w1 = (create_chart cd none w).0 in
    let c = (create_chart cd none w).1 in
    let w2 = (add_chart a c none w1).0 in
    let kept : core w2 ≡ core w = core-add_chart a c none w1 ∙ core-create_chart cd none w in
    elim (Bool-cases (add_chart a c none w1).1) [
      | inl e ↦ rw (e, attach_chart_data) kept
      | inr e ↦ rw (e, attach_chart_data) (core-delete_chart c w2 ∙ kept)
    ]

pub core-attach_chart :
    (a : Ptr) (name : String) (w : World) → core (attach_chart a name w).0 ≡ core w
unfolding attach_chart
core-attach_chart a name w = elim (Option-cases (get_chart_data name w)) [
  | inl e ↦ rw (e, attach_chart)
  | inr (cd, e) ↦ rw (e, attach_chart) (core-attach_chart_data a cd w)
]

pub core-remove_chart :
    (a : Ptr) (name : String) (w : World) → core (remove_chart a name w).0 ≡ core w
unfolding remove_chart
core-remove_chart a name w = elim (Option-cases (find_chart a name none w)) [
  | inl e ↦ rw (e, remove_chart)
  | inr (c, e) ↦ rw (e, remove_chart) (core-delete_chart c w)
]

pub core-stop_chart_named :
    (a : Ptr) (name : String) (w : World) → core (stop_chart_named a name w).0 ≡ core w
unfolding stop_chart_named
core-stop_chart_named a name w = elim (Option-cases (find_chart a name none w)) [
  | inl e ↦ rw (e, stop_chart_named)
  | inr (c, e) ↦ rw (e, stop_chart_named) (core-stop_chart c w)
]

core-stop_charts : (cs : List Ptr) (w : World) → core (stop_charts cs w) ≡ core w
unfolding stop_charts
core-stop_charts [] w = refl
core-stop_charts (c ∷ cs) w = core-stop_charts cs (stop_chart c w) ∙ core-stop_chart c w

core-stop_dict : (dict : List (String × List Ptr)) (w : World) → core (stop_dict dict w) ≡ core w
unfolding stop_dict
core-stop_dict [] w = refl
core-stop_dict ((name, cs) ∷ dict) w =
    core-stop_dict dict (stop_charts cs w) ∙ core-stop_charts cs w

pub core-stop_agent : (a : Ptr) (w : World) → core (stop_agent a w) ≡ core w
unfolding stop_agent
core-stop_agent a w = core-stop_dict (w.agents a).chart_dict w

pub core-unregister_game_object :
    (a : Option Ptr) (w : World) → core (unregister_game_object a w).0 ≡ core w
unfolding core unregister_game_object unregister_agent add_dying_agent
core-unregister_game_object none w = refl
core-unregister_game_object (some a) w =
    ground
      (arith, core-stop_agent a (modify_agent a (λ x. record x { is_destroying = Bool.true }) w))

pub core-register_game_object :
    (game_object tick : ℕ) (w : World) → core (register_game_object game_object tick w).0 ≡ core w
unfolding core register_game_object register_agent get_agent create_agent add_agent
    start_agent_timer set_tick_interval
core-register_game_object game_object tick w = ground arith
