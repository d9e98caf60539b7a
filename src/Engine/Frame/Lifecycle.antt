-- ===== src/Engine/Frame/Lifecycle.antt =====
-- The core of the manager (Frame/Core) under the operations of src/core/node.cpp and src/core/chart.cpp.
use asyncflow.Base.{ℕ, zero, suc, ◌∙◌, arith, ◌≡◌, refl, List, [], ◌∷◌}
use asyncflow.Engine.State.{
  Ptr, Attacher, detached, timer, subchart, wait_all, World, modify_node, modify_chart,
}
use asyncflow.Engine.Lifecycle.{
  stop_attacher, stop_node_with, stop_nodes_with, stop_chart_fuel, stop_chart, stop_node,
  erase_chart, delete_attacher, set_attacher_with, delete_nodes_with, delete_chart_fuel,
  check_executed, delete_chart, leave_agent, leave_owner, set_attacher, idle_node,
}
use asyncflow.Engine.Frame.Core.{core, core-leave_container}

module _ (sub : Ptr → World → World) (keeps : (c : Ptr) (w : World) → core (sub c w) ≡ core w) where
  core-stop_attacher :
      (p : Ptr) (a : Attacher) (w : World) → core (stop_attacher sub p a w) ≡ core w
  unfolding core stop_attacher
  core-stop_attacher p detached w = refl
  core-stop_attacher p (timer ms) w = refl
  core-stop_attacher p (subchart c) w = keeps c w
  core-stop_attacher p (wait_all ids) w = refl

  pub core-stop_node_with : (p : Ptr) (w : World) → core (stop_node_with sub p w) ≡ core w
  unfolding core stop_node_with
  core-stop_node_with p w =
      core-leave_container p (
        stop_attacher sub p ((modify_node p idle_node w).nodes p).attacher
          (modify_node p idle_node w))
      ∙ core-stop_attacher p ((modify_node p idle_node w).nodes p).attacher
          (modify_node p idle_node w)

  core-stop_nodes_with : (ps : List Ptr) (w : World) → core (stop_nodes_with sub ps w) ≡ core w
  unfolding stop_nodes_with
  core-stop_nodes_with [] w = refl
  core-stop_nodes_with (p ∷ ps) w =
      core-stop_nodes_with ps (stop_node_with sub p w) ∙ core-stop_node_with p w

  core-delete_attacher :
      (p : Ptr) (a : Attacher) (w : World) → core (delete_attacher sub p a w) ≡ core w
  unfolding core delete_attacher
  core-delete_attacher p detached w = refl
  core-delete_attacher p (timer ms) w = refl
  core-delete_attacher p (subchart c) w = keeps c w
  core-delete_attacher p (wait_all ids) w = refl

  core-set_attacher_with :
      (a : Attacher) (p : Ptr) (w : World) → core (set_attacher_with sub a p w) ≡ core w
  unfolding core set_attacher_with
  core-set_attacher_with a p w = core-delete_attacher p (w.nodes p).attacher w

core-stop_chart_fuel : (k : ℕ) (c : Ptr) (w : World) → core (stop_chart_fuel k c w) ≡ core w
unfolding core stop_chart_fuel
core-stop_chart_fuel zero c w = refl
core-stop_chart_fuel (suc k) c w =
    core-stop_nodes_with (stop_chart_fuel k) (core-stop_chart_fuel k) (w.charts c).node_list w

pub core-stop_chart : (c : Ptr) (w : World) → core (stop_chart c w) ≡ core w
unfolding stop_chart
core-stop_chart c w = core-stop_chart_fuel w.next_chart c w

pub core-stop_node : (p : Ptr) (w : World) → core (stop_node p w) ≡ core w
unfolding stop_node
core-stop_node p w = core-stop_node_with stop_chart core-stop_chart p w

core-delete_nodes_with :
    (sub : Ptr → World → World) (keeps : (c : Ptr) (w : World) → core (sub c w) ≡ core w)
    (ps : List Ptr) (w : World)
    → core (delete_nodes_with sub ps w) ≡ core w
unfolding delete_nodes_with
core-delete_nodes_with sub keeps [] w = refl
core-delete_nodes_with sub keeps (p ∷ ps) w =
    core-delete_nodes_with sub keeps ps (set_attacher_with sub detached p (stop_node p w))
    ∙ core-set_attacher_with sub keeps detached p (stop_node p w)
    ∙ core-stop_node p w

core-leave_agent : (c : Ptr) (w : World) → core (leave_agent c w) ≡ core w
unfolding core leave_agent erase_chart
core-leave_agent c w = ground arith

core-leave_owner : (c : Ptr) (w : World) → core (leave_owner c w) ≡ core w
unfolding core leave_owner
core-leave_owner c w = ground arith

core-check_executed : (c : Ptr) (w : World) → core (check_executed c w) ≡ core w
unfolding core check_executed
core-check_executed c w = ground arith

core-delete_chart_fuel : (k : ℕ) (c : Ptr) (w : World) → core (delete_chart_fuel k c w) ≡ core w
unfolding core delete_chart_fuel
core-delete_chart_fuel zero c w = refl
core-delete_chart_fuel (suc k) c w =
    let w0 = check_executed c w in
    let ps = (w0.charts c).node_list in
    let w1 = delete_nodes_with (delete_chart_fuel k) ps w0 in
    let w2 = modify_chart c (λ x. record x { node_list = [] }) w1 in
    core-leave_owner c (leave_agent c w2)
    ∙ core-leave_agent c w2
    ∙ core-delete_nodes_with (delete_chart_fuel k) (core-delete_chart_fuel k) ps w0
    ∙ core-check_executed c w

pub core-delete_chart : (c : Ptr) (w : World) → core (delete_chart c w) ≡ core w
unfolding delete_chart
core-delete_chart c w = core-delete_chart_fuel w.next_chart c w

pub core-set_attacher : (a : Attacher) (p : Ptr) (w : World) → core (set_attacher a p w) ≡ core w
unfolding set_attacher
core-set_attacher a p w = core-set_attacher_with delete_chart core-delete_chart a p w
