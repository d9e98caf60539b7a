-- ===== src/Engine/Frame/Core.antt =====
-- The core of the manager: the fields of its state that node functions have no call for, and those
-- that nest with the flows.
use asyncflow.Base.{ℕ, ◌≡◌, refl, ◌∙◌, Bool, List, arith}
use asyncflow.Engine.State.{Ptr, World, Container, linked, executor, async_waiting, async_active}
use asyncflow.Engine.Containers.{
  container_remove, leave_container, append_to, push, executor_pop, list_pop, active_pop,
  executor_remove,
}

pub record Core : Type 0 where
  pub current_index : ℕ
  pub current_event_frame : ℕ
  pub event_info_list : List ℕ
  pub current_frame : ℕ
  pub in_step : Bool
  pub defer_event : Bool
  pub default_time_interval : ℕ
  pub node_stop_when_error : Bool
  pub overrun : Bool

unfoldable pub core : World → Core
core w = record {
  current_index = w.current_index;
  current_event_frame = w.current_event_frame;
  event_info_list = w.event_info_list;
  current_frame = w.current_frame;
  in_step = w.in_step;
  defer_event = w.defer_event;
  default_time_interval = w.default_time_interval;
  node_stop_when_error = w.node_stop_when_error;
  overrun = w.overrun;
}

pub core-container_remove :
    (c : Container) (p : Ptr) (w : World) → core (container_remove c p w) ≡ core w
unfolding core container_remove
core-container_remove (linked l) p w = refl
core-container_remove (executor i) p w = refl
core-container_remove async_waiting p w = refl
core-container_remove async_active p w = refl

pub core-leave_container : (p : Ptr) (w : World) → core (leave_container p w) ≡ core w
unfolding core leave_container container_remove
core-leave_container p w = ground arith

pub core-append_to : (c : Container) (p : Ptr) (w : World) → core (append_to c p w) ≡ core w
unfolding core append_to
core-append_to (linked l) p w = refl
core-append_to (executor i) p w = refl
core-append_to async_waiting p w = refl
core-append_to async_active p w = refl

pub core-push : (c : Container) (p : Ptr) (w : World) → core (push c p w) ≡ core w
unfolding core
core-push c p w = unfold push in core-append_to c p (leave_container p w) ∙ core-leave_container p w

pub core-executor_pop : (i : ℕ) (w : World) → core (executor_pop i w).0 ≡ core w
unfolding core executor_pop
core-executor_pop i w = ground arith

pub core-list_pop : (l : ℕ) (w : World) → core (list_pop l w).0 ≡ core w
unfolding core list_pop
core-list_pop l w = ground arith

pub core-active_pop : (w : World) → core (active_pop w).0 ≡ core w
unfolding core active_pop
core-active_pop w = ground arith

pub core-executor_remove : (p : Ptr) (w : World) → core (executor_remove p w) ≡ core w
unfolding core executor_remove container_remove
core-executor_remove p w = refl
