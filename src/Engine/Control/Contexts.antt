-- ===== src/Engine/Control/Contexts.antt =====
-- Manager::ContinueAsyncNode (src/core/manager.cpp), called again.
use asyncflow.Base.{
  true, false, ◌≡◌, some, arith, mem, mem-without, mem-append, Bool-cases, inl, inr, [], ◌∷◌,
}
use asyncflow.Engine.State.{Ptr, World, async_active}
use asyncflow.Engine.Containers.{push, leave_container, append_to, container_remove}
use asyncflow.Engine.Control.{continue_async_node, remove_async_node, activate_node, is_active}

-- A context that is not registered is refused, and nothing changes. One that is registered goes on:
-- its node is in the list of nodes that are ready and in that of waiting nodes no more, and it will
-- not run its function again. After either, the context is not registered, so a second call is
-- refused and changes nothing.
pub continue_async_node-once :
    (p : Ptr) (w : World)
    → let r = continue_async_node p w in
      (r.1 ≡ mem p w.nodes_set)
      × (continue_async_node p r.0 ≡ (r.0, false))
      × (mem p w.nodes_set ≡ false → r.0 ≡ w)
      × (mem p w.nodes_set ≡ true
          → (((r.0).nodes p).container ≡ some async_active)
            × (((r.0).nodes p).skip ≡ true)
            × (mem p (r.0).activate_nodes ≡ true)
            × (mem p (r.0).waiting_nodes ≡ false))
unfolding continue_async_node remove_async_node activate_node is_active push leave_container
    append_to container_remove
continue_async_node-once p w = elim (Bool-cases (mem p w.nodes_set)) [
  | inr e ↦ ground (arith, e)
  | inl e ↦ ground (
    arith,
    e,
    mem-without p p w.nodes_set,
    mem-without p p w.waiting_nodes,
    mem-append p w.activate_nodes (p ∷ []),
  )
]
