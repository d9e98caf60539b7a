-- ===== src/Engine/Containers.antt =====
-- src/core/custom_struct.cpp, and the container methods of src/core/executor.cpp. A node has one
-- link field, so `LinkedList::remove` takes it out of whichever linked list it is in: `swap` leaves
-- nodes in another list than the one that their container names.
use asyncflow.Base.{
  ◌+◌, false, ℕ, Bool, Option, none, some, [], ◌∷◌, ◌++◌, ◌==◌, if◌then◌else◌, update, without,
}
use asyncflow.Engine.State.{
  Ptr, Container, linked, executor, async_waiting, async_active, World, modify_node,
  modify_executor, fault_at,
}

abbrev pub set_container : Option Container → Ptr → World → World
set_container c p w = modify_node p (λ n. record n { container = c }) w

abbrev pub unlink : Ptr → World → World
unlink p w = record w { lists = λ l. without p (w.lists l) }

-- INodeContainer::Remove, at each implementation.
unfoldable pub container_remove : Container → Ptr → World → World
container_remove (linked l) p w = set_container none p (unlink p w)
container_remove (executor i) p w =
    set_container none p (modify_executor i (λ e. record e { node_list = without p e.node_list }) w)
container_remove async_waiting p w =
    set_container none p (record w { waiting_nodes = without p w.waiting_nodes })
container_remove async_active p w =
    set_container none p (record w { activate_nodes = without p w.activate_nodes })

unfoldable pub leave_container : Ptr → World → World
leave_container p w = elim (w.nodes p).container [ none ↦ w | some c ↦ container_remove c p w ]

-- The insertion at the back that each Push ends with.
unfoldable pub append_to : Container → Ptr → World → World
append_to (linked l) p w = record w { lists = update w.lists l (w.lists l ++ p ∷ []) }
append_to (executor i) p w = modify_executor i (λ e. record e { node_list = p ∷ e.node_list }) w
append_to async_waiting p w = record w { waiting_nodes = w.waiting_nodes ++ p ∷ [] }
append_to async_active p w = record w { activate_nodes = w.activate_nodes ++ p ∷ [] }

-- INodeContainer::Push, at each implementation.
unfoldable pub push : Container → Ptr → World → World
push c p w = set_container (some c) p (append_to c p (leave_container p w))

-- NodeLinkedList::Pop; of an empty list it dereferences null.
unfoldable pub list_pop : ℕ → World → World × Option Ptr
list_pop l w = elim (w.lists l) [
  | [] ↦ (fault_at w, none)
  | p ∷ rest ↦ (set_container none p (record w { lists = update w.lists l rest }), some p)
]

-- NodeLinkedList swapped with a new, empty one: the new list has the nodes.
unfoldable pub list_swap_out : ℕ → World → World × ℕ
list_swap_out l w = (
  record w {
    lists = update (update w.lists w.next_list (w.lists l)) l [];
    next_list = w.next_list + 1;
  },
  w.next_list,
)

-- _NodeList::Pop of the nodes that are ready to go on.
unfoldable pub active_pop : World → World × Option Ptr
active_pop w = elim w.activate_nodes [
  | [] ↦ (fault_at w, none)
  | p ∷ rest ↦ (set_container none p (record w { activate_nodes = rest }), some p)
]

-- The test of DfsExecutor::Pop and of RunFlow, `node->GetContainer() == this`.
unfoldable pub in_executor : ℕ → Ptr → World → Bool
in_executor i p w = elim (w.nodes p).container [ some (executor j) ↦ j == i | _ ↦ false ]

-- DfsExecutor::Pop; of an empty vector it reads out of bounds.
unfoldable pub executor_pop : ℕ → World → World × Option Ptr
executor_pop i w = elim (w.executors i).node_list [
  | [] ↦ (fault_at w, none)
  | p ∷ rest ↦
      let w' =
        modify_executor i (λ e. record e { history_nodes = p ∷ e.history_nodes; node_list = rest })
          w in
      (if in_executor i p w' then set_container none p w' else w', some p)
]

-- DfsExecutor::Remove, which the stack of executors passes to the current one.
unfoldable pub executor_remove : Ptr → World → World
executor_remove p w = container_remove (executor w.current_index) p w
