-- ===== src/Engine/Agents/Registry.antt =====
-- The registry of agents: BasicAgentManager and AgentManager (include/core/agent_manager.h), and
-- their end (Manager::UnregisterGameObject and DyingAgents).
use asyncflow.Base.{
  ℕ, ◌+◌, ◌≤◌, ◌<◌, ◌≡◌, ◌≢◌, none, some, arith, lookup, lookup-insert, lookup-delete, Option-cases,
  inl, inr,
}
use asyncflow.Engine.State.{Ptr, World, new_manager}
use asyncflow.Engine.Agents.Defs.{
  get_agent, get_agent_by_id, create_agent, add_agent, register_agent, unregister_agent,
  start_agent_timer,
}

-- Both maps lead to agents that were created, and that are the ones registered under that key.
pub record IsRegistry (w : World) : Type 0 where
  pub by_id :
      (id a : ℕ)
      → lookup id w.agent_map ≡ some a
      → ((w.agents a).id ≡ id) × (a < w.next_agent) × (id ≤ w.agent_id_count)
  pub by_object :
      (o a : ℕ)
      → lookup o w.gameobject_map ≡ some a
      → ((w.agents a).game_object ≡ o) × (a < w.next_agent)
  pub both :
      (o a : ℕ) → lookup o w.gameobject_map ≡ some a → lookup (w.agents a).id w.agent_map ≡ some a
  pub back :
      (id a : ℕ)
      → lookup id w.agent_map ≡ some a
      → lookup (w.agents a).game_object w.gameobject_map ≡ some a

-- A new manager has no agents.
pub new_manager-IsRegistry : IsRegistry new_manager
unfolding new_manager lookup
new_manager-IsRegistry = record {
  by_id = λ id a h. absurd (cc);
  by_object = λ o a h. absurd (cc);
  both = λ o a h. absurd (cc);
  back = λ id a h. absurd (cc);
}

register_agent-IsRegistry : (o : ℕ) (w : World) → IsRegistry w → IsRegistry (register_agent o w).0
unfolding register_agent create_agent add_agent get_agent start_agent_timer
register_agent-IsRegistry o w v = elim (Option-cases (get_agent o w)) [
  | inr (a, e) ↦ rw (e, register_agent) v
  | inl e ↦
      rw (e, register_agent)
        (record {
          by_id = λ id a h. ground (
            arith,
            v.by_id id a,
            lookup-insert (w.agent_id_count + 1) id w.next_agent w.agent_map,
          );
          by_object = λ q a h.
              ground (arith, v.by_object q a, lookup-insert o q w.next_agent w.gameobject_map);
          both = λ q a h. ground (
            arith,
            v.by_object q a,
            v.both q a,
            v.by_id (w.agents a).id a,
            lookup-insert o q w.next_agent w.gameobject_map,
            lookup-insert (w.agent_id_count + 1) (w.agents a).id w.next_agent w.agent_map,
            lookup-insert (w.agent_id_count + 1) (w.agent_id_count + 1) w.next_agent w.agent_map,
          );
          back = λ id a h. ground (
            arith,
            v.by_id id a,
            v.back id a,
            lookup-insert (w.agent_id_count + 1) id w.next_agent w.agent_map,
            lookup-insert o (w.agents a).game_object w.next_agent w.gameobject_map,
            lookup-insert o o w.next_agent w.gameobject_map,
          );
        })
]

-- Registering an object keeps the registry consistent. Afterwards the object and the id of its agent
-- both lead to that agent; an object that has an agent keeps it and nothing changes, and no other
-- object or id is affected.
pub register_agent_lem :
    (o : ℕ) (w : World)
    → IsRegistry w
    → let r = register_agent o w in
      IsRegistry r.0
      × (get_agent o r.0 ≡ some r.1)
      × (get_agent_by_id ((r.0).agents r.1).id r.0 ≡ some r.1)
      × ((a : ℕ) → get_agent o w ≡ some a → r ≡ (w, a))
      × ((q a : ℕ) → get_agent q w ≡ some a → get_agent q r.0 ≡ some a)
      × ((id a : ℕ) → get_agent_by_id id w ≡ some a → get_agent_by_id id r.0 ≡ some a)
unfolding register_agent create_agent add_agent get_agent get_agent_by_id start_agent_timer
register_agent_lem o w v = elim (Option-cases (lookup o w.gameobject_map)) [
  | inr (a, e) ↦
      rw (e, register_agent) (v, e, v.both o a e, λ b f. ground arith, λ q b f. f, λ id b f. f)
  | inl e ↦ (
    register_agent-IsRegistry o w v,
    rw (e, register_agent) (ground (arith, lookup-insert o o w.next_agent w.gameobject_map)),
    rw (e, register_agent)
        (ground (
          arith,
          lookup-insert (w.agent_id_count + 1) (w.agent_id_count + 1) w.next_agent w.agent_map,
        )),
    λ b f. absurd (cc),
    λ q b f.
        rw (e, register_agent) (ground (arith, lookup-insert o q w.next_agent w.gameobject_map)),
    λ id b f.
        rw (e, register_agent)
          (ground (
            arith,
            v.by_id id b,
            lookup-insert (w.agent_id_count + 1) id w.next_agent w.agent_map,
          )),
  )
]

-- Taking a registered agent out keeps the registry consistent; its object and its id lead to no agent
-- any more, and every other object leads where it did.
pub unregister_agent_lem :
    (a : Ptr) (w : World)
    → IsRegistry w
    → lookup (w.agents a).game_object w.gameobject_map ≡ some a
    → let w' = unregister_agent a w in
      IsRegistry w'
      × (get_agent (w.agents a).game_object w' ≡ none)
      × (get_agent_by_id (w.agents a).id w' ≡ none)
      × ((q : ℕ) → q ≢ (w.agents a).game_object → get_agent q w' ≡ get_agent q w)
      × ((id : ℕ) → id ≢ (w.agents a).id → get_agent_by_id id w' ≡ get_agent_by_id id w)
unfolding unregister_agent get_agent get_agent_by_id
unregister_agent_lem a w v reg =
    let i = (w.agents a).id in
    let o = (w.agents a).game_object in
    (
      record {
        by_id = λ id b h. v.by_id id b (ground (arith, lookup-delete i id w.agent_map));
        by_object = λ q b h. v.by_object q b (ground (arith, lookup-delete o q w.gameobject_map));
        both = λ q b h. ground (
          arith,
          v.both q b,
          v.by_object q b,
          v.both o a reg,
          lookup-delete o q w.gameobject_map,
          lookup-delete i (w.agents b).id w.agent_map,
        );
        back = λ id b h. ground (
          arith,
          v.back id b,
          v.by_id id b,
          v.both o a reg,
          lookup-delete i id w.agent_map,
          lookup-delete o (w.agents b).game_object w.gameobject_map,
        );
      },
      ground (arith, lookup-delete o o w.gameobject_map),
      ground (arith, lookup-delete i i w.agent_map),
      λ q ne. ground (arith, lookup-delete o q w.gameobject_map),
      λ id ne. ground (arith, lookup-delete i id w.agent_map),
    )
