-- ===== src/Engine/Run/Restart.antt =====
-- Manager::RestartChart (src/core/manager.cpp), over Manager::RunFlow, the parameter `flow`. The
-- loop is over the map of agents as it is: an agent that is removed before its turn is left out, and
-- an iterator that may be invalid, since an agent was registered or the current one removed, is a
-- fault that ends the loop.
use asyncflow.Engine.Run.Charts.{start_chart_named}
use asyncflow.Engine.Agents.Defs.{get_chart_data, remove_chart, attach_chart_data}
use asyncflow.Engine.Lifecycle.{find_chart}
use asyncflow.Engine.State.{Ptr, World, fault_at}
use asyncflow.Base.{◌∷◌, [], String, List, Option, none, ℕ, Bool, some, ◌==◌, true, false, lookup}

-- Whether the iterator at an agent is valid after its chart ran. Each registration takes a new id.
unfoldable pub iterator_kept : ℕ → World → World → Bool
iterator_kept id w w' = elim (lookup id w'.agent_map) [
  | none ↦ false
  | some _ ↦ w.agent_id_count == w'.agent_id_count
]

module _ (flow : Ptr → World → World × Bool) where
  -- The chart of one agent, if it has one of the name. Attaching a null chart data is undefined.
  unfoldable pub restart_of : String → Option Ptr → Ptr → World → World
  restart_of name cd a w = elim (find_chart a name none w) [
    | none ↦ w
    | some _ ↦ elim cd [
      | none ↦ fault_at (remove_chart a name w).0
      | some d ↦
          (start_chart_named flow a name (attach_chart_data a d (remove_chart a name w).0).0).0
    ]
  ]

  unfoldable pub restart_all : String → Option Ptr → List (ℕ × Ptr) → World → World
  restart_all name cd [] w = w
  restart_all name cd ((id, a) ∷ agents) w = elim (lookup id w.agent_map) [
    | none ↦ restart_all name cd agents w
    | some _ ↦
        let w1 = restart_of name cd a w in
        elim (iterator_kept id w w1) [ false ↦ fault_at w1 | true ↦ restart_all name cd agents w1 ]
  ]

  unfoldable pub restart_chart : String → World → World
  restart_chart name w = restart_all name (get_chart_data name w) w.agent_map w
