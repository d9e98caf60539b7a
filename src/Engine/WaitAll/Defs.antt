-- ===== src/Engine/WaitAll/Defs.antt =====
-- NodeWaitAll in src/core/node_timer.cpp: a barrier over the ids of the nodes to wait for. The map
-- from ids to flags is a list with one entry for an id.
use asyncflow.Base.{
  ℕ, Bool, true, false, Option, none, some, List, [], ◌∷◌, ◌==◌, ◌&&◌, ◌||◌, if◌then◌else◌,
}
use asyncflow.Engine.Lifecycle.{reset_ids}

unfoldable pub has_id : ℕ → List (ℕ × Bool) → Bool
has_id id [] = false
has_id id ((i, b) ∷ ids) = (i == id) || has_id id ids

-- `emplace`, which keeps an entry that is there.
unfoldable pub emplace_ids : List ℕ → List (ℕ × Bool) → List (ℕ × Bool)
emplace_ids [] ids = ids
emplace_ids (a ∷ args) ids = emplace_ids args (if has_id a ids then ids else (a, false) ∷ ids)

-- NodeWaitAll::Init
unfoldable pub init_ids : List ℕ → List (ℕ × Bool)
init_ids args = emplace_ids args []

unfoldable pub mark_id : ℕ → List (ℕ × Bool) → List (ℕ × Bool)
mark_id id [] = []
mark_id id ((i, b) ∷ ids) = (i, if i == id then true else b) ∷ mark_id id ids

unfoldable pub all_marked : List (ℕ × Bool) → Bool
all_marked [] = true
all_marked ((i, b) ∷ ids) = b && all_marked ids

unfoldable pub run_known : List (ℕ × Bool) → List (ℕ × Bool) × Bool
run_known ids = if all_marked ids then (reset_ids ids, true) else (ids, false)

-- NodeWaitAll::Run; `none` is the id -1 of a node with no predecessor.
unfoldable pub run_wait_all : Option ℕ → List (ℕ × Bool) → List (ℕ × Bool) × Bool
run_wait_all none ids = (ids, false)
run_wait_all (some id) ids = if has_id id ids then run_known (mark_id id ids) else (ids, false)
