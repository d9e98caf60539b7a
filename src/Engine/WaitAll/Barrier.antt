-- ===== src/Engine/WaitAll/Barrier.antt =====
-- The barrier NodeWaitAll (src/core/node_timer.cpp) after a number of arrivals.
use asyncflow.Base.{
  ℕ, Bool, true, false, ◌||◌, ◌&&◌, ◌≡◌, refl, sym, ap, ◌∙◌, inl, inr, none, some, List, [], ◌∷◌,
  arith, if◌then◌else◌, mem, Bool-cases, eqb→eq,
}
use asyncflow.Engine.Lifecycle.{reset_ids}
use asyncflow.Engine.WaitAll.Defs.{
  has_id, emplace_ids, init_ids, mark_id, all_marked, run_known, run_wait_all,
}

-- The flags of a barrier where the ids of `seen` have come.
abbrev pub marked_by : List ℕ → List (ℕ × Bool) → List (ℕ × Bool)
marked_by seen [] = []
marked_by seen ((i, b) ∷ ids) = (i, mem i seen) ∷ marked_by seen ids

-- Every id of the barrier is in `seen`.
abbrev pub covers : List ℕ → List (ℕ × Bool) → Bool
covers seen [] = true
covers seen ((i, b) ∷ ids) = mem i seen && covers seen ids

has_id-marked_by :
    (id : ℕ) (seen : List ℕ) (ids : List (ℕ × Bool))
    → has_id id (marked_by seen ids) ≡ has_id id ids
unfolding has_id
has_id-marked_by id seen [] = refl
has_id-marked_by id seen ((i, b) ∷ ids) = rw (has_id-marked_by id seen ids)

mark_id-marked_by :
    (id : ℕ) (seen : List ℕ) (ids : List (ℕ × Bool))
    → mark_id id (marked_by seen ids) ≡ marked_by (id ∷ seen) ids
unfolding mark_id
mark_id-marked_by id seen [] = refl
mark_id-marked_by id seen ((i, b) ∷ ids) = ground (arith, mark_id-marked_by id seen ids)

all_marked-marked_by :
    (seen : List ℕ) (ids : List (ℕ × Bool)) → all_marked (marked_by seen ids) ≡ covers seen ids
unfolding all_marked
all_marked-marked_by seen [] = refl
all_marked-marked_by seen ((i, b) ∷ ids) = rw (all_marked-marked_by seen ids)

reset_ids-marked_by :
    (seen : List ℕ) (ids : List (ℕ × Bool)) → reset_ids (marked_by seen ids) ≡ marked_by [] ids
unfolding reset_ids
reset_ids-marked_by seen [] = refl
reset_ids-marked_by seen ((i, b) ∷ ids) = rw (reset_ids-marked_by seen ids)

-- A run of a barrier where the ids of `seen` have come: a known id joins them; if it was the last to
-- come, the run succeeds and the barrier starts afresh, and otherwise it fails. An unknown id, and a
-- node without predecessor, fail and change nothing.
run_wait_all-marked_by :
    (id : ℕ) (seen : List ℕ) (ids : List (ℕ × Bool))
    → (run_wait_all (some id) (marked_by seen ids) ≡ (
        if has_id id ids
        then (if covers (id ∷ seen) ids
            then (marked_by [] ids, true)
            else (marked_by (id ∷ seen) ids, false))
        else (marked_by seen ids, false)))
      × (run_wait_all none (marked_by seen ids) ≡ (marked_by seen ids, false))
unfolding run_wait_all run_known
run_wait_all-marked_by id seen ids = (
  rw (
    has_id-marked_by id seen ids,
    mark_id-marked_by id seen ids,
    all_marked-marked_by (id ∷ seen) ids,
    reset_ids-marked_by (id ∷ seen) ids,
  ),
  refl,
)

marked_by_unknown :
    (id : ℕ) (seen : List ℕ) (ids : List (ℕ × Bool))
    → has_id id ids ≡ false
    → marked_by (id ∷ seen) ids ≡ marked_by seen ids
unfolding has_id
marked_by_unknown id seen [] h = refl
marked_by_unknown id seen ((i, b) ∷ ids) h = ground (arith, marked_by_unknown id seen ids)

covers-has_id :
    (a : ℕ) (seen : List ℕ) (ids : List (ℕ × Bool))
    → has_id a ids ≡ true
    → covers seen ids ≡ true
    → mem a seen ≡ true
unfolding has_id
covers-has_id a seen [] h c = cc
covers-has_id a seen ((i, b) ∷ ids) h c = ground (arith, covers-has_id a seen ids)

-- Every element of the second list is in the first.
abbrev pub includes : List ℕ → List ℕ → Bool
includes seen [] = true
includes seen (a ∷ args) = mem a seen && includes seen args

covers-emplace_ids :
    (seen args : List ℕ) (ids : List (ℕ × Bool))
    → covers seen (emplace_ids args ids) ≡ (includes seen args && covers seen ids)
unfolding emplace_ids
covers-emplace_ids seen [] ids = refl
covers-emplace_ids seen (a ∷ args) ids = elim (Bool-cases (has_id a ids)) [
  | inl e ↦
      rw (e, emplace_ids)
        (ground (arith, covers-emplace_ids seen args ids, covers-has_id a seen ids))
  | inr e ↦ rw (e, emplace_ids) (ground (arith, covers-emplace_ids seen args ((a, false) ∷ ids)))
]

has_id-emplace_ids :
    (id : ℕ) (args : List ℕ) (ids : List (ℕ × Bool))
    → has_id id (emplace_ids args ids) ≡ (mem id args || has_id id ids)
unfolding emplace_ids has_id
has_id-emplace_ids id [] ids = refl
has_id-emplace_ids id (a ∷ args) ids = elim (Bool-cases (has_id a ids)) [
  | inl e ↦ rw (e, emplace_ids) (ground (arith, has_id-emplace_ids id args ids, eqb→eq a id))
  | inr e ↦ rw (e, emplace_ids) (ground (arith, has_id-emplace_ids id args ((a, false) ∷ ids)))
]

-- The ids that have come, the latest first, through NodeWaitAll::Run.
abbrev pub arrivals : List ℕ → List (ℕ × Bool) → List (ℕ × Bool)
arrivals [] ids = ids
arrivals (id ∷ seen) ids = (run_wait_all (some id) (arrivals seen ids)).0

marked_by-emplace_ids :
    (args : List ℕ) (ids : List (ℕ × Bool))
    → marked_by [] ids ≡ ids
    → marked_by [] (emplace_ids args ids) ≡ emplace_ids args ids
unfolding emplace_ids
marked_by-emplace_ids [] ids h = h
marked_by-emplace_ids (a ∷ args) ids h = elim (Bool-cases (has_id a ids)) [
  | inl e ↦ rw (e, emplace_ids) (marked_by-emplace_ids args ids h)
  | inr e ↦ rw (e, emplace_ids) (marked_by-emplace_ids args ((a, false) ∷ ids) (rw h))
]

module _ (args : List ℕ) where
  marked_by-init_ids : marked_by [] (init_ids args) ≡ init_ids args
  unfolding init_ids
  marked_by-init_ids = marked_by-emplace_ids args [] refl

  covers-init_ids : (seen : List ℕ) → covers seen (init_ids args) ≡ includes seen args
  unfolding init_ids
  covers-init_ids seen = ground (arith, covers-emplace_ids seen args [])

  has_id-init_ids : (id : ℕ) → has_id id (init_ids args) ≡ mem id args
  unfolding init_ids has_id
  has_id-init_ids id = ground (arith, has_id-emplace_ids id args [])

  includes_mono :
      (id : ℕ) (seen l : List ℕ) → includes (id ∷ seen) l ≡ false → includes seen l ≡ false
  includes_mono id seen [] h = h
  includes_mono id seen (a ∷ l) h = ground (arith, includes_mono id seen l)

  arrivals-marked_by :
      (seen : List ℕ)
      → includes seen args ≡ false
      → arrivals seen (init_ids args) ≡ marked_by seen (init_ids args)
  arrivals-marked_by [] h = sym marked_by-init_ids
  arrivals-marked_by (id ∷ seen) h =
      ap (λ r. (run_wait_all (some id) r).0)
        (arrivals-marked_by seen (includes_mono id seen args h))
      ∙ rw ((run_wait_all-marked_by id seen (init_ids args)).0, covers-init_ids (id ∷ seen), h)
          (elim (Bool-cases (has_id id (init_ids args))) [
            | inl e ↦ rw e
            | inr e ↦ rw e (sym (marked_by_unknown id seen (init_ids args) e))
          ])

  -- In a barrier on `args` where the ids of `seen` have come and do not complete it, each id is
  -- flagged exactly if it has come. The next id completes the barrier if it is the last of the
  -- barrier's ids: the run succeeds, and the barrier is as at first. If it is not the last the run
  -- fails and the id is flagged; one that is not of the barrier fails and changes nothing.
  pub run_wait_all-arrivals :
      (seen : List ℕ) (id : ℕ)
      → includes seen args ≡ false
      → (arrivals seen (init_ids args) ≡ marked_by seen (init_ids args))
        × (run_wait_all (some id) (arrivals seen (init_ids args)) ≡ (
            if mem id args
            then (if includes (id ∷ seen) args
                then (init_ids args, true)
                else (marked_by (id ∷ seen) (init_ids args), false))
            else (marked_by seen (init_ids args), false)))
  run_wait_all-arrivals seen id h = (
    arrivals-marked_by seen h,
    rw (
      arrivals-marked_by seen h,
      (run_wait_all-marked_by id seen (init_ids args)).0,
      covers-init_ids (id ∷ seen),
      has_id-init_ids id,
      marked_by-init_ids,
    ),
  )
