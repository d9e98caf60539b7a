-- ===== src/Engine/Run/Queue.antt =====
-- The order of the queue of events (include/core/event_queue.h).
use asyncflow.Base.{
  ℕ, zero, suc, ◌≡◌, refl, sym, ◌∙◌, ap, true, false, Option, some, none, List, [], ◌∷◌, ◌++◌,
  length,
}
use mathlib.Core.List.{append-nil, append_assoc}
use asyncflow.Engine.State.{World, AsyncEvent}
use asyncflow.Engine.Run.Events.{add_event}
use asyncflow.Engine.Step.{next_event, switch}

-- Events raised one after the other, to be handled in the next step.
abbrev pub post : List AsyncEvent → World → World
post [] w = w
post (ev ∷ evs) w = post evs (add_event ev false w)

-- What the next calls of NextEvent return.
abbrev pub take_events : ℕ → World → List (Option AsyncEvent)
take_events zero w = []
take_events (suc k) w = let r = next_event w in r.1 ∷ take_events k r.0

abbrev pub somes : List AsyncEvent → List (Option AsyncEvent)
somes [] = none ∷ []
somes (ev ∷ evs) = some ev ∷ somes evs

take_events-somes :
    (evs : List AsyncEvent) (w : World)
    → w.out_event_list ≡ evs
    → take_events (suc (length evs)) w ≡ somes evs
unfolding next_event
take_events-somes [] w h = rw h refl
take_events-somes (ev ∷ evs) w h =
    rw h (ap (λ l. some ev ∷ l) (take_events-somes evs (record w { out_event_list = evs }) refl))

post-lists :
    (evs : List AsyncEvent) (w : World)
    → ((post evs w).in_event_list ≡ w.in_event_list ++ evs)
      × ((post evs w).out_event_list ≡ w.out_event_list)
unfolding add_event
post-lists [] w = (sym (append-nil w.in_event_list), refl)
post-lists (ev ∷ evs) w =
    let rest = post-lists evs (add_event ev false w) in
    (rest.0 ∙ append_assoc w.in_event_list (ev ∷ []) evs, rest.1)

-- If the queue for the next step is empty, events that are raised for it come out after the switch
-- of the two queues, in the order in which they were raised, and then no more; one that is raised
-- meanwhile to be handled at once comes out before them. Those that were left over are kept for the
-- step after.
pub take_events-post :
    (later : List AsyncEvent) (urgent : AsyncEvent) (w : World)
    → w.in_event_list ≡ []
    → let w' = add_event urgent true (switch (post later w)) in
      (take_events (suc (suc (length later))) w' ≡ some urgent ∷ somes later)
      × (w'.in_event_list ≡ w.out_event_list)
unfolding add_event switch
take_events-post later urgent w h =
    let lists = post-lists later w in
    (
      take_events-somes (urgent ∷ later) (add_event urgent true (switch (post later w)))
          (ap (λ l. urgent ∷ l) (lists.0 ∙ ap (λ l. l ++ later) h)),
      lists.1,
    )
