-- ===== src/Tests/Links.antt =====
-- The theorems on rings of nodes, at two lists with the sentinels 0 and 10.
use asyncflow.LinkedList.Loops.{size-clear_terminate}
use asyncflow.LinkedList.Refines.{
  perform_all, Call, perform_all-Refines, call_push_back, call_push_front, call_pop_back,
  call_remove, call_pop_front,
}
use asyncflow.LinkedList.Chain.{IsRing}
use asyncflow.LinkedList.{size, Links, clear, init}
use asyncflow.LinkedList.Insert.{Apart}
use asyncflow.Base.{
  ◌≡◌, ◌∷◌, ◌==◌, [], if◌then◌else◌, none, false, refl, some, List, arith, ℕ, mem, eqb→eq,
}

abbrev rings : Links
rings = init 10 (init 0 (record { prev = λ p. none; next = λ p. none }))

rings-IsRing : IsRing rings 0 [] × IsRing rings 10 []
unfolding IsRing init
rings-IsRing = (((refl, refl), (refl, tt)), ((refl, refl), (refl, tt)))

-- The nodes 2, 1, 3 are pushed; the last, then 1, then the first are taken away.
abbrev calls : List Call
calls =
    call_push_back 1
    ∷ call_push_front 2
    ∷ call_push_back 3
    ∷ call_pop_back
    ∷ call_remove 1
    ∷ call_pop_front
    ∷ call_pop_front
    ∷ []

no_ten : (xs : List ℕ) → mem 10 xs ≡ false → Apart (10 ∷ []) xs
no_ten xs out p i = ground (arith, out, i, eqb→eq 10 p)

perform_all-Refines_example :
    (h' : Links) × (perform_all 0 calls rings
      ≡ some (h', none ∷ none ∷ none ∷ some 3 ∷ none ∷ some 2 ∷ none ∷ []))
    × IsRing h' 0 []
    × IsRing h' 10 []
perform_all-Refines_example =
    perform_all-Refines 0 calls rings [] 10 [] rings-IsRing.0
      (refl, (refl, (refl, (tt, (refl, (tt, (tt, tt))))))) rings-IsRing.1
      (
        no_ten (1 ∷ 0 ∷ []) refl,
        (
          no_ten (2 ∷ 0 ∷ 1 ∷ []) refl,
          (
            no_ten (3 ∷ 0 ∷ 2 ∷ 1 ∷ []) refl,
            (
              no_ten (0 ∷ 2 ∷ 1 ∷ 3 ∷ []) refl,
              (
                no_ten (0 ∷ 2 ∷ 1 ∷ []) refl,
                (no_ten (0 ∷ 2 ∷ []) refl, (no_ten (0 ∷ []) refl, tt)),
              ),
            ),
          ),
        ),
      )

-- A ring of two nodes.
abbrev two : Links
two = record {
  prev = λ p. if p == 0 then some 6 else if p == 5 then some 0 else if p == 6 then some 5 else none;
  next = λ p. if p == 0 then some 5 else if p == 5 then some 6 else if p == 6 then some 0 else none;
}

two-IsRing : IsRing two 0 (5 ∷ 6 ∷ [])
unfolding IsRing
two-IsRing = ((refl, refl, (refl, refl, (refl, refl))), (refl, (refl, (refl, tt))))

size-clear_terminate_example :
    (size 2 0 two ≡ some 2)
    × ((h' : Links) × (clear 2 0 two ≡ some h')
        × ((p : ℕ)
            → (h'.next p ≡ (if mem p (5 ∷ 6 ∷ []) then none else two.next p))
              × (h'.prev p ≡ (if mem p (5 ∷ 6 ∷ []) then none else two.prev p))))
size-clear_terminate_example = size-clear_terminate 2 0 two (5 ∷ 6 ∷ []) two-IsRing (omega arith)
