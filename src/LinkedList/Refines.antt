-- ===== src/LinkedList/Refines.antt =====
-- The operations of LinkedList beside those of a list of nodes.
use mathlib.Core.Path.{subst}
use asyncflow.LinkedList.Remove.{neighbours, without_absent, remove-IsRing}
use asyncflow.LinkedList.Insert.{
  SameOutside, push_front-IsRing, first, push_back-IsRing, next-first, IsRing-outside, Apart,
}
use asyncflow.LinkedList.{
  front, back, is_in_list, Links, empty, push_front, is_at, push_back, remove_safe, pop_front,
  pop_back, pop_at, remove,
}
use asyncflow.Base.{
  ◌≡◌, ◌∷◌, ◌++◌, arith, mem, true, ℕ, refl, none, some, List, Option, false, [], without, eqb→eq,
}
use Prim.Native.Nat.{ℕ}
use asyncflow.LinkedList.Chain.{Distinct, IsRing, last, mem-last, prev-last}

-- The calls of a client, on the list with a sentinel.
pub data Call : Type 0 where
  call_push_front : ℕ → Call
  call_push_back : ℕ → Call
  call_remove : ℕ → Call
  call_pop_front : Call
  call_pop_back : Call

unfoldable pub perform : ℕ → Call → Links → Option (Links × Option ℕ)
perform l (call_push_front node) h = elim (push_front l node h) [
  | none ↦ none
  | some h' ↦ some (h', none)
]
perform l (call_push_back node) h = elim (push_back l node h) [
  | none ↦ none
  | some h' ↦ some (h', none)
]
perform l (call_remove node) h = elim (remove_safe node h) [
  | none ↦ none
  | some h' ↦ some (h', none)
]
perform l call_pop_front h = pop_front l h
perform l call_pop_back h = pop_back l h

abbrev pub but_last : List ℕ → List ℕ
but_last [] = []
but_last (x ∷ []) = []
but_last (x ∷ y ∷ ys) = x ∷ but_last (y ∷ ys)

-- What the same call does to a list.
abbrev pub on_list : Call → List ℕ → List ℕ × Option ℕ
on_list (call_push_front node) xs = (node ∷ xs, none)
on_list (call_push_back node) xs = (xs ++ node ∷ [], none)
on_list (call_remove node) xs = (without node xs, none)
on_list call_pop_front [] = ([], none)
on_list call_pop_front (x ∷ xs) = (xs, some x)
on_list call_pop_back [] = ([], none)
on_list call_pop_back (x ∷ xs) = (but_last (x ∷ xs), some (last x xs))

-- A node that is pushed is in no list, and one that is removed is in this one.
abbrev pub Legal : ℕ → Call → List ℕ → Type 0
Legal l (call_push_front node) xs = mem node (l ∷ xs) ≡ false
Legal l (call_push_back node) xs = mem node (l ∷ xs) ≡ false
Legal l (call_remove node) xs = mem node xs ≡ true
Legal l call_pop_front xs = Unit
Legal l call_pop_back xs = Unit

-- The nodes whose pointers a call may write.
abbrev pub touched : ℕ → Call → List ℕ → List ℕ
touched l (call_push_front node) xs = node ∷ l ∷ xs
touched l (call_push_back node) xs = node ∷ l ∷ xs
touched l (call_remove node) xs = l ∷ xs
touched l call_pop_front xs = l ∷ xs
touched l call_pop_back xs = l ∷ xs

-- The call succeeds with the result of the list, leaves its ring, and no other pointer changes.
abbrev pub Implements : ℕ → Call → Links → List ℕ → Type 0
Implements l c h xs =
    (h' : Links) × (perform l c h ≡ some (h', (on_list c xs).1))
    × IsRing h' l (on_list c xs).0
    × SameOutside h h' (touched l c xs)

without-last :
    (a : ℕ) (xs : List ℕ) → Distinct (a ∷ xs) → without (last a xs) (a ∷ xs) ≡ but_last (a ∷ xs)
without-last a [] d = ground arith
without-last a (x ∷ xs) d =
    ground (arith, without-last x xs d.1, mem-last x xs, eqb→eq a (last x xs))

-- A linked node is seen as linked.
is_in_list_linked :
    (h : Links) (l node : ℕ) (xs : List ℕ)
    → IsRing h l xs
    → mem node xs ≡ true
    → is_in_list node h ≡ true
unfolding IsRing is_in_list
is_in_list_linked h l node xs r i =
    let (p, n, hp, hn, ip, in') = neighbours h node l xs l r.0 i in ground arith

empty-IsRing :
    (h : Links) (l : ℕ) (xs : List ℕ) → IsRing h l xs → empty l h ≡ is_at l (some (first xs l))
unfolding IsRing empty
empty-IsRing h l xs r = rw (next-first h l xs l r.0) refl

front-IsRing : (h : Links) (l x : ℕ) (xs : List ℕ) → IsRing h l (x ∷ xs) → front l h ≡ some x
unfolding IsRing front empty is_at
front-IsRing h l x xs r = ground arith

back-IsRing :
    (h : Links) (l x : ℕ) (xs : List ℕ) → IsRing h l (x ∷ xs) → back l h ≡ some (last x xs)
unfolding IsRing back empty is_at
back-IsRing h l x xs r = ground (arith, prev-last h l (x ∷ xs) l r.0)

-- A node of the list leaves it.
remove_implements :
    (h : Links) (l node : ℕ) (xs ys : List ℕ)
    → IsRing h l xs
    → mem node xs ≡ true
    → without node xs ≡ ys
    → (h' : Links) × (remove node h ≡ some h') × IsRing h' l ys × SameOutside h h' (l ∷ xs)
remove_implements h l node xs ys r i w =
    let (h', e, r', s, out) = remove-IsRing h l node xs r i in (h', e, subst (IsRing h' l) w r', s)

pop_implements :
    (h : Links) (l node : ℕ) (xs ys : List ℕ)
    → IsRing h l xs
    → mem node xs ≡ true
    → without node xs ≡ ys
    → (h' : Links) × (pop_at (some node) h ≡ some (h', some node))
      × IsRing h' l ys
      × SameOutside h h' (l ∷ xs)
unfolding pop_at
pop_implements h l node xs ys r i w =
    let (h', e, r', s) = remove_implements h l node xs ys r i w in (h', rw (e, pop_at) refl, r', s)

without-head : (x : ℕ) (xs : List ℕ) → mem x xs ≡ false → without x (x ∷ xs) ≡ xs
without-head x xs out = ground (arith, without_absent x xs out)

pub implements :
    (l : ℕ) (c : Call) (h : Links) (xs : List ℕ)
    → IsRing h l xs
    → Legal l c xs
    → Implements l c h xs
unfolding perform pop_front pop_back remove_safe IsRing front back empty is_at pop_at
implements l (call_push_front node) h xs r ok =
    let (h', e, r', s) = push_front-IsRing h l node xs r ok in (h', rw (e, perform) refl, r', s)
implements l (call_push_back node) h xs r ok =
    let (h', e, r', s) = push_back-IsRing h l node xs r ok in (h', rw (e, perform) refl, r', s)
implements l (call_remove node) h xs r ok =
    let (h', e, r', s) = remove_implements h l node xs (without node xs) r ok refl in
    (h', rw (is_in_list_linked h l node xs r ok, e, perform, remove_safe) refl, r', s)
implements l call_pop_front h [] r ok = (h, ground arith, r, λ p out. (refl, refl))
implements l call_pop_front h (x ∷ xs) r ok =
    let (h', e, r', s) =
      pop_implements h l x (x ∷ xs) xs r (ground arith) (without-head x xs r.1.1.0) in
    (h', rw (front-IsRing h l x xs r, perform, pop_front) e, r', s)
implements l call_pop_back h [] r ok = (h, ground arith, r, λ p out. (refl, refl))
implements l call_pop_back h (x ∷ xs) r ok =
    let (h', e, r', s) =
      pop_implements h l (last x xs) (x ∷ xs) (but_last (x ∷ xs)) r (mem-last x xs)
        (without-last x xs r.1.1) in
    (h', rw (back-IsRing h l x xs r, perform, pop_back) e, r', s)

-- A sequence of calls, with their results.
unfoldable pub perform_all : ℕ → List Call → Links → Option (Links × List (Option ℕ))
perform_all l [] h = some (h, [])
perform_all l (c ∷ cs) h = elim (perform l c h) [
  | none ↦ none
  | some (h', o) ↦ elim (perform_all l cs h') [ none ↦ none | some (h2, os) ↦ some (h2, o ∷ os) ]
]

abbrev pub all_on_list : List Call → List ℕ → List ℕ × List (Option ℕ)
all_on_list [] xs = (xs, [])
all_on_list (c ∷ cs) xs =
    ((all_on_list cs (on_list c xs).0).0, (on_list c xs).1 ∷ (all_on_list cs (on_list c xs).0).1)

abbrev pub AllLegal : ℕ → List Call → List ℕ → Type 0
AllLegal l [] xs = Unit
AllLegal l (c ∷ cs) xs = Legal l c xs × AllLegal l cs (on_list c xs).0

-- A ring whose nodes no call touches.
abbrev pub Untouched : ℕ → List Call → List ℕ → List ℕ → Type 0
Untouched l [] xs ms = Unit
Untouched l (c ∷ cs) xs ms = Apart ms (touched l c xs) × Untouched l cs (on_list c xs).0 ms

-- From a ring that holds the nodes xs, each sequence of calls in which a node that is pushed is not
-- in the list and a node that is removed is in it runs without a null pointer, gives the results
-- that the same calls give on the list xs, and ends in a ring that holds the list's nodes in order;
-- a ring of which these calls touch no node is still a ring of the same nodes.
pub perform_all-Refines :
    (l : ℕ) (cs : List Call) (h : Links) (xs : List ℕ) (m : ℕ) (ys : List ℕ)
    → IsRing h l xs
    → AllLegal l cs xs
    → IsRing h m ys
    → Untouched l cs xs (m ∷ ys)
    → (h' : Links) × (perform_all l cs h ≡ some (h', (all_on_list cs xs).1))
      × IsRing h' l (all_on_list cs xs).0
      × IsRing h' m ys
unfolding perform_all
perform_all-Refines l [] h xs m ys r ok q u = (h, refl, r, q)
perform_all-Refines l (c ∷ cs) h xs m ys r ok q u =
    let (h', e, r', s) = implements l c h xs r ok.0 in
    let (h2, e2, r2, q2) =
      perform_all-Refines l cs h' (on_list c xs).0 m ys r' ok.1
        (IsRing-outside h h' (touched l c xs) m ys s u.0 q) u.1 in
    (h2, rw (e, perform_all) (rw (e2, perform_all) refl), r2, q2)
