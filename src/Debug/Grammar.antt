-- ===== src/Debug/Grammar.antt =====
-- What a sequence of calls of the writer must be to give one JSON text.
use asyncflow.Debug.{
  member_uint64, Token, member_string, array, object, write_string, member_int, end_array,
  end_object, write_bool, write_int, write_uint64, start_object, start_array,
}
use asyncflow.Base.{
  ◌≡◌, ◌∷◌, ◌++◌, [], refl, inr, none, some, arith, inl, List, String, Option, ℕ, ℤ, Option-cases,
}

-- Where a call stands: before or after the whole text, before a name or its value, in an array.
pub data Place : Type 0 where
  before after in_name in_value in_array : Place

-- The place after a value; a value cannot stand at every place.
abbrev pub after_value : Place → Option Place
after_value before = some after
after_value after = none
after_value in_name = none
after_value in_value = some in_name
after_value in_array = some in_array

abbrev pub put_value : List Place → Option (List Place)
put_value [] = none
put_value (p ∷ ps) = elim (after_value p) [ none ↦ none | some q ↦ some (q ∷ ps) ]

abbrev pub put_string : List Place → Option (List Place)
put_string (in_name ∷ ps) = some (in_value ∷ ps)
put_string ps = put_value ps

abbrev pub open_at : Place → List Place → Option (List Place)
open_at inner ps = elim (put_value ps) [ none ↦ none | some qs ↦ some (inner ∷ qs) ]

-- A call, on the stack of the objects and arrays that are open.
abbrev pub accept : Token → List Place → Option (List Place)
accept start_object ps = open_at in_name ps
accept end_object (in_name ∷ ps) = some ps
accept end_object ps = none
accept start_array ps = open_at in_array ps
accept end_array (in_array ∷ ps) = some ps
accept end_array ps = none
accept (write_string s) ps = put_string ps
accept (write_bool b) ps = put_value ps
accept (write_int n) ps = put_value ps
accept (write_uint64 n) ps = put_value ps

abbrev pub accept_all : List Token → List Place → Option (List Place)
accept_all [] ps = some ps
accept_all (t ∷ ts) ps = elim (accept t ps) [ none ↦ none | some qs ↦ accept_all ts qs ]

-- One complete JSON text.
unfoldable pub IsText : List Token → Type 0
IsText ts = accept_all ts (before ∷ []) ≡ some (after ∷ [])

-- A value, wherever one can stand.
unfoldable pub IsValue : List Token → Type 0
IsValue ts =
    (p q : Place) (ps : List Place)
    → after_value p ≡ some q
    → accept_all ts (p ∷ ps) ≡ some (q ∷ ps)

-- Members of an object, elements of an array.
unfoldable pub AreMembers : List Token → Type 0
AreMembers ts = (ps : List Place) → accept_all ts (in_name ∷ ps) ≡ some (in_name ∷ ps)

unfoldable pub AreElements : List Token → Type 0
AreElements ts = (ps : List Place) → accept_all ts (in_array ∷ ps) ≡ some (in_array ∷ ps)

pub accept_all-append :
    (ts us : List Token) (ps qs : List Place) (r : Option (List Place))
    → accept_all ts ps ≡ some qs
    → accept_all us qs ≡ r
    → accept_all (ts ++ us) ps ≡ r
accept_all-append [] us ps qs r e f = ground (arith, e, f)
accept_all-append (t ∷ ts) us ps qs r e f = elim (Option-cases (accept t ps)) [
  | inl g ↦ absurd (ground (arith, e, g))
  | inr (ps', g) ↦ rw (g, accept_all) (accept_all-append ts us ps' qs r (rw (g, accept_all) at e) f)
]

pub append-AreMembers : (ts us : List Token) → AreMembers ts → AreMembers us → AreMembers (ts ++ us)
unfolding AreMembers
append-AreMembers ts us t u ps =
    accept_all-append ts us (in_name ∷ ps) (in_name ∷ ps) (some (in_name ∷ ps)) (t ps) (u ps)

pub append-AreElements :
    (ts us : List Token) → AreElements ts → AreElements us → AreElements (ts ++ us)
unfolding AreElements
append-AreElements ts us t u ps =
    accept_all-append ts us (in_array ∷ ps) (in_array ∷ ps) (some (in_array ∷ ps)) (t ps) (u ps)

pub value-AreElements : (ts : List Token) → IsValue ts → AreElements ts
unfolding IsValue AreElements
value-AreElements ts v ps = v in_array in_array ps refl

pub member-AreMembers :
    (name : String) (ts : List Token) → IsValue ts → AreMembers (write_string name ∷ ts)
unfolding IsValue AreMembers
member-AreMembers name ts v ps = v in_value in_name ps refl

pub object-IsValue : (ts : List Token) → AreMembers ts → IsValue (object ts)
unfolding IsValue AreMembers
object-IsValue ts t p q ps e =
    rw (e, accept_all)
      (accept_all-append ts (end_object ∷ []) (in_name ∷ q ∷ ps) (in_name ∷ q ∷ ps) (some (q ∷ ps))
        (t (q ∷ ps)) refl)

pub array-IsValue : (ts : List Token) → AreElements ts → IsValue (array ts)
unfolding IsValue AreElements
array-IsValue ts t p q ps e =
    rw (e, accept_all)
      (accept_all-append ts (end_array ∷ []) (in_array ∷ q ∷ ps) (in_array ∷ q ∷ ps) (some (q ∷ ps))
        (t (q ∷ ps)) refl)

pub value-IsText : (ts : List Token) → IsValue ts → IsText ts
unfolding IsValue IsText
value-IsText ts v = v before after [] refl

pub string-AreMembers : (name value : String) → AreMembers (member_string name value)
unfolding AreMembers
string-AreMembers name value ps = refl

pub int-AreMembers : (name : String) (value : ℤ) → AreMembers (member_int name value)
unfolding AreMembers
int-AreMembers name value ps = refl

pub uint64-AreMembers : (name : String) (value : ℕ) → AreMembers (member_uint64 name value)
unfolding AreMembers
uint64-AreMembers name value ps = refl
