-- ===== src/Sessions/Ended.antt =====
-- Entries that end, and the charts in debug mode.
use asyncflow.Debug.Sent.{Message}
use text.Mathlib.TextEquality.{eq_iff}
use text.Mathlib.Text.{◌==◌ as str_eq}
use asyncflow.Sessions.Kept.{remove-IsConsistent, stop_debug_at}
use asyncflow.Sessions.Debugged.{
  IsConsistent, IsDebugged, SameSessions, SameSessions-refl, set-IsConsistent,
}
use asyncflow.Sessions.{
  Sessions, stop_debug, clear_debug_data, delete_name, start_debug, insert_if_new,
}
use asyncflow.Base.{
  ◌≡◌, ◌≢◌, ◌∷◌, [], ℕ, List, arith, some, refl, inl, Bool, inr, true, none, String, delete, lookup,
  find_name, insert, lookup-delete, lookup-insert, put_name, eqb→eq, find_name-put_name,
  if◌then◌else◌, Option, Option-cases, ◌∙◌, false, List-cases, ap,
}

pub stop_debug_quick : (c : ℕ) (s : Sessions) → (stop_debug c s).quick_debug_map ≡ s.quick_debug_map
unfolding stop_debug clear_debug_data
stop_debug_quick c s = refl

pub stop_debug_map : (c : ℕ) (s : Sessions) → (stop_debug c s).chart_map ≡ s.chart_map
unfolding stop_debug clear_debug_data
stop_debug_map c s = refl

-- Connections that are put under a name, or taken away, leave no empty list.
pub put-nonempty :
    (k : String) (h : ℕ) (hs : List ℕ) (m : List (String × List ℕ))
    → ((name : String) → find_name name m ≢ some [])
    → (name : String) → find_name name (put_name k (h ∷ hs) m) ≢ some []
put-nonempty k h hs m q name f = ground (arith, find_name-put_name k name (h ∷ hs) m, f, q name)

pub find_name-delete_name :
    (k name : String) (m : List (String × List ℕ))
    → find_name name (delete_name k m) ≡ (if str_eq k name then none else find_name name m)
unfolding find_name
find_name-delete_name k name [] = ground arith
find_name-delete_name k name ((j, v) ∷ m) =
    ground (arith, eq_iff k name, eq_iff j k, eq_iff j name, find_name-delete_name k name m)

-- A chart's entry is erased with the end of its debugging.
pub erase_stop-IsConsistent :
    (c : ℕ) (is : List ℕ) (s : Sessions)
    → IsConsistent s
    → IsConsistent (record (stop_debug c s) { chart_map = delete c (insert c is s.chart_map) })
erase_stop-IsConsistent c is s v =
    remove-IsConsistent c s _
      (λ x.
        ground
          (arith, lookup-delete c x (insert c is s.chart_map), lookup-insert c x is s.chart_map))
      (stop_debug_quick c s) (λ x. stop_debug_at c x s) v

pub delete_stop-IsConsistent :
    (c : ℕ) (s : Sessions)
    → IsConsistent s
    → IsConsistent (record (stop_debug c s) { chart_map = delete c s.chart_map })
delete_stop-IsConsistent c s v =
    remove-IsConsistent c s _ (λ x. lookup-delete c x s.chart_map) (stop_debug_quick c s)
      (λ x. stop_debug_at c x s) v

-- The end of the debugging of a chart without an entry.
pub stop-IsConsistent :
    (c : ℕ) (s : Sessions)
    → lookup c s.chart_map ≡ none
    → IsConsistent s
    → IsConsistent (stop_debug c s)
stop-IsConsistent c s e v =
    remove-IsConsistent c s (stop_debug c s)
      (λ x. rw (stop_debug_map c s) (ground (arith, e, eqb→eq c x))) (stop_debug_quick c s)
      (λ x. stop_debug_at c x s) v

-- The connections of quick debugging play no part, if none is an empty list.
pub quick-IsConsistent :
    (s : Sessions) (m : List (String × List ℕ)) (f : ℕ → Bool)
    → ((name : String) → find_name name m ≢ some [])
    → IsConsistent s
    → IsConsistent (record s { quick_debug_map = m; quick_debug = f })
unfolding IsConsistent IsDebugged
quick-IsConsistent s m f q (v, r) = (v, q)

pub if-IsConsistent :
    (b : Bool) (s s' : Sessions)
    → IsConsistent s
    → IsConsistent s'
    → IsConsistent (if b then s else s')
if-IsConsistent true s s' v v' = v
if-IsConsistent false s s' v v' = v'

pub sent_same : (s : Sessions) (m : List (ℕ × Message)) → SameSessions s (record s { sent = m })
unfolding SameSessions
sent_same s m = (refl, refl, λ c. refl)

pub stop_sent_same :
    (b : Bool) (msg : Option Message) (stop : Message) (h : ℕ) (s : Sessions)
    → SameSessions s (
        if b then s else elim msg [
          | none ↦ record s { sent = (h, stop) ∷ s.sent }
          | some m ↦ record s { sent = (h, stop) ∷ (h, m) ∷ s.sent }
        ])
stop_sent_same true msg stop h s = SameSessions-refl s
stop_sent_same false none stop h s = sent_same s _
stop_sent_same false (some m) stop h s = sent_same s _

pub no_empty : (c : ℕ) (s : Sessions) → IsConsistent s → lookup c s.chart_map ≢ some []
unfolding IsConsistent IsDebugged
no_empty c s v = (v.0 c).1

pub no_empty_quick :
    (name : String) (s : Sessions) → IsConsistent s → find_name name s.quick_debug_map ≢ some []
unfolding IsConsistent
no_empty_quick name s v = v.1 name

-- A chart that is debugged with connections of its own or of its entry.
pub begin-IsConsistent :
    (c h : ℕ) (hs : List ℕ) (s : Sessions)
    → IsConsistent s
    → IsConsistent (record (start_debug c s) {
      chart_map = insert_if_new c (h ∷ hs) (start_debug c s).chart_map;
    })
unfolding start_debug
begin-IsConsistent c h hs s v = elim (Option-cases (lookup c s.chart_map)) [
  | inl e ↦
      rw (e, insert_if_new)
        (set-IsConsistent c h hs s _ (λ x. lookup-insert c x (h ∷ hs) s.chart_map) refl
          (ground arith) (λ x f. ground (arith, f)) v)
  | inr (is, e) ↦ elim (List-cases is) [
    | inl f ↦ absurd (no_empty c s v (e ∙ ap some f))
    | inr (i, js, f) ↦
        rw (e, insert_if_new)
          (set-IsConsistent c i js s _ (λ x. ground (arith, e, f, eqb→eq c x)) refl (ground arith)
            (λ x g. ground (arith, g)) v)
  ]
]
