-- ===== src/Sessions/Debugged.antt =====
-- Which charts are debugged, and which have connections.
use asyncflow.Engine.Lifecycle.{data_of_node}
use mathlib.Core.Path.{subst}
use asyncflow.Engine.State.{NodeStatus, World, idle, running, end_run}
use asyncflow.Sessions.{
  send_running, send_node_status, send_all_node_count, Sessions, status_number, clear_debug_data,
  uid_of, push_status,
}
use asyncflow.Base.{
  ◌≡◌, ◌≢◌, ◌∷◌, ◌==◌, ◌∙◌, [], if◌then◌else◌, refl, List, arith, false, some, Bool, Option, ℕ, inl,
  String, inr, true, none, find_name, lookup, Bool-cases, eqb→eq, to_int, ℤ, eqb_refl, pos,
}

abbrev pub has_connection : Option (List ℕ) → Bool
has_connection none = false
has_connection (some []) = false
has_connection (some (h ∷ hs)) = true

-- A chart is in debug mode just if it has an entry, and no entry is without connections.
unfoldable pub IsDebugged : Sessions → ℕ → Type 0
IsDebugged s c =
    ((s.charts c).debug ≡ has_connection (lookup c s.chart_map)) × (lookup c s.chart_map ≢ some [])

unfoldable pub IsConsistent : Sessions → Type 0
IsConsistent s =
    ((c : ℕ) → IsDebugged s c) × ((name : String) → find_name name s.quick_debug_map ≢ some [])

-- Two states that differ in data and messages alone.
unfoldable pub SameSessions : Sessions → Sessions → Type 0
SameSessions s s' =
    (s'.chart_map ≡ s.chart_map)
    × (s'.quick_debug_map ≡ s.quick_debug_map)
    × ((c : ℕ) → (s'.charts c).debug ≡ (s.charts c).debug)

pub SameSessions-refl : (s : Sessions) → SameSessions s s
unfolding SameSessions
SameSessions-refl s = (refl, refl, λ c. refl)

pub SameSessions-trans : (a b c : Sessions) → SameSessions a b → SameSessions b c → SameSessions a c
unfolding SameSessions
SameSessions-trans a b c (m, q, d) (n, r, e) = (n ∙ m, r ∙ q, λ x. e x ∙ d x)

pub IsConsistent-same : (s s' : Sessions) → SameSessions s s' → IsConsistent s → IsConsistent s'
unfolding SameSessions IsConsistent IsDebugged
IsConsistent-same s s' (m, q, d) (v, r) = (λ c. rw (d c, m) (v c), λ name. rw q (r name))

pub push_status-same :
    (c : ℕ) (id : ℤ) (uid : String) (old new : ℤ) (r : Bool) (s : Sessions)
    → SameSessions s (push_status c id uid old new r s)
unfolding SameSessions
push_status-same c id uid old new r s = (refl, refl, λ x. ground (arith, eqb→eq c x))

pub clear_debug_data-same : (c : ℕ) (s : Sessions) → SameSessions s (clear_debug_data c s)
unfolding SameSessions clear_debug_data
clear_debug_data-same c s = (refl, refl, λ x. ground (arith, eqb→eq c x))

pub send_node_status-same :
    (c id : ℕ) (uid : String) (old new : NodeStatus) (r : Bool) (s : Sessions)
    → SameSessions s (send_node_status c id uid old new r s)
unfolding send_node_status
send_node_status-same c id uid old new r s =
    elim (Bool-cases (status_number old == status_number new)) [
      | inl e ↦ rw (e, send_node_status) (SameSessions-refl s)
      | inr e ↦
          rw (e, send_node_status)
            (push_status-same c (to_int id) uid (pos (status_number old)) (pos (status_number new))
              r s)
    ]

pub send_all_node_count-same :
    (w : World) (c : ℕ) (ps : List ℕ) (s : Sessions) → SameSessions s (send_all_node_count w c ps s)
unfolding send_all_node_count
send_all_node_count-same w c [] s = SameSessions-refl s
send_all_node_count-same w c (p ∷ ps) s =
    SameSessions-trans s _ _ (push_status-same c _ _ _ _ true s) (send_all_node_count-same w c ps _)

running_one :
    (st : NodeStatus) (s s' : Sessions)
    → SameSessions s s'
    → SameSessions s (elim st [ running ↦ s' | _ ↦ s ])
running_one idle s s' e = SameSessions-refl s
running_one running s s' e = e
running_one end_run s s' e = SameSessions-refl s

pub send_running-same :
    (w : World) (c : ℕ) (ps : List ℕ) (s : Sessions) → SameSessions s (send_running w c ps s)
unfolding send_running
send_running-same w c [] s = SameSessions-refl s
send_running-same w c (p ∷ ps) s =
    SameSessions-trans s _ _
      (running_one (w.nodes p).status s _
        (send_node_status-same c (data_of_node p w).node_id (uid_of w p) idle running true s))
      (send_running-same w c ps _)

-- A chart with connections is in debug mode.
pub set-IsConsistent :
    (c h : ℕ) (hs : List ℕ) (s s' : Sessions)
    → ((x : ℕ) → lookup x s'.chart_map ≡ (if c == x then some (h ∷ hs) else lookup x s.chart_map))
    → s'.quick_debug_map ≡ s.quick_debug_map
    → (s'.charts c).debug ≡ true
    → ((x : ℕ) → (c == x) ≡ false → (s'.charts x).debug ≡ (s.charts x).debug)
    → IsConsistent s
    → IsConsistent s'
unfolding IsConsistent IsDebugged
set-IsConsistent c h hs s s' m q d same (v, r) = (
  λ x. elim (Bool-cases (c == x)) [
    | inl e ↦
        subst
          (λ z.
            ((s'.charts z).debug ≡ has_connection (lookup z s'.chart_map))
            × (lookup z s'.chart_map ≢ some []))
          (eqb→eq c x e) (rw (m c, eqb_refl c) (d, λ f. ground (arith, f)))
    | inr e ↦ rw (m x, e) ((same x e) ∙ (v x).0, (v x).1)
  ],
  λ name. rw q (r name),
)

-- A chart without connections has no entry.
pub erase-IsConsistent :
    (c : ℕ) (s s' : Sessions)
    → ((x : ℕ) → lookup x s'.chart_map ≡ (if c == x then none else lookup x s.chart_map))
    → s'.quick_debug_map ≡ s.quick_debug_map
    → (s'.charts c).debug ≡ false
    → ((x : ℕ) → (c == x) ≡ false → (s'.charts x).debug ≡ (s.charts x).debug)
    → IsConsistent s
    → IsConsistent s'
unfolding IsConsistent IsDebugged
erase-IsConsistent c s s' m q d same (v, r) = (
  λ x. elim (Bool-cases (c == x)) [
    | inl e ↦
        subst
          (λ z.
            ((s'.charts z).debug ≡ has_connection (lookup z s'.chart_map))
            × (lookup z s'.chart_map ≢ some []))
          (eqb→eq c x e) (rw (m c, eqb_refl c) (d, λ f. ground (arith, f)))
    | inr e ↦ rw (m x, e) ((same x e) ∙ (v x).0, (v x).1)
  ],
  λ name. rw q (r name),
)
