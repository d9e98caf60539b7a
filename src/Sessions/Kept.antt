-- ===== src/Sessions/Kept.antt =====
-- The operations of WebsocketManager, and the charts in debug mode.
use asyncflow.Engine.State.{World}
use asyncflow.Sessions.Debugged.{
  IsConsistent, IsDebugged, set-IsConsistent, erase-IsConsistent, IsConsistent-same,
  SameSessions-trans, send_all_node_count-same, send_running-same,
}
use asyncflow.Sessions.{
  start_debug, Sessions, start_debug_chart, stop_debug, contains_hdl, clear_debug_data, connections,
}
use asyncflow.Base.{
  ◌≡◌, ◌∷◌, ◌++◌, ◌==◌, ◌∙◌, [], if◌then◌else◌, ℕ, List, Bool, false, refl, true, inr, none, arith,
  inl, lookup, eqb→eq, insert, Bool-cases, eqb_refl, lookup-insert,
}

pub start_debug_at :
    (c x : ℕ) (s : Sessions)
    → ((start_debug c s).charts x).debug ≡ (if c == x then true else (s.charts x).debug)
unfolding start_debug
start_debug_at c x s = ground (arith, eqb→eq c x)

pub stop_debug_at :
    (c x : ℕ) (s : Sessions)
    → ((stop_debug c s).charts x).debug ≡ (if c == x then false else (s.charts x).debug)
unfolding stop_debug clear_debug_data
stop_debug_at c x s = ground (arith, eqb→eq c x)

-- A new connection of a chart.
pub add-IsConsistent :
    (c h : ℕ) (hs is : List ℕ) (s : Sessions)
    → IsConsistent s
    → IsConsistent
        (start_debug c (record s { chart_map = insert c (h ∷ hs) (insert c is s.chart_map) }))
unfolding start_debug
add-IsConsistent c h hs is s v =
    set-IsConsistent c h hs s _
      (λ x. ground (
        arith,
        lookup-insert c x (h ∷ hs) (insert c is s.chart_map),
        lookup-insert c x is s.chart_map,
      ))
      refl (ground arith) (λ x e. ground (arith, e)) v

-- An entry with other connections.
pub replace-IsConsistent :
    (c h : ℕ) (hs : List ℕ) (s : Sessions)
    → (s.charts c).debug ≡ true
    → IsConsistent s
    → IsConsistent (record s { chart_map = insert c (h ∷ hs) s.chart_map })
replace-IsConsistent c h hs s d v =
    set-IsConsistent c h hs s _ (λ x. lookup-insert c x (h ∷ hs) s.chart_map) refl d (λ x e. refl) v

-- An entry that goes.
pub remove-IsConsistent :
    (c : ℕ) (s s' : Sessions)
    → ((x : ℕ) → lookup x s'.chart_map ≡ (if c == x then none else lookup x s.chart_map))
    → s'.quick_debug_map ≡ s.quick_debug_map
    → ((x : ℕ) → (s'.charts x).debug ≡ (if c == x then false else (s.charts x).debug))
    → IsConsistent s
    → IsConsistent s'
remove-IsConsistent c s s' m q d v =
    erase-IsConsistent c s s' m q (d c ∙ ground (arith, eqb_refl c))
      (λ x e. d x ∙ ground (arith, e)) v

pub append_cons : (xs : List ℕ) (x : ℕ) → (h : ℕ) × (hs : List ℕ) × (xs ++ x ∷ [] ≡ h ∷ hs)
append_cons [] x = (x, [], refl)
append_cons (y ∷ ys) x = (y, ys ++ x ∷ [], refl)

module _ (lock : ℕ → ℕ) (throws : ℕ → Bool) where
  pub contains_cons :
      (hs : List ℕ) (hdl : ℕ)
      → contains_hdl lock throws hs hdl ≡ true
      → (h : ℕ) × (hs' : List ℕ) × (hs ≡ h ∷ hs')
  unfolding contains_hdl
  contains_cons [] hdl e = absurd (ground arith)
  contains_cons (h ∷ hs) hdl e = (h, hs, refl)

  -- A chart with connections is in debug mode.
  pub entry_debug :
      (c : ℕ) (s : Sessions) (h : ℕ) (hs : List ℕ)
      → IsConsistent s
      → connections c s ≡ h ∷ hs
      → (s.charts c).debug ≡ true
  unfolding IsConsistent IsDebugged
  entry_debug c s h hs (v, r) e = ground (arith, v c, e)

  pub start_debug_chart-IsConsistent :
      (w : World) (c hdl : ℕ) (s : Sessions)
      → IsConsistent s
      → IsConsistent (start_debug_chart lock throws w c hdl s)
  unfolding start_debug_chart
  start_debug_chart-IsConsistent w c hdl s v =
      elim (Bool-cases (contains_hdl lock throws (connections c s) hdl)) [
        | inl e ↦
            let (h, hs, f) = contains_cons (connections c s) hdl e in
            rw (e, start_debug_chart)
              (rw f (replace-IsConsistent c h hs s (entry_debug c s h hs v f) v))
        | inr e ↦
            let (h, hs, f) = append_cons (connections c s) hdl in
            rw (e, start_debug_chart)
              (IsConsistent-same _ _
                (SameSessions-trans _ _ _ (send_all_node_count-same w c (w.charts c).node_list _)
                  (send_running-same w c (w.charts c).node_list _))
                (rw f (add-IsConsistent c h hs (connections c s) s v)))
      ]
