-- ===== src/Sessions/Calls.antt =====
-- The calls that reach WebsocketManager, one after the other.
use asyncflow.Sessions.Kept.{start_debug_chart-IsConsistent, stop_debug_at}
use asyncflow.Sessions.Ended.{
  quick-IsConsistent, no_empty_quick, if-IsConsistent, sent_same, stop_debug_map, no_empty,
}
use asyncflow.Sessions.Operations.{
  stop_debug_chart-IsConsistent, quick_debug_chart-IsConsistent, stop_connection-IsConsistent,
  start_quick_debug-IsConsistent,
}
use asyncflow.Debug.Sent.{Message}
use asyncflow.Sessions.{
  Sessions, send_node_message, send_data, start_debug_chart, step_charts, stop_debug_chart, step,
  clear_debug_data, quick_debug_chart, started_chart, stop_connection, ended_chart, no_sessions,
  delete_debug, send_node_status,
}
use asyncflow.Debug.{DebugData}
use asyncflow.Engine.State.{World, NodeStatus}
use asyncflow.Sessions.Debugged.{
  IsConsistent, SameSessions, IsDebugged, SameSessions-refl, SameSessions-trans,
  clear_debug_data-same, IsConsistent-same, send_node_status-same,
}
use asyncflow.Base.{
  ◌∷◌, [], if◌then◌else◌, none, refl, arith, true, false, some, String, Bool, Option, ℕ, List,
  lookup, eqb→eq, find_name, ◌≡◌, ◌∙◌, inl, inr, Option-cases, eqb_refl, lookup-delete, List-cases,
  ap,
}

-- Each call has the state of the engine when it is made.
pub data SessionCall : Type 0 where
  call_debug : World → ℕ → ℕ → SessionCall
  call_quick : World → ℕ → ℕ → SessionCall
  call_stop : ℕ → ℕ → SessionCall
  call_step : SessionCall
  call_started : World → ℕ → SessionCall
  call_ended : World → ℕ → SessionCall
  call_deleted : World → ℕ → SessionCall
  call_status : ℕ → ℕ → String → NodeStatus → NodeStatus → Bool → SessionCall
  call_message : ℕ → ℕ → String → String → SessionCall

if_same :
    (b : Bool) (s t u : Sessions)
    → SameSessions s t
    → SameSessions s u
    → SameSessions s (if b then t else u)
if_same true s t u a b = a
if_same false s t u a b = b

message_same :
    (c id : ℕ) (uid msg : String) (s : Sessions) → SameSessions s (send_node_message c id uid msg s)
unfolding SameSessions send_node_message
message_same c id uid msg s = (refl, refl, λ x. ground (arith, eqb→eq c x))

module _ (lock : ℕ → ℕ) (throws : ℕ → Bool) (data_of : ℕ → DebugData → List DebugData → Message)
    (info_of stop_of : ℕ → Message) where
  -- The data that SendStopData sends, if there is any.
  abbrev pub last_data : ℕ → Sessions → Option Message
  last_data c s = elim (s.charts c).debug_data_list [ [] ↦ none | d ∷ ds ↦ some (data_of c d ds) ]

  unfoldable pub answer : SessionCall → Sessions → Sessions
  answer (call_debug w c hdl) s = start_debug_chart lock throws w c hdl s
  answer (call_quick w d hdl) s = quick_debug_chart lock throws w d hdl s
  answer (call_stop c hdl) s = stop_connection lock throws c hdl s
  answer call_step s = step lock throws data_of s
  answer (call_started w c) s = started_chart lock throws w (info_of c) c s
  answer (call_ended w c) s = ended_chart lock throws w (last_data c s) (stop_of c) c s
  answer (call_deleted w c) s = delete_debug lock throws w (last_data c s) (stop_of c) c s
  answer (call_status c id uid old new r) s =
      if (s.charts c).debug then send_node_status c id uid old new r s else s
  answer (call_message c id uid msg) s =
      if (s.charts c).debug then send_node_message c id uid msg s else s

  unfoldable pub answer_all : List SessionCall → Sessions → Sessions
  answer_all [] s = s
  answer_all (c ∷ cs) s = answer_all cs (answer c s)

  send_data-same :
      (msg : Message) (hs : List ℕ) (s : Sessions) → SameSessions s (send_data lock throws msg hs s)
  unfolding send_data
  send_data-same msg [] s = SameSessions-refl s
  send_data-same msg (h ∷ hs) s =
      SameSessions-trans s _ _ (if_same (throws h) s s _ (SameSessions-refl s) (sent_same s _))
        (send_data-same msg hs _)

  step_one-same :
      (c : ℕ) (hs : List ℕ) (l : List DebugData) (s : Sessions)
      → SameSessions s (elim l [
        | [] ↦ s
        | d ∷ ds ↦ send_data lock throws (data_of c d ds) hs (clear_debug_data c s)
      ])
  step_one-same c hs [] s = SameSessions-refl s
  step_one-same c hs (d ∷ ds) s =
      SameSessions-trans s _ _ (clear_debug_data-same c s) (send_data-same (data_of c d ds) hs _)

  step_charts-same :
      (m : List (ℕ × List ℕ)) (s : Sessions) → SameSessions s (step_charts lock throws data_of m s)
  unfolding step_charts
  step_charts-same [] s = SameSessions-refl s
  step_charts-same ((c, hs) ∷ rest) s =
      SameSessions-trans s _ _ (step_one-same c hs (s.charts c).debug_data_list s)
        (step_charts-same rest _)

  flag-IsConsistent :
      (f : ℕ → Bool) (s : Sessions) → IsConsistent s → IsConsistent (record s { quick_debug = f })
  flag-IsConsistent f s v =
      quick-IsConsistent s s.quick_debug_map f (λ name. no_empty_quick name s v) v

  ended-IsConsistent :
      (w : World) (o : Option ℕ) (msg : Option Message) (stop : Message) (c : ℕ) (s : Sessions)
      → IsConsistent s
      → IsConsistent (elim o [
        | none ↦ if (s.charts c).debug then stop_debug_chart lock throws msg stop c s else s
        | some p ↦
            if (s.charts (w.nodes p).chart).debug
            then s
            else stop_debug_chart lock throws msg stop c s
      ])
  ended-IsConsistent w none msg stop c s v =
      if-IsConsistent (s.charts c).debug _ s
        (stop_debug_chart-IsConsistent lock throws msg stop c s v) v
  ended-IsConsistent w (some p) msg stop c s v =
      if-IsConsistent (s.charts (w.nodes p).chart).debug s _ v
        (stop_debug_chart-IsConsistent lock throws msg stop c s v)

  deleted-IsConsistent :
      (a : Option ℕ) (msg : Option Message) (stop : Message) (c : ℕ) (s : Sessions)
      → IsConsistent s
      → IsConsistent (elim a [ none ↦ s | some _ ↦ stop_debug_chart lock throws msg stop c s ])
  deleted-IsConsistent none msg stop c s v = v
  deleted-IsConsistent (some _) msg stop c s v =
      stop_debug_chart-IsConsistent lock throws msg stop c s v

  answer-IsConsistent :
      (c : SessionCall) (s : Sessions) → IsConsistent s → IsConsistent (answer c s)
  unfolding answer step started_chart ended_chart delete_debug send_node_message
  answer-IsConsistent (call_debug w c hdl) s v =
      start_debug_chart-IsConsistent lock throws w c hdl s v
  answer-IsConsistent (call_quick w d hdl) s v =
      quick_debug_chart-IsConsistent lock throws w d hdl s v
  answer-IsConsistent (call_stop c hdl) s v = stop_connection-IsConsistent lock throws c hdl s v
  answer-IsConsistent call_step s v = IsConsistent-same s _ (step_charts-same s.chart_map s) v
  answer-IsConsistent (call_started w c) s v =
      if-IsConsistent (s.quick_debug (w.charts c).data_) _ s
        (flag-IsConsistent _ _ (start_quick_debug-IsConsistent lock throws w (info_of c) c s v)) v
  answer-IsConsistent (call_ended w c) s v =
      ended-IsConsistent w (w.charts c).owner_node (last_data c s) (stop_of c) c s v
  answer-IsConsistent (call_deleted w c) s v = IsConsistent-same _ _ (clear_debug_data-same c _) (
      if-IsConsistent (s.charts c).debug _ s
        (deleted-IsConsistent (w.charts c).agent (last_data c s) (stop_of c) c s v) v)
  answer-IsConsistent (call_status c id uid old new r) s v =
      if-IsConsistent (s.charts c).debug _ s
        (IsConsistent-same s _ (send_node_status-same c id uid old new r s) v) v
  answer-IsConsistent (call_message c id uid msg) s v =
      if-IsConsistent (s.charts c).debug _ s (IsConsistent-same s _ (message_same c id uid msg s) v)
        v

  -- From a manager without connections, after any calls of the debugger, in any order and with any
  -- connections that fail, a chart is in debug mode just if it has an entry in the map of charts,
  -- and no entry of that map or of the map of quick debugging is without connections.
  pub answer_all-IsConsistent :
      (cs : List SessionCall) (s : Sessions) → IsConsistent s → IsConsistent (answer_all cs s)
  unfolding answer_all
  answer_all-IsConsistent [] s v = v
  answer_all-IsConsistent (c ∷ cs) s v =
      answer_all-IsConsistent cs (answer c s) (answer-IsConsistent c s v)

pub no_sessions-IsConsistent : IsConsistent no_sessions
unfolding IsConsistent IsDebugged lookup find_name
no_sessions-IsConsistent = (λ c. (refl, λ e. ground (arith, e)), λ name e. ground (arith, e))

module _ (lock : ℕ → ℕ) (throws : ℕ → Bool) (data_of : ℕ → DebugData → List DebugData → Message)
    (info_of stop_of : ℕ → Message) where
  stopped_chart :
      (msg : Option Message) (stop : Message) (c : ℕ) (s : Sessions)
      → (lookup c (stop_debug_chart lock throws msg stop c s).chart_map ≡ none)
        × (((stop_debug_chart lock throws msg stop c s).charts c).debug ≡ false)
  unfolding stop_debug_chart
  stopped_chart msg stop c s = elim (Option-cases (lookup c s.chart_map)) [
    | inl e ↦
        rw (e, stop_debug_chart)
          (rw (stop_debug_map c s) e, stop_debug_at c c s ∙ ground (arith, eqb_refl c))
    | inr (hs, e) ↦
        rw (e, stop_debug_chart)
          (
            lookup-delete c c _ ∙ ground (arith, eqb_refl c),
            stop_debug_at c c _ ∙ ground (arith, eqb_refl c),
          )
  ]

  not_debugged :
      (c : ℕ) (s : Sessions)
      → IsConsistent s
      → (s.charts c).debug ≡ false
      → lookup c s.chart_map ≡ none
  unfolding IsConsistent IsDebugged
  not_debugged c s v d = elim (Option-cases (lookup c s.chart_map)) [
    | inl e ↦ e
    | inr (hs, e) ↦ elim (List-cases hs) [
      | inl f ↦ absurd (no_empty c s v (e ∙ ap some f))
      | inr (h, js, f) ↦ absurd (ground (arith, v.0 c, e, f, d))
    ]
  ]

  deleted :
      (msg : Option Message) (stop : Message) (c : ℕ) (s : Sessions) (b : Bool)
      → (s.charts c).debug ≡ b
      → IsConsistent s
      → let t = if b then stop_debug_chart lock throws msg stop c s else s in
        (lookup c t.chart_map ≡ none) × ((t.charts c).debug ≡ false)
  deleted msg stop c s true e v = stopped_chart msg stop c s
  deleted msg stop c s false e v = (not_debugged c s v e, e)

  -- After any calls of the debugger, the deletion of a chart that has an agent leaves no entry of
  -- the chart in the map of charts, and the chart is not in debug mode.
  pub deleted-entry :
      (cs : List SessionCall) (w : World) (c a : ℕ)
      → (w.charts c).agent ≡ some a
      → let s = answer_all lock throws data_of info_of stop_of cs no_sessions in
        let t = answer lock throws data_of info_of stop_of (call_deleted w c) s in
        (lookup c t.chart_map ≡ none) × ((t.charts c).debug ≡ false)
  unfolding answer delete_debug clear_debug_data
  deleted-entry cs w c a h =
      let s = answer_all lock throws data_of info_of stop_of cs no_sessions in
      let v =
        answer_all-IsConsistent lock throws data_of info_of stop_of cs no_sessions
          no_sessions-IsConsistent in
      let d =
        deleted (last_data lock throws data_of info_of stop_of c s) (stop_of c) c s
          (s.charts c).debug refl v in
      rw (h) (d.0, ground (arith, d.1, eqb_refl c))
