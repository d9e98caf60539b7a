-- ===== src/Sessions/Operations.antt =====
-- The operations that end connections and quick debugging, and the charts in debug mode.
use asyncflow.Sessions.Ended.{
  stop_sent_same, no_empty_quick, erase_stop-IsConsistent, if-IsConsistent, quick-IsConsistent,
  stop-IsConsistent, begin-IsConsistent, sent_same, delete_stop-IsConsistent, put-nonempty,
  find_name-delete_name,
}
use asyncflow.Debug.Sent.{Message}
use asyncflow.Sessions.Kept.{replace-IsConsistent, contains_cons, append_cons, entry_debug}
use asyncflow.Engine.State.{World}
use asyncflow.Sessions.Debugged.{
  IsConsistent, SameSessions, SameSessions-refl, SameSessions-trans, IsConsistent-same,
  clear_debug_data-same,
}
use asyncflow.Sessions.{
  Sessions, quick_debug_chart, stop_debug, drop_connection, clear_debug_data, erase_chart,
  contains_hdl, set_connections, quick_connections, remove_hdl, connections, start_quick_debug,
  send_quick, stop_debug_chart, send_stop_data, stop_connection, start_debug, insert_if_new,
}
use asyncflow.Base.{
  ◌≡◌, ◌≢◌, ◌∷◌, [], ℕ, List, arith, some, refl, inl, Bool, inr, true, lookup, find_name,
  Bool-cases, put_name, find_name-put_name, Option, Option-cases, ◌∙◌, List-cases, ap,
}

module _ (lock : ℕ → ℕ) (throws : ℕ → Bool) where
  pub quick_debug_chart-IsConsistent :
      (w : World) (d hdl : ℕ) (s : Sessions)
      → IsConsistent s
      → IsConsistent (quick_debug_chart lock throws w d hdl s)
  unfolding quick_debug_chart IsConsistent
  quick_debug_chart-IsConsistent w d hdl s v =
      elim (Bool-cases
        (contains_hdl lock throws (quick_connections (w.chart_datas d).chart_name s) hdl)) [
          | inl e ↦
              let (h, hs, f) =
                contains_cons lock throws (quick_connections (w.chart_datas d).chart_name s) hdl
                  e in
              rw (e, quick_debug_chart, f)
                (quick-IsConsistent s _ s.quick_debug
                  (put-nonempty (w.chart_datas d).chart_name h hs s.quick_debug_map v.1) v)
          | inr e ↦
              let k = (w.chart_datas d).chart_name in
              let hs0 = quick_connections k s in
              let (h, hs, f) = append_cons (quick_connections (w.chart_datas d).chart_name s) hdl in
              rw (e, quick_debug_chart, f)
                (quick-IsConsistent s _ _
                  (λ name f. ground (
                    arith,
                    find_name-put_name k name (h ∷ hs) (put_name k hs0 s.quick_debug_map),
                    find_name-put_name k name hs0 s.quick_debug_map,
                    f,
                    v.1 name,
                  ))
                  v)
        ]

  -- A chart that has lost a connection.
  lost-IsConsistent :
      (c : ℕ) (hs : List ℕ) (s : Sessions)
      → (hs ≢ [] → (s.charts c).debug ≡ true)
      → IsConsistent s
      → IsConsistent (elim hs [
        | [] ↦ erase_chart c (stop_debug c (set_connections c [] s))
        | h ∷ hs' ↦ set_connections c (h ∷ hs') s
      ])
  unfolding stop_debug clear_debug_data
  lost-IsConsistent c [] s d v = erase_stop-IsConsistent c [] s v
  lost-IsConsistent c (h ∷ hs) s d v = replace-IsConsistent c h hs s (d (λ e. ground (arith, e))) v

  remove_cons :
      (hs : List ℕ) (hdl : ℕ)
      → remove_hdl lock throws hs hdl ≢ []
      → (h : ℕ) × (hs' : List ℕ) × (hs ≡ h ∷ hs')
  unfolding remove_hdl
  remove_cons [] hdl e = absurd (e refl)
  remove_cons (h ∷ hs) hdl e = (h, hs, refl)

  drop_connection-IsConsistent :
      (c hdl : ℕ) (s : Sessions)
      → IsConsistent s
      → IsConsistent (drop_connection lock throws c hdl s)
  unfolding drop_connection
  drop_connection-IsConsistent c hdl s v =
      lost-IsConsistent c _ s
        (λ e.
          let (h, hs, f) = remove_cons (connections c s) hdl e in
          entry_debug lock throws c s h hs v f)
        v

  send_quick-IsConsistent :
      (msg : Message) (c : ℕ) (hs : List ℕ) (s : Sessions)
      → IsConsistent s
      → IsConsistent (send_quick lock throws msg c hs s)
  unfolding send_quick
  send_quick-IsConsistent msg c [] s v = v
  send_quick-IsConsistent msg c (h ∷ hs) s v = send_quick-IsConsistent msg c hs _ (
      if-IsConsistent (throws h) _ _ (drop_connection-IsConsistent c h s v)
        (IsConsistent-same s _ (sent_same s _) v))

  pub start_quick_debug-IsConsistent :
      (w : World) (msg : Message) (c : ℕ) (s : Sessions)
      → IsConsistent s
      → IsConsistent (start_quick_debug lock throws w msg c s)
  unfolding start_quick_debug
  start_quick_debug-IsConsistent w msg c s v =
      elim (Option-cases
        (find_name (w.chart_datas (w.charts c).data_).chart_name s.quick_debug_map)) [
          | inl e ↦ rw (e, start_quick_debug) v
          | inr (hs, e) ↦ elim (List-cases hs) [
            | inl f ↦
                absurd
                  (no_empty_quick (w.chart_datas (w.charts c).data_).chart_name s v (e ∙ ap some f))
            | inr (i, js, f) ↦
                let s2 = send_quick lock throws msg c (i ∷ js) (record (start_debug c s) {
                  chart_map = insert_if_new c (i ∷ js) (start_debug c s).chart_map;
                }) in
                let v2 = send_quick-IsConsistent msg c (i ∷ js) _ (begin-IsConsistent c i js s v) in
                rw (e, start_quick_debug, f)
                  (quick-IsConsistent s2 _ s2.quick_debug
                    (λ name g. ground (
                      arith,
                      find_name-delete_name (w.chart_datas (w.charts c).data_).chart_name name
                          s2.quick_debug_map,
                      g,
                      no_empty_quick name s2 v2,
                    ))
                    v2)
          ]
        ]

  send_stop_data-same :
      (msg : Option Message) (stop : Message) (hs : List ℕ) (s : Sessions)
      → SameSessions s (send_stop_data lock throws msg stop hs s)
  unfolding send_stop_data
  send_stop_data-same msg stop [] s = SameSessions-refl s
  send_stop_data-same msg stop (h ∷ hs) s =
      SameSessions-trans s _ _ (stop_sent_same (throws h) msg stop h s)
        (send_stop_data-same msg stop hs _)

  pub stop_debug_chart-IsConsistent :
      (msg : Option Message) (stop : Message) (c : ℕ) (s : Sessions)
      → IsConsistent s
      → IsConsistent (stop_debug_chart lock throws msg stop c s)
  unfolding stop_debug_chart stop_debug clear_debug_data
  stop_debug_chart-IsConsistent msg stop c s v = elim (Option-cases (lookup c s.chart_map)) [
    | inl e ↦ rw (e, stop_debug_chart) (stop-IsConsistent c s e v)
    | inr (hs, e) ↦
        rw (e, stop_debug_chart)
          (delete_stop-IsConsistent c _ (
            IsConsistent-same s _
              (SameSessions-trans s _ _ (clear_debug_data-same c s)
                (send_stop_data-same msg stop hs _))
              v))
  ]

  pub stop_connection-IsConsistent :
      (c hdl : ℕ) (s : Sessions)
      → IsConsistent s
      → IsConsistent (stop_connection lock throws c hdl s)
  unfolding stop_connection
  stop_connection-IsConsistent c hdl s v = elim (Option-cases (lookup c s.chart_map)) [
    | inl e ↦ rw (e, stop_connection) v
    | inr (hs, e) ↦ elim (Bool-cases (contains_hdl lock throws hs hdl)) [
      | inl f ↦
          rw (e, stop_connection, f)
            (lost-IsConsistent c (remove_hdl lock throws hs hdl) s
              (λ g.
                let (h, hs', q) = remove_cons hs hdl g in
                entry_debug lock throws c s h hs' v (ground (arith, e, q)))
              v)
      | inr f ↦ rw (e, stop_connection, f) v
    ]
  ]
