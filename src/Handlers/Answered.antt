-- ===== src/Handlers/Answered.antt =====
-- A request for a chart that the debugger has told of.
use asyncflow.Engine.Lifecycle.{find_chart, data_of_chart}
use asyncflow.Engine.Agents.Defs.{get_agent_by_id}
use asyncflow.Debug.Messages.{chart_params}
use asyncflow.Debug.Sent.{Message, init_data, map_message}
use asyncflow.Debug.{c_str, c_str_idem}
use asyncflow.Debug.Infos.{read_object, read_members}
use asyncflow.Handlers.{
  get_debug_chart_info, debug_chart_handler, send_reply, at_address, address, stop_chart_handler,
  find_debug_chart, param_string, param_uint64, chart_name,
}
use asyncflow.Engine.State.{World}
use asyncflow.Sessions.Kept.{start_debug_chart-IsConsistent}
use asyncflow.Sessions.Operations.{stop_connection-IsConsistent}
use asyncflow.Sessions.Debugged.{
  IsConsistent, IsDebugged, IsConsistent-same, SameSessions, send_all_node_count-same,
  send_running-same,
}
use asyncflow.Sessions.{
  contains_hdl, start_debug_chart, remove_hdl, Sessions, connections, start_debug, set_connections,
  stop_debug, stop_connection, send_running, send_all_node_count, clear_debug_data, erase_chart,
}
use asyncflow.Base.{
  ◌≡◌, ◌∷◌, ◌++◌, ◌∙◌, [], arith, false, ℕ, true, Bool, List, eqb_refl, insert, some, lookup,
  lookup-delete, lookup-insert, none, refl, Option, String, ℤ, find_name, inr, ◌≢◌, sym, ap,
}

-- The data that a new connection is sent changes neither the map nor a mode.
all_sent :
    (c : ℕ) (w : World) (ps : List ℕ) (t : Sessions)
    → (t.charts c).debug ≡ true
    → let u = send_running w c ps (send_all_node_count w c ps t) in
      (u.chart_map ≡ t.chart_map) × ((u.charts c).debug ≡ true)
unfolding SameSessions
all_sent c w ps t on =
    let (m, q, d) = send_all_node_count-same w c ps t in
    let (n, r, f) = send_running-same w c ps (send_all_node_count w c ps t) in
    (n ∙ m, f c ∙ d c ∙ on)

-- The connections that a chart is left with.
rest :
    (c : ℕ) (hs : List ℕ) (s : Sessions)
    → connections c (elim hs [
      | [] ↦ erase_chart c (stop_debug c (set_connections c [] s))
      | h ∷ hs' ↦ set_connections c (h ∷ hs') s
    ])
      ≡ hs
unfolding stop_debug clear_debug_data
rest c [] s = ground (arith, lookup-delete c c (insert c [] s.chart_map), eqb_refl c)
rest c (h ∷ hs) s = ground (arith, lookup-insert c c (h ∷ hs) s.chart_map, eqb_refl c)

entry_same :
    (m n : Option (List ℕ))
    → m ≢ some []
    → n ≢ some []
    → elim m [ none ↦ [] | some hs ↦ hs ] ≡ elim n [ none ↦ [] | some hs ↦ hs ]
    → m ≡ n
entry_same none none h k e = refl
entry_same none (some hs) h k e = absurd (k (ap some (sym e)))
entry_same (some hs) none h k e = absurd (h (ap some e))
entry_same (some hs) (some js) h k e = ap some e

-- In consistent sessions the connections of a chart determine its entry and its mode.
entry_restored :
    (c : ℕ) (s s' : Sessions)
    → IsConsistent s
    → IsConsistent s'
    → connections c s' ≡ connections c s
    → (lookup c s'.chart_map ≡ lookup c s.chart_map) × ((s'.charts c).debug ≡ (s.charts c).debug)
unfolding IsConsistent IsDebugged
entry_restored c s s' v v' e =
    let same : lookup c s'.chart_map ≡ lookup c s.chart_map =
      entry_same (lookup c s'.chart_map) (lookup c s.chart_map) (v'.0 c).1 (v.0 c).1 e in
    (same, (v'.0 c).0 ∙ rw same (sym (v.0 c).0))

module _ (lock : ℕ → ℕ) (throws : ℕ → Bool) where
  contains-last : (hs : List ℕ) (hdl : ℕ) → contains_hdl lock throws (hs ++ hdl ∷ []) hdl ≡ true
  unfolding contains_hdl
  contains-last [] hdl = ground (arith, eqb_refl (lock hdl))
  contains-last (h ∷ hs) hdl = ground (arith, contains-last hs hdl)

  remove-last :
      (hs : List ℕ) (hdl : ℕ)
      → contains_hdl lock throws hs hdl ≡ false
      → remove_hdl lock throws (hs ++ hdl ∷ []) hdl ≡ hs
  unfolding contains_hdl remove_hdl
  remove-last [] hdl e = ground (arith, eqb_refl (lock hdl))
  remove-last (h ∷ hs) hdl e = ground (arith, remove-last hs hdl)

  -- What a new connection makes of the map and of the mode of the chart.
  start_debug_chart-new :
      (w : World) (c hdl : ℕ) (s : Sessions)
      → contains_hdl lock throws (connections c s) hdl ≡ false
      → ((start_debug_chart lock throws w c hdl s).chart_map
          ≡ insert c (connections c s ++ hdl ∷ []) (insert c (connections c s) s.chart_map))
        × (((start_debug_chart lock throws w c hdl s).charts c).debug ≡ true)
  unfolding start_debug_chart start_debug
  start_debug_chart-new w c hdl s e =
      rw (e, start_debug_chart)
        (all_sent c w (w.charts c).node_list
          (start_debug c (
            set_connections c (connections c s ++ hdl ∷ [])
              (set_connections c (connections c s) s)))
          (ground (arith, eqb_refl c)))

  -- The stop for a connection that came last.
  stop_connection-last :
      (c hdl : ℕ) (hs : List ℕ) (s : Sessions)
      → lookup c s.chart_map ≡ some (hs ++ hdl ∷ [])
      → contains_hdl lock throws hs hdl ≡ false
      → connections c (stop_connection lock throws c hdl s) ≡ hs
  unfolding stop_connection
  stop_connection-last c hdl hs s e f =
      rw (e, stop_connection, contains-last hs hdl, remove-last hs hdl f) (rest c hs s)

at_address-address : (o : Option ℕ) → at_address (address o) ≡ o
at_address-address none = refl
at_address-address (some p) = refl

-- The chart that its own parameters ask for.
params-info :
    (name : String) (id : ℕ) (owner : Option ℕ)
    → c_str name ≡ name
    → get_debug_chart_info (some (read_object (chart_params name id (address owner))))
      ≡ some (record { agent_id = id; owner_node = owner; chart_name = name })
unfolding get_debug_chart_info read_object read_members chart_params param_string param_uint64
    find_name
params-info name id owner plain = rw (c_str_idem name, at_address-address owner, plain) refl

module _ (lock : ℕ → ℕ) (throws : ℕ → Bool) (to_string : ℕ → String)
    (contains : String → String → Bool) (agent_name chart_uid : ℕ → String) where
  send_reply-map :
      (hdl : ℕ) (msg : Message) (s : Sessions)
      → (send_reply lock throws to_string contains agent_name chart_uid hdl msg s).chart_map
        ≡ s.chart_map
  unfolding send_reply
  send_reply-map hdl msg s = ground arith

  finds :
      (w : World) (a c : ℕ) (owner : Option ℕ) (name : String)
      → get_agent_by_id (w.agents a).id w ≡ some a
      → find_chart a name owner w ≡ some c
      → find_debug_chart lock throws to_string contains agent_name chart_uid
          (record { agent_id = (w.agents a).id; owner_node = owner; chart_name = name })
          w
        ≡ inr c
  unfolding find_debug_chart
  finds w a c owner name e f = rw (e, find_debug_chart, f) refl

  -- What the chart of a new connection has, after a reply.
  lookup-new :
      (w : World) (c hdl : ℕ) (msg : Message) (s : Sessions)
      → contains_hdl lock throws (connections c s) hdl ≡ false
      → let s1 =
          start_debug_chart lock throws w c hdl
            (send_reply lock throws to_string contains agent_name chart_uid hdl msg s) in
        (lookup c s1.chart_map ≡ some (connections c s ++ hdl ∷ [])) × ((s1.charts c).debug ≡ true)
  lookup-new w c hdl msg s out =
      let t = send_reply lock throws to_string contains agent_name chart_uid hdl msg s in
      let new = start_debug_chart-new lock throws w c hdl t (rw (send_reply-map hdl msg s) out) in
      (
        rw (new.0, send_reply-map hdl msg s)
            (lookup-insert c c (connections c s ++ hdl ∷ [])
                (insert c (connections c s) s.chart_map)
              ∙ ground (arith, eqb_refl c)),
        new.1,
      )

  send_reply-same :
      (hdl : ℕ) (msg : Message) (s : Sessions)
      → SameSessions s (send_reply lock throws to_string contains agent_name chart_uid hdl msg s)
  unfolding SameSessions send_reply
  send_reply-same hdl msg s = (ground arith, ground arith, λ c. ground arith)

  -- A reply and the start of a session keep the entries and the modes in step.
  started-IsConsistent :
      (w : World) (c hdl : ℕ) (msg : Message) (s : Sessions)
      → IsConsistent s
      → IsConsistent (
          start_debug_chart lock throws w c hdl
            (send_reply lock throws to_string contains agent_name chart_uid hdl msg s))
  started-IsConsistent w c hdl msg s v =
      start_debug_chart-IsConsistent lock throws w c hdl _
        (IsConsistent-same s _ (send_reply-same hdl msg s) v)

  stopped-IsConsistent :
      (c hdl : ℕ) (msg : Message) (s : Sessions)
      → IsConsistent s
      → IsConsistent (
          stop_connection lock throws c hdl
            (send_reply lock throws to_string contains agent_name chart_uid hdl msg s))
  stopped-IsConsistent c hdl msg s v =
      stop_connection-IsConsistent lock throws c hdl _
        (IsConsistent-same s _ (send_reply-same hdl msg s) v)

  -- For a chart that its agent finds by its name, without a null character, and owner, an agent that is found by its id, and
  -- sessions in which a chart is in debug mode just if it has an entry with connections, the
  -- parameters that the debugger tells of the chart make the handler of debug_chart debug that chart
  -- for a connection that does not do so yet, and the handler of stop_chart then leaves the chart
  -- the entry in the map of charts and the debug mode that it had before.
  pub debug-stop :
      (w : World) (a c hdl : ℕ) (id1 id2 : ℤ) (s : Sessions)
      → get_agent_by_id (w.agents a).id w ≡ some a
      → find_chart a (chart_name c w) (w.charts c).owner_node w ≡ some c
      → contains_hdl lock throws (connections c s) hdl ≡ false
      → IsConsistent s
      → c_str (chart_name c w) ≡ chart_name c w
      → let params = some (
          read_object
            (chart_params (chart_name c w) (w.agents a).id (address (w.charts c).owner_node))) in
        (s1 : Sessions) × (s2 : Sessions) × (debug_chart_handler lock throws to_string contains
            agent_name chart_uid w params hdl id1 s
          ≡ some s1)
        × (stop_chart_handler lock throws to_string contains agent_name chart_uid w params hdl id2
              s1
            ≡ some s2)
        × ((s1.charts c).debug ≡ true)
        × (connections c s1 ≡ connections c s ++ hdl ∷ [])
        × (lookup c s2.chart_map ≡ lookup c s.chart_map)
        × ((s2.charts c).debug ≡ (s.charts c).debug)
  unfolding debug_chart_handler stop_chart_handler find_debug_chart
  debug-stop w a c hdl id1 id2 s found_agent found out v plain =
      let name = chart_name c w in
      let owner = (w.charts c).owner_node in
      let reply = init_data "debug_chart" (data_of_chart c w) id1 in
      let t = send_reply lock throws to_string contains agent_name chart_uid hdl reply s in
      let s1 = start_debug_chart lock throws w c hdl t in
      let stop = map_message "stop_chart" (("chart_name", name) ∷ []) id2 in
      let u = send_reply lock throws to_string contains agent_name chart_uid hdl stop s1 in
      let new = lookup-new w c hdl reply s out in
      let asked = params-info name (w.agents a).id owner plain in
      let known = finds w a c owner name found_agent found in
      let s2 = stop_connection lock throws c hdl u in
      let left =
        stop_connection-last lock throws c hdl (connections c s) u
          (rw (send_reply-map hdl stop s1) new.0) out in
      let same =
        entry_restored c s s2 v
          (stopped-IsConsistent c hdl stop s1 (started-IsConsistent w c hdl reply s v)) left in
      (
        s1,
        s2,
        rw (asked, debug_chart_handler, known) refl,
        rw (asked, stop_chart_handler, known) refl,
        new.1,
        rw (connections, new.0) refl,
        same.0,
        same.1,
      )
