-- ===== src/Engine/Lifecycle/Idle.antt =====
-- Chart::Stop (src/core/chart.cpp) through the subcharts of nodes.
use mathlib.Core.Path.{subst}
use asyncflow.Base.{
  ℕ, zero, suc, ◌+◌, ◌≤◌, ◌<◌, true, false, ◌≡◌, refl, ◌∙◌, ◌⊎◌, inl, inr, List, [], ◌∷◌, arith,
  mem, Bool-cases, some, sym, eqb_refl, eqb→eq,
}
use asyncflow.Engine.State.{
  Ptr, idle, Attacher, detached, timer, subchart, wait_all, World, modify_node, modify_chart,
}
use asyncflow.Engine.Containers.{container_remove, leave_container}
use asyncflow.Engine.Lifecycle.{
  idle_node, stop_attacher, stop_node_with, stop_nodes_with, stop_chart_fuel, stop_chart,
}
use asyncflow.Engine.Lifecycle.Calms.{
  Calms, subchart_of, stays_idle, idle_node-Calms, stop_node_with-Calms, stop_nodes_with-Calms,
  stop_chart_fuel-Calms, leave_container-Calms,
}

-- The charts that a chart leads to through the subcharts of nodes, itself included.
pub data Under (w : World) : Ptr → Ptr → Type 0 where
  here : {c : Ptr} → Under w c c
  below :
      {c e d : Ptr} (p : Ptr)
      → mem p (w.charts c).node_list ≡ true
      → subchart_of (w.nodes p).attacher ≡ some e
      → Under w e d
      → Under w c d

-- The subchart of a node is created after the chart of the node, and is one of the charts.
unfoldable pub IsOrdered : ℕ → World → Type 0
IsOrdered n w =
    (c p e : Ptr)
    → mem p (w.charts c).node_list ≡ true
    → subchart_of (w.nodes p).attacher ≡ some e
    → (c < e) × (e < n)

-- The chart and its nodes are stopped in `w'`.
abbrev pub IsStopped : World → World → Ptr → Type 0
IsStopped w w' d =
    ((w'.charts d).is_running ≡ false)
    × ((p : Ptr) → mem p (w.charts d).node_list ≡ true → (w'.nodes p).status ≡ idle)

-- All that is under a chart in `w` is stopped in `w'`.
abbrev Halts : World → World → Ptr → Type 0
Halts w w' c = (d : Ptr) → Under w c d → IsStopped w w' d

Halts-later : (w w1 w2 : World) (c : Ptr) → Calms w2 w1 → Halts w w1 c → Halts w w2 c
Halts-later w w1 w2 c a h d u = (
  elim (a.runs d) [ inl e ↦ e | inr e ↦ e ∙ (h d u).0 ],
  λ p m. stays_idle w2 w1 p a ((h d u).1 p m),
)

Under-later : (w w1 : World) (c d : Ptr) → Calms w1 w → Under w c d → Under w1 c d
Under-later w w1 c d a here = here
Under-later w w1 c d a (below {e = e} p m s u) =
    below p (rw (a.node_list c) m) (a.subcharts p ∙ s) (Under-later w w1 e d a u)

-- From an earlier state.
Halts-earlier : (w w1 w2 : World) (c : Ptr) → Calms w1 w → Halts w1 w2 c → Halts w w2 c
Halts-earlier w w1 w2 c a h d u =
    let r = h d (Under-later w w1 c d a u) in (r.0, λ p m. r.1 p (rw (a.node_list d) m))

IsOrdered-later : (n : ℕ) (w w1 : World) → Calms w1 w → IsOrdered n w → IsOrdered n w1
unfolding IsOrdered
IsOrdered-later n w w1 a v c p e m s = v c p e (rw (a.node_list c) at m) (sym (a.subcharts p) ∙ s)

leave_container-stuck : (p : Ptr) (w : World) → (leave_container p w).stuck ≡ w.stuck
unfolding leave_container container_remove
leave_container-stuck p w = ground arith

module _ (n : ℕ) (sub : Ptr → World → World)
    (calm : (c : Ptr) (w : World) → Calms (sub c w) w) where
  -- Stopping a subchart stops all under it, within the fuel.
  abbrev Stops : Ptr → Type 0
  Stops e = (w : World) → IsOrdered n w → Halts w (sub e w) e × ((sub e w).stuck ≡ w.stuck)

  -- What the subchart of an attacher leads to is stopped.
  abbrev HaltsBelow : World → World → Attacher → Type 0
  HaltsBelow w w' a = (e : Ptr) → subchart_of a ≡ some e → Halts w w' e

  stop_attacher-Halts :
      (p : Ptr) (a : Attacher) (w : World)
      → IsOrdered n w
      → ((e : Ptr) → subchart_of a ≡ some e → Stops e)
      → HaltsBelow w (stop_attacher sub p a w) a × ((stop_attacher sub p a w).stuck ≡ w.stuck)
  unfolding stop_attacher
  stop_attacher-Halts p detached w v good = (λ e s. absurd (ground arith), refl)
  stop_attacher-Halts p (timer ms) w v good = (λ e s. absurd (ground arith), refl)
  stop_attacher-Halts p (subchart c) w v good =
      let r = good c refl w v in
      (λ e s. let h : c ≡ e = ground (arith, s) in subst (λ x. Halts w (sub c w) x) h r.0, r.1)
  stop_attacher-Halts p (wait_all ids) w v good = (λ e s. absurd (ground arith), refl)

  stop_node_with-Halts :
      (p : Ptr) (w : World)
      → IsOrdered n w
      → ((e : Ptr) → subchart_of (w.nodes p).attacher ≡ some e → Stops e)
      → HaltsBelow w (stop_node_with sub p w) (w.nodes p).attacher
        × ((stop_node_with sub p w).stuck ≡ w.stuck)
  unfolding stop_node_with
  stop_node_with-Halts p w v good =
      let w1 = modify_node p idle_node w in
      let a = (w1.nodes p).attacher in
      let kept : a ≡ (w.nodes p).attacher = ground arith in
      let w2 = stop_attacher sub p a w1 in
      let first = idle_node-Calms sub calm p w in
      let r =
        stop_attacher-Halts p a w1 (IsOrdered-later n w w1 first v)
          (λ e s. good e (rw kept at s)) in
      (
        λ e s.
            Halts-later w w2 (leave_container p w2) e (leave_container-Calms p w2)
              (Halts-earlier w w1 w2 e first (r.0 e (rw kept s))),
        leave_container-stuck p w2 ∙ r.1,
      )

  stop_nodes_with-Halts :
      (ps : List Ptr) (w : World)
      → IsOrdered n w
      → ((p e : Ptr) → mem p ps ≡ true → subchart_of (w.nodes p).attacher ≡ some e → Stops e)
      → ((p : Ptr) → mem p ps ≡ true → HaltsBelow w (stop_nodes_with sub ps w) (w.nodes p).attacher)
        × ((stop_nodes_with sub ps w).stuck ≡ w.stuck)
  unfolding stop_nodes_with
  stop_nodes_with-Halts [] w v good = (λ p m. absurd (ground arith), refl)
  stop_nodes_with-Halts (x ∷ ps) w v good =
      let w1 = stop_node_with sub x w in
      let w2 = stop_nodes_with sub ps w1 in
      let first = (stop_node_with-Calms sub calm x w).0 in
      let later = (stop_nodes_with-Calms sub calm ps w1).0 in
      let one = stop_node_with-Halts x w v (λ e s. good x e (ground (arith, eqb_refl x)) s) in
      let rest =
        stop_nodes_with-Halts ps w1 (IsOrdered-later n w w1 first v)
          (λ p e m s. good p e (ground arith) (sym (first.subcharts p) ∙ s)) in
      (
        λ p m e s. elim (Bool-cases (mem p ps)) [
          | inl i ↦ Halts-earlier w w1 w2 e first (rest.0 p i e (first.subcharts p ∙ s))
          | inr o ↦
              let h : x ≡ p = ground (arith, eqb→eq x p) in
              Halts-later w w1 w2 e later
                (one.0 e (subst (λ y. subchart_of (w.nodes y).attacher ≡ some e) (sym h) s))
        ],
        rest.1 ∙ one.1,
      )

halted :
    (c : Ptr) (w w1 : World)
    → ((p : Ptr) → mem p (w.charts c).node_list ≡ true → (w1.nodes p).status ≡ idle)
    → ((p : Ptr)
        → mem p (w.charts c).node_list ≡ true
        → (e : Ptr) → subchart_of (w.nodes p).attacher ≡ some e
        → Halts w w1 e)
    → (d : Ptr) → Under w c d
    → IsStopped w (modify_chart c (λ x. record x { is_running = false }) w1) d
halted c w w1 idles sub d here = (ground arith, idles)
halted c w w1 idles sub d (below {e = e} p m s u) =
    let h = sub p m e s d u in (ground (arith, h.0), h.1)

stop_chart_fuel-Stops :
    (n k : ℕ) (c : Ptr)
    → c < n
    → n ≤ k + c
    → Stops n (stop_chart_fuel k) (stop_chart_fuel-Calms k) c
unfolding stop_chart_fuel IsOrdered
stop_chart_fuel-Stops n zero c low enough w v = absurd (omega arith)
stop_chart_fuel-Stops n (suc k) c low enough w v =
    let calm = stop_chart_fuel-Calms k in
    let ps = (w.charts c).node_list in
    let w1 = stop_nodes_with (stop_chart_fuel k) ps w in
    let w2 = stop_chart_fuel (suc k) c w in
    let idles = (stop_nodes_with-Calms (stop_chart_fuel k) calm ps w).1 in
    let r =
      stop_nodes_with-Halts n (stop_chart_fuel k) calm ps w v
        (λ p e m s. let o = v c p e m s in stop_chart_fuel-Stops n k e o.1 (omega (arith, o.0))) in
    (halted c w w1 idles r.0, r.1)

-- Stopping a chart that was created, where each subchart of a node is created after the node's
-- chart, stops every chart that it leads to through the subcharts of nodes, itself included: none of
-- them runs, and all of their nodes are idle. It does not run out of fuel, the charts keep their
-- lists of nodes and the nodes their subcharts, and every other node is idle or has the status that
-- it had.
pub stop_chart-idle :
    (c : Ptr) (w : World)
    → c < w.next_chart
    → IsOrdered w.next_chart w
    → let w' = stop_chart c w in
      ((d : Ptr) → Under w c d → IsStopped w w' d)
      × (w'.stuck ≡ w.stuck)
      × ((d : Ptr) → (w'.charts d).node_list ≡ (w.charts d).node_list)
      × ((q : Ptr) → subchart_of (w'.nodes q).attacher ≡ subchart_of (w.nodes q).attacher)
      × ((q : Ptr) → ((w'.nodes q).status ≡ idle) ⊎ ((w'.nodes q).status ≡ (w.nodes q).status))
unfolding stop_chart
stop_chart-idle c w low v =
    let a = stop_chart_fuel-Calms w.next_chart c w in
    let r = stop_chart_fuel-Stops w.next_chart w.next_chart c low (omega arith) w v in
    (r.0, r.1, a.node_list, a.subcharts, a.status)
