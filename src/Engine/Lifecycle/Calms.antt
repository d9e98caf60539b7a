-- ===== src/Engine/Lifecycle/Calms.antt =====
-- What Node::Stop (src/core/node.cpp) and Chart::Stop (src/core/chart.cpp) leave of all nodes and
-- charts.
use asyncflow.Base.{
  ℕ, zero, suc, true, false, ◌≡◌, refl, ◌∙◌, ◌⊎◌, inl, inr, List, [], ◌∷◌, arith, ◌==◌, mem,
  Bool-cases, Option, some, none, eqb→eq,
}
use mathlib.Core.Path.{subst}
use asyncflow.Engine.State.{
  Ptr, idle, Attacher, detached, timer, subchart, wait_all, World, modify_node,
}
use asyncflow.Engine.Containers.{container_remove, leave_container}
use asyncflow.Engine.Lifecycle.{
  idle_node, stop_attacher, stop_node_with, stop_nodes_with, stop_chart_fuel,
}

-- The subchart of an attacher.
abbrev pub subchart_of : Attacher → Option Ptr
subchart_of (subchart c) = some c
subchart_of _ = none

-- Each node is idle now, or has the status that it had; each chart is stopped now, or runs if it did;
-- the charts have the nodes that they had, and the nodes the subcharts.
pub record Calms (w' w : World) : Type 0 where
  pub status : (q : Ptr) → ((w'.nodes q).status ≡ idle) ⊎ ((w'.nodes q).status ≡ (w.nodes q).status)
  pub runs :
      (c : Ptr)
      → ((w'.charts c).is_running ≡ false) ⊎ ((w'.charts c).is_running ≡ (w.charts c).is_running)
  pub subcharts : (q : Ptr) → subchart_of (w'.nodes q).attacher ≡ subchart_of (w.nodes q).attacher
  pub node_list : (c : Ptr) → (w'.charts c).node_list ≡ (w.charts c).node_list

Calms-refl : (w : World) → Calms w w
Calms-refl w = record {
  status = λ q. inr refl;
  runs = λ c. inr refl;
  subcharts = λ q. refl;
  node_list = λ c. refl;
}

Calms-trans : (u v w : World) → Calms u v → Calms v w → Calms u w
Calms-trans u v w a b = record {
  status = λ q. elim (a.status q) [
    | inl e ↦ inl e
    | inr e ↦ elim (b.status q) [ inl f ↦ inl (e ∙ f) | inr f ↦ inr (e ∙ f) ]
  ];
  runs = λ c. elim (a.runs c) [
    | inl e ↦ inl e
    | inr e ↦ elim (b.runs c) [ inl f ↦ inl (e ∙ f) | inr f ↦ inr (e ∙ f) ]
  ];
  subcharts = λ q. a.subcharts q ∙ b.subcharts q;
  node_list = λ c. a.node_list c ∙ b.node_list c;
}

-- A status that is idle stays so.
pub stays_idle :
    (w' w : World) (q : Ptr) → Calms w' w → (w.nodes q).status ≡ idle → (w'.nodes q).status ≡ idle
stays_idle w' w q a e = elim (a.status q) [ inl f ↦ f | inr f ↦ f ∙ e ]

pub leave_container-Calms : (p : Ptr) (w : World) → Calms (leave_container p w) w
unfolding leave_container container_remove
leave_container-Calms p w = record {
  status = λ q. inr (ground arith);
  runs = λ c. inr (ground arith);
  subcharts = λ q. ground arith;
  node_list = λ c. ground arith;
}

module _ (sub : Ptr → World → World) (calm : (c : Ptr) (w : World) → Calms (sub c w) w) where
  stop_attacher-Calms :
      (p : Ptr) (a : Attacher) (w : World)
      → (w.nodes p).attacher ≡ a
      → Calms (stop_attacher sub p a w) w
  unfolding stop_attacher
  stop_attacher-Calms p detached w h = Calms-refl w
  stop_attacher-Calms p (timer ms) w h = record {
    status = λ q. inr refl;
    runs = λ c. inr refl;
    subcharts = λ q. refl;
    node_list = λ c. refl;
  }
  stop_attacher-Calms p (subchart c) w h = calm c w
  stop_attacher-Calms p (wait_all ids) w h = record {
    status = λ q. inr (ground arith);
    runs = λ c. inr refl;
    subcharts = λ q. ground (arith, h, eqb→eq p q);
    node_list = λ c. refl;
  }

  pub idle_node-Calms : (p : Ptr) (w : World) → Calms (modify_node p idle_node w) w
  idle_node-Calms p w = record {
    status =
        λ q. elim (Bool-cases (p == q)) [ inl e ↦ inl (ground arith) | inr e ↦ inr (ground arith) ];
    runs = λ c. inr refl;
    subcharts = λ q. ground arith;
    node_list = λ c. refl;
  }

  pub stop_node_with-Calms :
      (p : Ptr) (w : World)
      → Calms (stop_node_with sub p w) w × (((stop_node_with sub p w).nodes p).status ≡ idle)
  unfolding stop_node_with
  stop_node_with-Calms p w =
      let w1 = modify_node p idle_node w in
      let a = (w1.nodes p).attacher in
      let w2 = stop_attacher sub p a w1 in
      let late =
        Calms-trans (leave_container p w2) w2 w1 (leave_container-Calms p w2)
          (stop_attacher-Calms p a w1 refl) in
      (
        Calms-trans (leave_container p w2) w1 w late (idle_node-Calms p w),
        stays_idle (leave_container p w2) w1 p late (ground arith),
      )

  pub stop_nodes_with-Calms :
      (ps : List Ptr) (w : World)
      → Calms (stop_nodes_with sub ps w) w
        × ((p : Ptr) → mem p ps ≡ true → ((stop_nodes_with sub ps w).nodes p).status ≡ idle)
  unfolding stop_nodes_with
  stop_nodes_with-Calms [] w = (Calms-refl w, λ p m. absurd (ground arith))
  stop_nodes_with-Calms (x ∷ ps) w =
      let w1 = stop_node_with sub x w in
      let one = stop_node_with-Calms x w in
      let rest = stop_nodes_with-Calms ps w1 in
      let w2 = stop_nodes_with sub ps w1 in
      (
        Calms-trans w2 w1 w rest.0 one.0,
        λ p m. elim (Bool-cases (mem p ps)) [
          | inl i ↦ rest.1 p i
          | inr o ↦
              stays_idle w2 w1 p rest.0
                (let e : x ≡ p = ground arith in subst (λ y. (w1.nodes y).status ≡ idle) e one.1)
        ],
      )

pub stop_chart_fuel-Calms : (k : ℕ) (c : Ptr) (w : World) → Calms (stop_chart_fuel k c w) w
unfolding stop_chart_fuel
stop_chart_fuel-Calms zero c w = record {
  status = λ q. inr refl;
  runs = λ c. inr refl;
  subcharts = λ q. refl;
  node_list = λ c. refl;
}
stop_chart_fuel-Calms (suc k) c w =
    let rest =
      (stop_nodes_with-Calms (stop_chart_fuel k) (stop_chart_fuel-Calms k) (w.charts c).node_list
        w).0 in
    record {
      status = rest.status;
      runs = λ d. elim (Bool-cases (c == d)) [
        | inl e ↦ inl (ground arith)
        | inr e ↦ elim (rest.runs d) [
          | inl f ↦ inl (ground (arith, f))
          | inr f ↦ inr (ground (arith, f))
        ]
      ];
      subcharts = rest.subcharts;
      node_list = λ d. ground (arith, rest.node_list c, rest.node_list d);
    }
