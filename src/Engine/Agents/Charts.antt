-- ===== src/Engine/Agents/Charts.antt =====
-- The charts of an agent (Agent::AddChart and Agent::FindChart of src/core/agent.cpp).
use asyncflow.Base.{
  String, true, false, ◌≡◌, ◌≢◌, refl, ◌∙◌, ap, Option, some, none, List, [], ◌∷◌, ◌++◌, arith,
  eqb_refl, find_name-put_name,
}
use text.Mathlib.TextEquality.{eq_iff}
use asyncflow.Engine.State.{Ptr, World}
use asyncflow.Engine.Lifecycle.{same_owner, find_owner, find_chart, charts_named, chart_name}
use asyncflow.Engine.Agents.Defs.{add_chart}

same_owner_refl : (o : Option Ptr) → same_owner o o ≡ true
unfolding same_owner
same_owner_refl none = refl
same_owner_refl (some p) = eqb_refl p

-- The owners are all that `find_owner` reads.
find_owner_congr :
    (o : Option Ptr) (cs : List Ptr) (w w' : World)
    → ((c : Ptr) → (w'.charts c).owner_node ≡ (w.charts c).owner_node)
    → find_owner o cs w' ≡ find_owner o cs w
unfolding find_owner
find_owner_congr o [] w w' same = refl
find_owner_congr o (c ∷ cs) w w' same = rw (same c, find_owner_congr o cs w w' same) refl

find_owner-append_some :
    (o : Option Ptr) (cs ds : List Ptr) (c : Ptr) (w : World)
    → find_owner o cs w ≡ some c
    → find_owner o (cs ++ ds) w ≡ some c
unfolding find_owner
find_owner-append_some o [] ds c w h = absurd (cc)
find_owner-append_some o (x ∷ cs) ds c w h = ground (arith, find_owner-append_some o cs ds c w)

find_owner-append_none :
    (o : Option Ptr) (cs ds : List Ptr) (w : World)
    → find_owner o cs w ≡ none
    → find_owner o (cs ++ ds) w ≡ find_owner o ds w
unfolding find_owner
find_owner-append_none o [] ds w h = refl
find_owner-append_none o (x ∷ cs) ds w h = ground (arith, find_owner-append_none o cs ds w)

find_owner_head :
    (o : Option Ptr) (c : Ptr) (w : World)
    → (w.charts c).owner_node ≡ o
    → find_owner o (c ∷ []) w ≡ some c
unfolding find_owner
find_owner_head o c w own = rw (own, same_owner_refl o) refl

-- The chart `c` with the agent `a`, listed at the end of the charts of its name.
record Listed (a c : Ptr) (w w' : World) : Type 0 where
  agent : (w'.charts c).agent ≡ some a
  owner : (d : Ptr) → (w'.charts d).owner_node ≡ (w.charts d).owner_node
  named : charts_named a (chart_name c w) w' ≡ charts_named a (chart_name c w) w ++ c ∷ []
  others : (n : String) → n ≢ chart_name c w → charts_named a n w' ≡ charts_named a n w

module _ {a c : Ptr} {w w' : World} (listed : Listed a c w w') where
  Listed-found :
      {o : Option Ptr}
      → (w.charts c).owner_node ≡ o
      → find_chart a (chart_name c w) o w ≡ none
      → find_chart a (chart_name c w) o w' ≡ some c
  unfolding find_chart
  Listed-found {o} own e =
      let cs = charts_named a (chart_name c w) w in
      ap (λ xs. find_owner o xs w') listed.named
      ∙ find_owner_congr o (cs ++ c ∷ []) w w' listed.owner
      ∙ find_owner-append_none o cs (c ∷ []) w e
      ∙ find_owner_head o c w own

  Listed-kept :
      (q : Option Ptr) (d : Ptr)
      → find_chart a (chart_name c w) q w ≡ some d
      → find_chart a (chart_name c w) q w' ≡ some d
  unfolding find_chart
  Listed-kept q d f =
      let cs = charts_named a (chart_name c w) w in
      ap (λ xs. find_owner q xs w') listed.named
      ∙ find_owner_congr q (cs ++ c ∷ []) w w' listed.owner
      ∙ find_owner-append_some q cs (c ∷ []) d w f

  Listed-others :
      (n : String) (q : Option Ptr) → n ≢ chart_name c w → find_chart a n q w' ≡ find_chart a n q w
  unfolding find_chart
  Listed-others n q ne =
      ap (λ xs. find_owner q xs w') (listed.others n ne)
      ∙ find_owner_congr q (charts_named a n w) w w' listed.owner

add_chart-refused :
    (a c : Ptr) (o : Option Ptr) (w : World) (d : Ptr)
    → find_chart a (chart_name c w) o w ≡ some d
    → add_chart a c o w ≡ (w, false)
unfolding add_chart find_chart
add_chart-refused a c o w d e = rw (e, add_chart) refl

add_chart-Listed :
    (a c : Ptr) (o : Option Ptr) (w : World)
    → find_chart a (chart_name c w) o w ≡ none
    → ((add_chart a c o w).1 ≡ true) × Listed a c w (add_chart a c o w).0
unfolding add_chart find_chart charts_named
add_chart-Listed a c o w e =
    let name = chart_name c w in
    let put = λ (n : String).
      find_name-put_name {V = List Ptr} name n (charts_named a name w ++ c ∷ [])
        (w.agents a).chart_dict in
    rw (e, add_chart)
      (
        refl,
        record {
          agent = ground arith;
          owner = λ d. ground arith;
          named = ground (arith, eqb_refl a, put name, eq_iff name name);
          others = λ n ne. ground (arith, eqb_refl a, put n, eq_iff name n);
        },
      )

-- Of a chart with the owner `o`: if the agent has a chart of this name and owner, nothing is added
-- and nothing changes. Otherwise the chart is added: the agent finds it by its name and owner, finds
-- each chart that it found before, and finds by any other name what it found before.
pub add_chart_lem :
    (a c : Ptr) (o : Option Ptr) (w : World)
    → (w.charts c).owner_node ≡ o
    → let name = chart_name c w in
      let r = add_chart a c o w in
      ((d : Ptr) → find_chart a name o w ≡ some d → r ≡ (w, false))
      × (find_chart a name o w ≡ none
          → (r.1 ≡ true)
            × (((r.0).charts c).agent ≡ some a)
            × (find_chart a name o r.0 ≡ some c)
            × ((q : Option Ptr) (d : Ptr)
                → find_chart a name q w ≡ some d
                → find_chart a name q r.0 ≡ some d)
            × ((n : String) (q : Option Ptr)
                → n ≢ name
                → find_chart a n q r.0 ≡ find_chart a n q w))
add_chart_lem a c o w own = (
  add_chart-refused a c o w,
  λ e.
      let (added, listed) = add_chart-Listed a c o w e in
      (
        added,
        listed.agent,
        Listed-found listed own e,
        λ q d f. Listed-kept listed q d f,
        λ n q ne. Listed-others listed n q ne,
      ),
)
