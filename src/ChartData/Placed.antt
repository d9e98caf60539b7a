-- ===== src/ChartData/Placed.antt =====
-- Nodes in their places, and the loop over the connectors in ChartData::FromYaml
-- (src/core/chart_data.cpp).
use mathlib.Core.Path.{subst}
use mathlib.Core.Option.{some-injective}
use asyncflow.Base.{
  ℕ, zero, suc, ◌<◌, String, ◌≡◌, refl, sym, ◌∙◌, ap, some, List, [], ◌∷◌, inl, inr, ◌⊎◌, arith,
  mem-append, length, get_elem?, set, find_name, Option-cases,
}
use asyncflow.ChartData.{NodeData, add_subsequence}
use asyncflow.ChartData.Ids.{IsBelow, IsPlaced, AreBelow}
use asyncflow.ChartData.Yaml.{YamlConnector}
use asyncflow.ChartData.YamlChart.{connect}

-- `k` nodes, each placed at its index.
unfoldable pub ArePlaced : ℕ → List NodeData → Type 0
ArePlaced k ns =
    (length ns ≡ k) × ((i : ℕ) (n : NodeData) → get_elem? ns i ≡ some n → IsPlaced k i n)

get_elem?-set :
    (ns : List NodeData) (i j : ℕ) (v n : NodeData)
    → get_elem? (set ns i v) j ≡ some n
    → ((j ≡ i) × (v ≡ n)) ⊎ (get_elem? ns j ≡ some n)
get_elem?-set [] i j v n h = inr h
get_elem?-set (x ∷ ns) zero zero v n h = inl (refl, some-injective _ _ h)
get_elem?-set (x ∷ ns) zero (suc j) v n h = inr h
get_elem?-set (x ∷ ns) (suc i) zero v n h = inr h
get_elem?-set (x ∷ ns) (suc i) (suc j) v n h = elim (get_elem?-set ns i j v n h) [
  | inl (e, f) ↦ inl (ap suc e, f)
  | inr g ↦ inr g
]

length-set : (ns : List NodeData) (i : ℕ) (v : NodeData) → length (set ns i v) ≡ length ns
length-set [] i v = refl
length-set (x ∷ ns) zero v = refl
length-set (x ∷ ns) (suc i) v = omega (arith, length-set ns i v)

pub set-ArePlaced :
    (k i : ℕ) (v : NodeData) (ns : List NodeData)
    → IsPlaced k i v
    → ArePlaced k ns
    → ArePlaced k (set ns i v)
unfolding ArePlaced
set-ArePlaced k i v ns here placed = (
  length-set ns i v ∙ placed.0,
  λ j n h. elim (get_elem?-set ns i j v n h) [
    | inl (e, f) ↦ subst (λ x. IsPlaced k x n) (sym e) (subst (IsPlaced k i) f here)
    | inr g ↦ placed.1 j n g
  ],
)

add_subsequence-IsPlaced :
    (k i to type : ℕ) (d : NodeData)
    → to < k
    → IsPlaced k i d
    → IsPlaced k i (add_subsequence to type d)
unfolding IsPlaced AreBelow add_subsequence
add_subsequence-IsPlaced k i to type d low placed = (
  ground (arith, placed.0),
  λ id m. ground (arith, placed.1 id, mem-append id d.on_success (to ∷ [])),
  λ id m. ground (arith, placed.2 id, mem-append id d.on_fail (to ∷ [])),
)

pub connect-ArePlaced :
    (k : ℕ) (id_map : List (String × ℕ)) (cs : List YamlConnector) (ns r : List NodeData)
    → IsBelow k id_map
    → ArePlaced k ns
    → connect id_map cs ns ≡ some r
    → ArePlaced k r
unfolding connect ArePlaced IsBelow
connect-ArePlaced k id_map [] ns r below placed h =
    subst (ArePlaced k) (some-injective _ _ h) placed
connect-ArePlaced k id_map (c ∷ cs) ns r below placed h =
    elim (Option-cases (find_name c.start id_map)) [
      | inl e ↦ absurd (ground (arith, e, h))
      | inr (from, e) ↦ elim (Option-cases (find_name c.end id_map)) [
        | inl f ↦ absurd (ground (arith, e, f, h))
        | inr (to, f) ↦ elim (Option-cases (get_elem? ns from)) [
          | inl g ↦ absurd (ground (arith, e, f, g, h))
          | inr (d, g) ↦
              let next =
                set-ArePlaced k from (add_subsequence to c.type d) ns
                  (add_subsequence-IsPlaced k from to c.type d (below c.end to f)
                    (placed.1 from d g))
                  placed in
              connect-ArePlaced k id_map cs (set ns from (add_subsequence to c.type d)) r below next
                (ground (arith, e, f, g, h))
        ]
      ]
    ]
