-- ===== src/ChartData/Patched.antt =====
-- The first loops of ChartData::PatchFromYaml (src/core/chart_data.cpp): the places of the nodes and
-- the ids in the map.
use mathlib.Core.Path.{subst}
use mathlib.Core.Option.{some-injective}
use asyncflow.Base.{
  ℕ, zero, suc, ◌<◌, ◌≤◌, String, ◌≡◌, refl, sym, Option, some, List, [], ◌∷◌, ◌++◌, inl, inr, ◌⊎◌,
  arith, length, length-append, get_elem?, find_name, put_name, Option-cases,
}
use asyncflow.ChartData.{NodeData}
use asyncflow.ChartData.Ids.{IsBelow, IsPlaced, AreBelow, put_name-IsBelow}
use asyncflow.ChartData.Placed.{ArePlaced}
use asyncflow.ChartData.Yaml.{YamlNode}
use asyncflow.ChartData.YamlChart.{create_node}
use asyncflow.ChartData.YamlNodes.{create_node-IsPlaced}
use asyncflow.ChartData.YamlPatch.{insert_uid, insert_uids, find_index, add_missing}

pub get_elem?-lt :
    (ns : List NodeData) (i : ℕ) (n : NodeData) → get_elem? ns i ≡ some n → i < length ns
get_elem?-lt [] i n h = absurd (ground (arith, h))
get_elem?-lt (x ∷ ns) zero n h = omega arith
get_elem?-lt (x ∷ ns) (suc i) n h = (let b = get_elem?-lt ns i n h in omega arith)

get_elem?-append :
    (ns : List NodeData) (i : ℕ) (x n : NodeData)
    → get_elem? (ns ++ x ∷ []) i ≡ some n
    → (get_elem? ns i ≡ some n) ⊎ ((i ≡ length ns) × (x ≡ n))
get_elem?-append [] zero x n h = inr (refl, some-injective _ _ h)
get_elem?-append [] (suc i) x n h = absurd (ground (arith, h))
get_elem?-append (y ∷ ns) zero x n h = inl h
get_elem?-append (y ∷ ns) (suc i) x n h = elim (get_elem?-append ns i x n h) [
  | inl g ↦ inl g
  | inr (e, f) ↦ inr ((omega (arith, e)), f)
]

insert_uid-IsBelow :
    (k id : ℕ) (uid : String) (id_map : List (String × ℕ))
    → id < k
    → IsBelow k id_map
    → IsBelow k (insert_uid uid id id_map)
unfolding insert_uid
insert_uid-IsBelow k id uid id_map low below = elim (Option-cases (find_name uid id_map)) [
  | inl e ↦ rw (e, insert_uid) (put_name-IsBelow k uid id id_map low below)
  | inr (i, e) ↦ rw (e, insert_uid) below
]

pub insert_uids-IsBelow :
    (k : ℕ) (ds : List NodeData) (id_map : List (String × ℕ))
    → ((i : ℕ) (n : NodeData) → get_elem? ds i ≡ some n → n.node_id < k)
    → IsBelow k id_map
    → IsBelow k (insert_uids ds id_map)
unfolding insert_uids
insert_uids-IsBelow k [] id_map low below = below
insert_uids-IsBelow k (d ∷ ds) id_map low below =
    insert_uids-IsBelow k ds (insert_uid d.node_uid d.node_id id_map) (λ i n h. low (suc i) n h)
      (insert_uid-IsBelow k d.node_id d.node_uid id_map (low 0 d refl) below)

-- A longer chart.
IsBelow-mono : (j k : ℕ) (id_map : List (String × ℕ)) → j ≤ k → IsBelow j id_map → IsBelow k id_map
unfolding IsBelow
IsBelow-mono j k id_map le below = λ u i h. (let b = below u i h in omega arith)

pub IsPlaced-mono : (j k i : ℕ) (n : NodeData) → j ≤ k → IsPlaced j i n → IsPlaced k i n
unfolding IsPlaced AreBelow
IsPlaced-mono j k i n le p =
    (p.0, λ id m. (let b = p.1 id m in omega arith), λ id m. (let b = p.2 id m in omega arith))

append-ArePlaced :
    (ns : List NodeData) (uid : Option String)
    → ArePlaced (length ns) ns
    → ArePlaced
        (length (ns ++ create_node (length ns) uid ∷ []))
        (ns ++ create_node (length ns) uid ∷ [])
unfolding ArePlaced
append-ArePlaced ns uid placed =
    let x = create_node (length ns) uid in
    let k = length (ns ++ x ∷ []) in
    let more : length ns ≤ k = omega (arith, length-append ns (x ∷ [])) in
    (
      refl,
      λ i n h. elim (get_elem?-append ns i x n h) [
        | inl g ↦ IsPlaced-mono (length ns) k i n more (placed.1 i n g)
        | inr (e, f) ↦
            subst (λ j. IsPlaced k j n) (sym e)
              (subst (IsPlaced k (length ns)) f (create_node-IsPlaced k (length ns) uid))
      ],
    )

-- Nodes in their places, and ids of theirs.
unfoldable pub AreLinked : List (String × ℕ) × List NodeData → Type 0
AreLinked r = IsBelow (length r.1) r.0 × ArePlaced (length r.1) r.1

pub add_missing-AreLinked :
    (nodes : List YamlNode) (id_map : List (String × ℕ)) (ns : List NodeData)
    → AreLinked (id_map, ns)
    → AreLinked (add_missing nodes id_map ns) × (length ns ≤ length (add_missing nodes id_map ns).1)
unfolding add_missing AreLinked
add_missing-AreLinked [] id_map ns linked = (linked, omega arith)
add_missing-AreLinked (node ∷ nodes) id_map ns linked = elim (Option-cases node.uid) [
  | inl e ↦ rw (e, add_missing) (add_missing-AreLinked nodes id_map ns linked)
  | inr (uid, e) ↦ elim (Option-cases (find_index uid ns)) [
    | inr (i, f) ↦ rw (e, f, add_missing) (add_missing-AreLinked nodes id_map ns linked)
    | inl f ↦
        let ns' = ns ++ create_node (length ns) (some uid) ∷ [] in
        let longer = length-append ns (create_node (length ns) (some uid) ∷ []) in
        let below' =
          put_name-IsBelow (length ns') uid (length ns) id_map (omega (arith, longer))
            (IsBelow-mono (length ns) (length ns') id_map (omega (arith, longer)) linked.0) in
        let rest =
          add_missing-AreLinked nodes (put_name uid (length ns) id_map) ns'
            (below', append-ArePlaced ns (some uid) linked.1) in
        rw (e, f, add_missing) (rest.0, (let b = rest.1 in omega (arith, longer)))
  ]
]
