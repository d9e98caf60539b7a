-- ===== src/Debug/Texts.antt =====
-- Each message is one JSON text.
use asyncflow.ChartData.{NodeData, ChartData, get_subsequence_ids}
use asyncflow.Debug.Complete.{members, serialize_chart_info-IsValue, serialize_debug_data-IsValue}
use asyncflow.Debug.{
  c_str, Token, ChartInfo, object, write_string, write_args, serialize_debug_data, DebugData,
  serialize_event_status, event_status, node_status, loop_count, variable_status, member_string,
  node_message, serialize_all,
}
use asyncflow.Debug.Grammar.{
  AreElements, AreMembers, IsText, IsValue, value-IsText, object-IsValue, append-AreElements,
  value-AreElements, member-AreMembers, string-AreMembers,
}
use asyncflow.Debug.Messages.{
  serialize_infos, id_member, write_pairs, write_strings, method_members, write_all_edges,
  write_nodes, write_edges,
}
use asyncflow.Base.{
  ◌∷◌, ◌++◌, [], String, List, suc, refl, zero, ℤ, negsuc, pos, ◌≤◌, ◌<◌, ◌≡◌, false, Option, true,
  ℕ, arith, some, All, length, get_elem?-some, ◌≢◌, none,
}

pub method-AreMembers : (method : String) → AreMembers (method_members method)
method-AreMembers method = members _ _ (string-AreMembers _ _) (string-AreMembers _ _)

pub id-AreMembers : (id : ℤ) → AreMembers (id_member id)
unfolding id_member AreMembers
id-AreMembers (negsuc zero) ps = refl
id-AreMembers (negsuc (suc n)) ps = refl
id-AreMembers (pos n) ps = refl

-- An object with a method, and other members.
pub request-IsText :
    (method : String) (ts : List Token)
    → AreMembers ts
    → IsText (object (method_members method ++ ts))
request-IsText method ts t =
    value-IsText _ (object-IsValue _ (members _ _ (method-AreMembers method) t))

pub reply-IsText :
    (method name : String) (value : List Token) (id : ℤ)
    → IsValue value
    → IsText (object (method_members method ++ (write_string name ∷ value) ++ id_member id))
reply-IsText method name value id v =
    request-IsText method _ (members _ _ (member-AreMembers name value v) (id-AreMembers id))

pub strings-AreElements : (ss : List String) → AreElements (write_strings ss)
unfolding AreElements
strings-AreElements [] ps = refl
strings-AreElements (s ∷ ss) ps = strings-AreElements ss ps

pub pairs-AreMembers : (rs : List (String × String)) → AreMembers (write_pairs rs)
unfolding AreMembers
pairs-AreMembers [] ps = refl
pairs-AreMembers ((n, v) ∷ rs) ps = pairs-AreMembers rs ps

pub infos-AreElements : (cis : List ChartInfo) → AreElements (serialize_infos cis)
unfolding serialize_infos
infos-AreElements [] = strings-AreElements []
infos-AreElements (ci ∷ cis) =
    append-AreElements _ _ (value-AreElements _ (serialize_chart_info-IsValue ci))
      (infos-AreElements cis)

pub nodes-AreElements : (ns : List NodeData) → AreElements (write_nodes ns)
unfolding write_nodes
nodes-AreElements [] = strings-AreElements []
nodes-AreElements (n ∷ ns) =
    append-AreElements _ _
      (value-AreElements _
        (object-IsValue _ (members _ _ (string-AreMembers _ _) (string-AreMembers _ _))))
      (nodes-AreElements ns)

-- The children of the nodes are nodes of the chart.
abbrev pub ChildrenIn : ℕ → List NodeData → Type 0
ChildrenIn k [] = Unit
ChildrenIn k (n ∷ ns) =
    All (λ i. i < k) (get_subsequence_ids n false)
    × All (λ i. i < k) (get_subsequence_ids n true)
    × ChildrenIn k ns

-- Something is written, and it is elements of an array.
abbrev pub WritesElements : Option (List Token) → Type 0
WritesElements o = (ts : List Token) × (o ≡ some ts) × AreElements ts

edges-WritesElements :
    (cd : ChartData) (parent : String) (is : List ℕ)
    → All (λ i. i < length cd.node_list) is
    → WritesElements (write_edges cd parent is)
unfolding write_edges
edges-WritesElements cd parent [] l = ([], refl, strings-AreElements [])
edges-WritesElements cd parent (i ∷ is) (l, ls) =
    let (n, e) = get_elem?-some cd.node_list i l in
    let (ts, f, t) = edges-WritesElements cd parent is ls in
    (
      object (member_string "parent" parent ++ member_string "child" n.node_uid) ++ ts,
      rw (e, write_edges, f) refl,
      append-AreElements _ _
          (value-AreElements _
            (object-IsValue _ (members _ _ (string-AreMembers _ _) (string-AreMembers _ _))))
          t,
    )

pub all_edges-WritesElements :
    (cd : ChartData) (ns : List NodeData)
    → ChildrenIn (length cd.node_list) ns
    → WritesElements (write_all_edges cd ns)
unfolding write_all_edges
all_edges-WritesElements cd [] l = ([], refl, strings-AreElements [])
all_edges-WritesElements cd (n ∷ ns) (f, s, l) =
    let (fs, ef, tf) = edges-WritesElements cd n.node_uid (get_subsequence_ids n false) f in
    let (ss, es, ts) = edges-WritesElements cd n.node_uid (get_subsequence_ids n true) s in
    let (rs, er, tr) = all_edges-WritesElements cd ns l in
    (
      fs ++ ss ++ rs,
      rw (ef, write_all_edges, es, er) refl,
      append-AreElements (fs ++ ss) rs (append-AreElements fs ss tf ts) tr,
    )

-- The arguments that an event is said to have are there.
abbrev pub HasArgs : DebugData → Type 0
HasArgs (event_status d) = loop_count d.argcount ≤ length d.n_args
HasArgs (node_status d) = Unit
HasArgs (variable_status d) = Unit
HasArgs (node_message d) = Unit

args-WritesElements :
    (k : ℕ) (args : List String) → k ≤ length args → WritesElements (write_args k args)
unfolding write_args
args-WritesElements zero args l = ([], refl, strings-AreElements [])
args-WritesElements (suc k) [] l = absurd (ground arith)
args-WritesElements (suc k) (a ∷ args) l =
    let (ts, e, t) = args-WritesElements k args (ground arith) in
    (
      write_string (c_str a) ∷ ts,
      rw (e, write_args) refl,
      append-AreElements (write_string (c_str a) ∷ []) ts (strings-AreElements (a ∷ [])) t,
    )

-- What is written of the data is elements of an array.
written :
    (d : DebugData) (o : Option (List Token))
    → serialize_debug_data d ≡ o
    → o ≢ none
    → WritesElements o
written d none e f = absurd (f refl)
written d (some ts) e f = (ts, refl, value-AreElements ts (serialize_debug_data-IsValue d ts e))

data-WritesElements : (d : DebugData) → HasArgs d → WritesElements (serialize_debug_data d)
unfolding serialize_debug_data serialize_event_status
data-WritesElements (node_status d) l = written (node_status d) _ refl (λ e. ground (arith, e))
data-WritesElements (variable_status d) l =
    written (variable_status d) _ refl (λ e. ground (arith, e))
data-WritesElements (node_message d) l = written (node_message d) _ refl (λ e. ground (arith, e))
data-WritesElements (event_status d) l =
    let (ts, e, t) = args-WritesElements (loop_count d.argcount) d.n_args l in
    written (event_status d) _ refl (λ f. ground (arith, e, f))

pub debug_list-WritesElements :
    (ds : List DebugData) → All HasArgs ds → WritesElements (serialize_all ds)
unfolding serialize_all
debug_list-WritesElements [] l = ([], refl, strings-AreElements [])
debug_list-WritesElements (d ∷ ds) (l, ls) =
    let (ts, e, t) = data-WritesElements d l in
    let (us, f, u) = debug_list-WritesElements ds ls in
    (ts ++ us, rw (e, serialize_all, f) refl, append-AreElements ts us t u)
