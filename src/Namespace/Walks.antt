-- ===== src/Namespace/Walks.antt =====
-- NamespaceTree::walkTree and forEachNodeInSubtree. A visitor's call is an entry of a list.
use moq_testbed.Prelude.{
  ℕ, zero, suc, ◌+◌, ◌≤◌, ◌≡◌, refl, Option, none, some, List, [], ◌∷◌, ◌++◌, arith,
}
use moq_testbed.Services.Rules.{Str}
use moq_testbed.Namespace.Nodes.{NamespaceNode, node, Children, nil, child}

-- `begin` with the child's key and the node, and `end`.
pub data Call : Type 0 where
  begin : Str → NamespaceNode → Call
  leave : Call

unfoldable mutual
  pub walk : Str → NamespaceNode → List Call
  walk key (node i c count cs) = begin key (node i c count cs) ∷ (walk_children cs ++ leave ∷ [])

  pub walk_children : Children → List Call
  walk_children nil = []
  walk_children (child k n cs) = walk k n ++ walk_children cs

abbrev pub walk_tree : NamespaceNode → List Call
unfolding walk
walk_tree root = walk [] root

-- A node with its namespace.
abbrev pub Visit : Type 0
Visit = List Str × NamespaceNode

abbrev pub children_visits : List Str → Children → List Visit
children_visits ns nil = []
children_visits ns (child k n cs) = (ns ++ k ∷ [], n) ∷ children_visits ns cs

abbrev pub next_visits : Visit → List Visit
next_visits (ns, node i c count cs) = children_visits ns cs

-- The loop of `forEachNodeInSubtree`, on fuel, with its queue.
unfoldable pub visit_queue : ℕ → List Visit → Option (List Visit)
visit_queue fuel [] = some []
visit_queue zero (v ∷ queue) = none
visit_queue (suc fuel) (v ∷ queue) = elim (visit_queue fuel (queue ++ next_visits v)) [
  | none ↦ none
  | some vs ↦ some (v ∷ vs)
]

unfoldable pub for_each_node_in_subtree : ℕ → List Str → NamespaceNode → Option (List Visit)
unfolding visit_queue
for_each_node_in_subtree fuel ns n = visit_queue fuel ((ns, n) ∷ [])

-- What the nodes of a subtree weigh together, each with its namespace.
module _ (weight : Visit → ℕ) where
  unfoldable mutual
    pub total : List Str → NamespaceNode → ℕ
    total ns (node i c count cs) = weight (ns, node i c count cs) + total_children ns cs

    pub total_children : List Str → Children → ℕ
    total_children ns nil = 0
    total_children ns (child k n cs) = total (ns ++ k ∷ []) n + total_children ns cs

  abbrev pub sum : List Visit → ℕ
  sum [] = 0
  sum (v ∷ vs) = weight v + sum vs

  abbrev queue_total : List Visit → ℕ
  unfolding total
  queue_total [] = 0
  queue_total (v ∷ vs) = total v.0 v.1 + queue_total vs

  queue_total-append :
      (xs ys : List Visit) → queue_total (xs ++ ys) ≡ queue_total xs + queue_total ys
  unfolding queue_total
  queue_total-append [] ys = omega arith
  queue_total-append (x ∷ xs) ys = omega (arith, queue_total-append xs ys)

  queue_total-children :
      (ns : List Str) (cs : Children) → queue_total (children_visits ns cs) ≡ total_children ns cs
  unfolding queue_total total
  queue_total-children ns nil = refl
  queue_total-children ns (child k n cs) = omega (arith, queue_total-children ns cs)

-- The number of nodes of a subtree.
unfoldable pub size : NamespaceNode → ℕ
unfolding total
size n = total (λ v. 1) [] n

mutual
  unfolding total

  total-path : (ns ms : List Str) (n : NamespaceNode) → total (λ v. 1) ns n ≡ total (λ v. 1) ms n
  total-path ns ms (node i c count cs) = omega (arith, total_children-path ns ms cs)

  total_children-path :
      (ns ms : List Str) (cs : Children)
      → total_children (λ v. 1) ns cs ≡ total_children (λ v. 1) ms cs
  total_children-path ns ms nil = refl
  total_children-path ns ms (child k n cs) =
      omega (arith, total-path (ns ++ k ∷ []) (ms ++ k ∷ []) n, total_children-path ns ms cs)

visit_queue-total :
    (weight : Visit → ℕ) (fuel : ℕ) (queue : List Visit)
    → queue_total (λ v. 1) queue ≤ fuel
    → (vs : List Visit) × ((visit_queue fuel queue ≡ some vs)
        × (sum weight vs ≡ queue_total weight queue))
unfolding visit_queue queue_total total
visit_queue-total weight fuel [] h = ([], (refl, refl))
visit_queue-total weight zero ((ns, node i c count cs) ∷ queue) h = absurd (omega arith)
visit_queue-total weight (suc fuel) ((ns, node i c count cs) ∷ queue) h =
    let more = children_visits ns cs in
    let enough : queue_total (λ v. 1) (queue ++ more) ≤ fuel =
      omega (arith, queue_total-append (λ v. 1) queue more, queue_total-children (λ v. 1) ns cs) in
    let rest = visit_queue-total weight fuel (queue ++ more) enough in
    (
      (ns, node i c count cs) ∷ rest.0,
      (
        rw (rest.1.0, visit_queue) refl,
        omega (
          arith,
          rest.1.1,
          queue_total-append weight queue more,
          queue_total-children weight ns cs,
        ),
      ),
    )

-- The loop ends once it has as much fuel as the subtree has nodes. It then has called the visitor for
-- each node of the subtree, with its namespace, once: whatever the calls weigh, they weigh together
-- what the nodes of the subtree do.
pub for_each_node_in_subtree-total :
    (weight : Visit → ℕ) (fuel : ℕ) (ns : List Str) (n : NamespaceNode)
    → size n ≤ fuel
    → (vs : List Visit) × ((for_each_node_in_subtree fuel ns n ≡ some vs)
        × (sum weight vs ≡ total weight ns n))
unfolding for_each_node_in_subtree queue_total size
for_each_node_in_subtree-total weight fuel ns n h =
    let all = visit_queue-total weight fuel ((ns, n) ∷ []) (omega (arith, total-path [] ns n)) in
    (all.0, (all.1.0, omega (arith, all.1.1)))
