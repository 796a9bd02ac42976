-- ===== src/Tests/Namespaces.antt =====
-- NamespaceTree on short paths. A name is one byte long.
use moq_testbed.Prelude.{
  ℕ, length, ◌≤◌, ◌≡◌, refl, true, some, none, Option, List, [], ◌∷◌, ◌++◌, arith, ℕ_discrete,
  lookup,
}
use moq_testbed.Prelude.Assoc.{emplace, erase_key}
use moq_testbed.Services.Rules.{Str, str_discrete}
use moq_testbed.Namespace.Nodes.{
  NamespaceNode, NamespaceSubscriberInfo, node, nil, child, new_info, new_node, no_content,
  has_content, find_from, find_node, find_child, erase_child, keep,
}
use moq_testbed.Namespace.Operations.{
  increment_active_children, prune_from, mutate, set_publisher, unpublish_namespace,
  add_namespace_subscriber, remove_namespace_subscriber, try_prune_self,
  notify_parent_if_first_content, find_publisher_session,
}
use moq_testbed.Namespace.Counts.{Counted}
use moq_testbed.Namespace.Contents.{content_at}
use moq_testbed.Namespace.Requests.{
  Request, announce, unannounce, subscribe, unsubscribe, handle, handle_all, handle_all-Becomes,
  Becomes, new_tree-Counted,
}
use moq_testbed.Namespace.Publishers.{
  find_publisher_session-announced, find_publisher_session-prefix,
}
use moq_testbed.Namespace.Walks.{
  Visit, size, sum, total, for_each_node_in_subtree, for_each_node_in_subtree-total,
}

abbrev a : Str
a = 97 ∷ []

abbrev b : Str
b = 98 ∷ []

abbrev root : NamespaceNode
root = new_node []

abbrev info : NamespaceSubscriberInfo
info = record {
  forward = true;
  options = 0;
  namespace_publish_handle = none;
  track_namespace_prefix = [];
  track_filter = none;
}

abbrev requests : List Request
requests =
    announce (a ∷ b ∷ []) 1 none [] 5
    ∷ subscribe (a ∷ []) 2 info
    ∷ unannounce (a ∷ b ∷ []) 1
    ∷ unsubscribe (a ∷ []) 2
    ∷ []

handle_all-Becomes_example :
    (t : NamespaceNode) × ((handle_all requests root ≡ some t)
      × (Counted t × Becomes requests (λ q. content_at q root) (λ q. content_at q t)))
handle_all-Becomes_example = handle_all-Becomes requests root (new_tree-Counted [])

abbrev size_of : Option NamespaceNode → ℕ
size_of none = 0
size_of (some t) = size t

-- A publisher that comes and goes leaves the root alone.
pruned :
    size_of (handle_all (announce (a ∷ b ∷ []) 1 none [] 5 ∷ unannounce (a ∷ b ∷ []) 1 ∷ []) root)
    ≡ 1
unfolding handle_all handle set_publisher unpublish_namespace find_node find_from find_child
    erase_child mutate has_content keep increment_active_children prune_from try_prune_self
    notify_parent_if_first_content str_discrete size total
pruned = refl

-- A publisher that is replaced counts twice, and its parent stays.
leaked :
    size_of (
      handle_all
        (announce (a ∷ b ∷ []) 1 none [] 5
          ∷ announce (a ∷ b ∷ []) 2 none [] 6
          ∷ unannounce (a ∷ b ∷ []) 2
          ∷ [])
        root)
    ≡ 2
unfolding handle_all handle set_publisher unpublish_namespace find_node find_from find_child
    erase_child mutate has_content keep increment_active_children prune_from try_prune_self
    notify_parent_if_first_content str_discrete size total
leaked = refl

-- Content on a node that has an active child already counts it again, and its parent stays.
leaked_again :
    size_of (
      handle_all
        (announce (a ∷ b ∷ a ∷ []) 1 none [] 5
          ∷ subscribe (a ∷ b ∷ []) 2 info
          ∷ unsubscribe (a ∷ b ∷ []) 2
          ∷ unannounce (a ∷ b ∷ a ∷ []) 1
          ∷ [])
        root)
    ≡ 2
unfolding handle_all handle set_publisher unpublish_namespace add_namespace_subscriber
    remove_namespace_subscriber find_node find_from find_child erase_child mutate has_content keep
    increment_active_children prune_from try_prune_self notify_parent_if_first_content str_discrete
    size total ℕ_discrete lookup emplace erase_key
leaked_again = refl

-- A publisher at `a`, and a subscriber at `a`, `b`.
abbrev announced : NamespaceNode
announced = node (new_info []) no_content 1 (
    child a
      (node (new_info (a ∷ [])) (record no_content { publisher_session = some 7 }) 1
        (child b
          (node (new_info (a ∷ b ∷ [])) (record no_content { subscribers = (2, info) ∷ [] }) 0 nil)
          nil))
      nil)

holds : (content_at (a ∷ []) announced).publisher_session ≡ some 7
unfolding content_at str_discrete
holds = refl

find_publisher_session-announced_example : find_publisher_session (a ∷ []) announced ≡ some 7
find_publisher_session-announced_example =
    find_publisher_session-announced (a ∷ []) announced 7 holds

-- The subscriber's node is the longest match, and it has no publisher.
hidden_publisher : find_publisher_session (a ∷ b ∷ a ∷ []) announced ≡ none
unfolding find_publisher_session find_node find_from find_child erase_child str_discrete
hidden_publisher = refl

found_prefix : find_publisher_session (a ∷ a ∷ []) announced ≡ some 7
unfolding find_publisher_session find_node find_from find_child erase_child str_discrete
found_prefix = refl

find_publisher_session-prefix_example :
    (p : List Str) × ((r : List Str) × ((a ∷ a ∷ [] ≡ p ++ r)
        × ((content_at p announced).publisher_session ≡ some 7)))
find_publisher_session-prefix_example =
    find_publisher_session-prefix (a ∷ a ∷ []) announced 7 found_prefix

-- The calls weigh the lengths of their namespaces.
abbrev weight : Visit → ℕ
weight (ns, n) = length ns

few : size announced ≤ 3
unfolding size total
few = omega arith

for_each_node_in_subtree-total_example :
    (vs : List Visit) × ((for_each_node_in_subtree 3 [] announced ≡ some vs)
      × (sum weight vs ≡ total weight [] announced))
for_each_node_in_subtree-total_example = for_each_node_in_subtree-total weight 3 [] announced few

visited : total weight [] announced ≡ 3
unfolding total
visited = refl
