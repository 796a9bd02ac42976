-- ===== src/Namespace/Operations.antt =====
-- NamespaceTree's operations: the guard of a mutation with the counts of active children and the
-- pruning, and what is called under it. A result of `none` is an XCHECK that fails. Where the source
-- calls through a pointer, the operation returns the call.
use moq_testbed.Prelude.{
  ℕ, ◌+◌, ◌-◌, Bool, true, false, not, ◌&&◌, ◌||◌, Option, none, some, List, [], ◌∷◌, ◌++◌, lookup,
  ltb, ◌==◌, if◌then◌else◌, ℕ_discrete, ◌⊎◌, inl, inr,
}
use moq_testbed.Prelude.Assoc.{assign, emplace, erase_key}
use moq_testbed.Services.Rules.{Str, str_discrete}
use moq_testbed.Namespace.Nodes.{
  NamespaceSubscriberInfo, Content, NodeInfo, NamespaceNode, node, content_of, info_of,
  with_content, with_info, has_content, keep, should_keep, Frame, plug, Subscribers, Place, exact,
  prefix_match, find_node,
}

abbrev pub counted_again : Frame → Frame
counted_again f = record f { count = f.count + 1 }

-- `incrementActiveChildren` on the nearest frame. The root has no frame above it.
unfoldable pub increment_active_children : List Frame → List Frame
unfolding has_content
increment_active_children [] = []
increment_active_children (f ∷ fs) =
    let above = increment_active_children fs in
    counted_again f ∷ (if (f.count + 1 == 1) && not (has_content f.content) then above else fs)

-- The loop of `tryPruneChild`, at the parent of a child to erase.
unfoldable pub prune_from : Frame → List Frame → Option NamespaceNode
unfolding has_content
prune_from f [] =
    if f.count == 0 then none else some (node f.info f.content (f.count - 1) f.siblings)
prune_from f (g ∷ gs) =
    let higher = prune_from g gs in
    if f.count == 0
    then none
    else if has_content f.content || ltb 0 (f.count - 1)
    then some (plug (g ∷ gs) (node f.info f.content (f.count - 1) f.siblings))
    else higher

-- `tryPruneChild` for the child that the way comes from.
abbrev pub try_prune_child : NamespaceNode → Frame → List Frame → Option NamespaceNode
try_prune_child n f fs = if should_keep n then some (plug (f ∷ fs) n) else prune_from f fs

-- `notifyParentIfFirstContent`.
unfoldable pub notify_parent_if_first_content : NamespaceNode → Bool → List Frame → List Frame
unfolding has_content increment_active_children
notify_parent_if_first_content n was_empty fs =
    if was_empty && has_content (content_of n) then increment_active_children fs else fs

-- `tryPruneSelf`. A node with a parent has a name.
unfoldable pub try_prune_self : NamespaceNode → Bool → List Frame → Option NamespaceNode
unfolding keep prune_from
try_prune_self n had_content [] = some n
try_prune_self n had_content (f ∷ fs) =
    if had_content && not (should_keep n) then try_prune_child n f fs else some (plug (f ∷ fs) n)

-- A mutation of the node's content under a `NodeMutationGuard`.
unfoldable pub mutate : Content → NodeInfo → NamespaceNode → List Frame → Option NamespaceNode
unfolding has_content notify_parent_if_first_content try_prune_self
mutate d j n fs =
    let had_content = has_content (content_of n) in
    let after = with_content d (with_info j n) in
    try_prune_self after had_content (notify_parent_if_first_content after (not had_content) fs)

pub data Error : Type 0 where
  node_not_found not_owner not_subscribed : Error

abbrev pub done : {A : Type 0} → A → Option NamespaceNode → Option (NamespaceNode × A)
done a none = none
done a (some root) = some (root, a)

pub record SetPublisherResult : Type 0 where
  pub subscribers : Subscribers
  pub replaced_session : Option ℕ
  pub cancelled : Option ℕ

abbrev pub same_session : Option ℕ → ℕ → Bool
same_session none session = false
same_session (some s) session = s == session

-- What `setPublisher` drops before its guard looks at the node.
abbrev pub unseated : Content → Content
unseated c = record c { publisher_session = none }

abbrev pub seated : ℕ → Content → Content
seated session c = record c { publisher_session = some session }

abbrev pub set_publisher_at :
    List Str → ℕ → Option ℕ → Str → ℕ → Place → Option (NamespaceNode × SetPublisherResult)
set_publisher_at ns session callback peer_id request p =
    let c = content_of p.at_node in
    let i = info_of p.at_node in
    let result : SetPublisherResult = record {
      subscribers = p.met ++ c.subscribers;
      replaced_session = c.publisher_session;
      cancelled = elim c.publisher_session [ none ↦ none | some s ↦ i.publish_namespace_callback ];
    } in
    let j = record i {
      publisher_peer_id = peer_id;
      publish_namespace_callback = callback;
      track_namespace = ns;
      publish_namespace_ok = some request;
    } in
    done result (mutate (seated session c) j (with_content (unseated c) p.at_node) p.above)

unfoldable pub set_publisher :
    List Str → ℕ → Option ℕ → Str → ℕ → NamespaceNode → Option (NamespaceNode × SetPublisherResult)
unfolding find_node mutate
set_publisher ns session callback peer_id request root = elim (find_node ns true exact root) [
  | none ↦ none
  | some p ↦ set_publisher_at ns session callback peer_id request p
]

pub record UnpublishNamespaceResult : Type 0 where
  pub subscribers : Subscribers
  pub legacy_handles : List (ℕ × ℕ)

abbrev pub unannounced : Content → Content
unannounced c = record c { publisher_session = none; draft14_pub_ns_handles = [] }

unfoldable pub unpublish_namespace :
    List Str → ℕ → NamespaceNode → Option (NamespaceNode × (Error ⊎ UnpublishNamespaceResult))
unfolding find_node mutate
unpublish_namespace ns session root = elim (find_node ns false exact root) [
  | none ↦ some (root, inl node_not_found)
  | some p ↦
      let c = content_of p.at_node in
      if not (same_session c.publisher_session session)
      then some (root, inl not_owner)
      else let j = record (info_of p.at_node) {
        publisher_peer_id = [];
        publish_namespace_callback = none;
      } in
        let result : UnpublishNamespaceResult = record {
          subscribers = p.met ++ c.subscribers;
          legacy_handles = c.draft14_pub_ns_handles;
        } in
        done (inr result) (mutate (unannounced c) j p.at_node p.above)
]

abbrev pub without_track : Str → Content → Content
without_track track c = record c { publishes = erase_key str_discrete track c.publishes }

unfoldable pub unpublish_track :
    List Str → Str → NamespaceNode → Option (NamespaceNode × (Error ⊎ Unit {0}))
unfolding find_node mutate erase_key
unpublish_track ns track root = elim (find_node ns false exact root) [
  | none ↦ some (root, inl node_not_found)
  | some p ↦
      let c = content_of p.at_node in
      done (inr tt) (mutate (without_track track c) (info_of p.at_node) p.at_node p.above)
]

-- The rankings of a node that are not null, and those of the nodes above it.
abbrev pub present : List (ℕ × Option ℕ) → List (ℕ × ℕ)
present [] = []
present ((p, none) ∷ rs) = present rs
present ((p, some r) ∷ rs) = (p, r) ∷ present rs

abbrev pub rankings_above : List Frame → List (ℕ × ℕ)
rankings_above [] = []
rankings_above (f ∷ fs) = present f.info.rankings ++ rankings_above fs

pub record AddPublishResult : Type 0 where
  pub subscribers : Subscribers
  pub on_ranking : List (ℕ × ℕ)

abbrev pub with_track : Str → ℕ → Content → Content
with_track track session c = record c { publishes = assign str_discrete track session c.publishes }

unfoldable pub add_publish :
    List Str → Str → ℕ → NamespaceNode → Option (NamespaceNode × AddPublishResult)
unfolding find_node mutate assign
add_publish ns track session root = elim (find_node ns true exact root) [
  | none ↦ none
  | some p ↦
      let c = content_of p.at_node in
      let result : AddPublishResult = record {
        subscribers = p.met ++ c.subscribers;
        on_ranking = present (info_of p.at_node).rankings ++ rankings_above p.above;
      } in
      done result (mutate (with_track track session c) (info_of p.at_node) p.at_node p.above)
]

-- `getOrInsertRanking`: the slot for the property, null when it is new.
unfoldable pub get_or_insert_ranking : ℕ → NamespaceNode → NamespaceNode
unfolding emplace ℕ_discrete
get_or_insert_ranking property (node i c count cs) =
    node (record i { rankings = emplace ℕ_discrete property none i.rankings }) c count cs

abbrev pub with_subscriber : ℕ → NamespaceSubscriberInfo → Content → Content
with_subscriber session s c = record c { subscribers = emplace ℕ_discrete session s c.subscribers }

unfoldable pub add_namespace_subscriber :
    List Str → ℕ → NamespaceSubscriberInfo → NamespaceNode → Option (NamespaceNode × Unit {0})
unfolding find_node mutate emplace ℕ_discrete
add_namespace_subscriber ns session s root = elim (find_node ns true exact root) [
  | none ↦ none
  | some p ↦
      let c = content_of p.at_node in
      done tt (mutate (with_subscriber session s c) (info_of p.at_node) p.at_node p.above)
]

-- A call of `removeSessionFromTopNGroup`: the ranking that the slot holds, and the group.
abbrev pub RankingCall : Type 0
RankingCall = Option ℕ × ℕ

abbrev pub ranking_call : NodeInfo → NamespaceSubscriberInfo → Option RankingCall
ranking_call i s = elim s.track_filter [
  | none ↦ none
  | some t ↦ elim (lookup ℕ_discrete t.property_type i.rankings) [
    | none ↦ none
    | some slot ↦ some (slot, t.max_selected)
  ]
]

abbrev pub without_subscriber : ℕ → Content → Content
without_subscriber session c = record c { subscribers = erase_key ℕ_discrete session c.subscribers }

unfoldable pub remove_namespace_subscriber :
    List Str → ℕ → NamespaceNode → Option (NamespaceNode × (Error ⊎ Option RankingCall))
unfolding find_node mutate erase_key lookup ℕ_discrete
remove_namespace_subscriber ns session root = elim (find_node ns false exact root) [
  | none ↦ some (root, inl node_not_found)
  | some p ↦
      let c = content_of p.at_node in
      elim (lookup ℕ_discrete session c.subscribers) [
        | none ↦ some (root, inl not_subscribed)
        | some s ↦
            done (inr (ranking_call (info_of p.at_node) s))
              (mutate (without_subscriber session c) (info_of p.at_node) p.at_node p.above)
      ]
]

-- `addDraft14PublishNamespaceHandle`, on a node that the caller holds.
unfoldable pub add_draft14_publish_namespace_handle : ℕ → ℕ → Content → Content
unfolding emplace ℕ_discrete
add_draft14_publish_namespace_handle session handle c = record c {
  draft14_pub_ns_handles = emplace ℕ_discrete session handle c.draft14_pub_ns_handles;
}

unfoldable pub find_publisher_session : List Str → NamespaceNode → Option ℕ
unfolding find_node
find_publisher_session ns root = elim (find_node ns false prefix_match root) [
  | none ↦ none
  | some p ↦ (content_of p.at_node).publisher_session
]

unfoldable pub find_publish_session : Str → Content → Option ℕ
unfolding lookup str_discrete
find_publish_session track c = lookup str_discrete track c.publishes
