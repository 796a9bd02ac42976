-- ===== src/Namespace/Nodes.antt =====
-- NamespaceTree::NamespaceNode, its content and its children, and the walk from the root to a node.
use moq_testbed.Prelude.{
  ℕ, Bool, true, false, ◌||◌, Option, none, some, List, [], ◌∷◌, ◌++◌, ite, ltb,
}
use moq_testbed.Prelude.Assoc.{is_some}
use moq_testbed.Services.Rules.{Str, str_discrete}

-- The fields that the tree reads of moxygen's `TrackFilter`.
pub record TrackFilter : Type 0 where
  pub property_type : ℕ
  pub max_selected : ℕ

-- The options are moxygen's enumeration, as a number.
pub record NamespaceSubscriberInfo : Type 0 where
  pub forward : Bool
  pub options : ℕ
  pub namespace_publish_handle : Option ℕ
  pub track_namespace_prefix : List Str
  pub track_filter : Option TrackFilter

-- What `hasContent` asks for.
pub record Content : Type 0 where
  pub publisher_session : Option ℕ
  pub publishes : List (Str × ℕ)
  pub subscribers : List (ℕ × NamespaceSubscriberInfo)
  pub draft14_pub_ns_handles : List (ℕ × ℕ)

-- The other fields of a node. A null ranking is `none`.
pub record NodeInfo : Type 0 where
  pub track_namespace : List Str
  pub publisher_peer_id : Str
  pub publish_namespace_callback : Option ℕ
  pub publish_namespace_ok : Option ℕ
  pub rankings : List (ℕ × Option ℕ)

-- A node has its `activeChildCount_` before its children.
mutual
  pub data NamespaceNode : Type 0 where
    node : NodeInfo → Content → ℕ → Children → NamespaceNode

  pub data Children : Type 0 where
    nil : Children
    child : Str → NamespaceNode → Children → Children

abbrev pub nonempty : {A : Type 0} → List A → Bool
nonempty [] = false
nonempty (a ∷ rest) = true

abbrev pub no_content : Content
no_content = record {
  publisher_session = none;
  publishes = [];
  subscribers = [];
  draft14_pub_ns_handles = [];
}

abbrev pub new_info : List Str → NodeInfo
new_info ns = record {
  track_namespace = ns;
  publisher_peer_id = [];
  publish_namespace_callback = none;
  publish_namespace_ok = none;
  rankings = [];
}

abbrev pub new_node : List Str → NamespaceNode
new_node ns = node (new_info ns) no_content 0 nil

abbrev pub info_of : NamespaceNode → NodeInfo
info_of (node i c count cs) = i

abbrev pub content_of : NamespaceNode → Content
content_of (node i c count cs) = c

abbrev pub with_info : NodeInfo → NamespaceNode → NamespaceNode
with_info j (node i c count cs) = node j c count cs

abbrev pub with_content : Content → NamespaceNode → NamespaceNode
with_content d (node i c count cs) = node i d count cs

-- `hasContent`.
unfoldable pub has_content : Content → Bool
has_content c =
    nonempty c.publishes
    || nonempty c.subscribers
    || nonempty c.draft14_pub_ns_handles
    || is_some c.publisher_session

-- `shouldKeep`.
unfoldable pub keep : Content → ℕ → Bool
unfolding has_content
keep c count = has_content c || ltb 0 count

abbrev pub should_keep : NamespaceNode → Bool
should_keep (node i c count cs) = keep c count

-- `children_.find` and `children_.erase`.
unfoldable pub find_child : Str → Children → Option NamespaceNode
unfolding str_discrete
find_child k nil = none
find_child k (child j n cs) = ite (str_discrete j k) (some n) (find_child k cs)

unfoldable pub erase_child : Str → Children → Children
unfolding str_discrete
erase_child k nil = nil
erase_child k (child j n cs) =
    ite (str_discrete j k) (erase_child k cs) (child j n (erase_child k cs))

-- A node above the one an operation is at: its fields, the key of the child that the way goes
-- through, and the other children.
pub record Frame : Type 0 where
  pub info : NodeInfo
  pub content : Content
  pub count : ℕ
  pub key : Str
  pub siblings : Children

-- The whole tree, from a node and the frames above it.
abbrev pub plug : List Frame → NamespaceNode → NamespaceNode
plug [] n = n
plug (f ∷ fs) n = plug fs (node f.info f.content f.count (child f.key n f.siblings))

abbrev pub Subscribers : Type 0
Subscribers = List (ℕ × NamespaceSubscriberInfo)

-- A node with the frames above it, and the subscribers met on the way.
pub record Place : Type 0 where
  pub at_node : NamespaceNode
  pub above : List Frame
  pub met : Subscribers

pub data MatchType : Type 0 where
  exact prefix_match : MatchType

abbrev pub down : Str → NodeInfo → Content → ℕ → Children → Frame
down k i c count cs = record {
  info = i;
  content = c;
  count = count;
  key = k;
  siblings = erase_child k cs;
}

abbrev pub missing : MatchType → NamespaceNode → List Frame → Subscribers → Option Place
missing prefix_match n (f ∷ fs) met = some (record { at_node = n; above = f ∷ fs; met = met })
missing mode n fs met = none

-- The loop of `findNode`, with the names passed and those to go.
unfoldable pub find_from :
    Bool → MatchType → List Str → List Str → NamespaceNode → List Frame → Subscribers → Option Place
unfolding find_child erase_child
find_from create mode passed [] n fs met = some (record { at_node = n; above = fs; met = met })
find_from create mode passed (k ∷ ns) (node i c count cs) fs met =
    let here = met ++ c.subscribers in
    let partial = passed ++ k ∷ [] in
    elim (find_child k cs) [
      | some m ↦ find_from create mode partial ns m (down k i c count cs ∷ fs) here
      | none ↦ elim create [
        | true ↦ find_from create mode partial ns (new_node partial) (down k i c count cs ∷ fs) here
        | false ↦ missing mode (node i c count cs) fs here
      ]
    ]

unfoldable pub find_node : List Str → Bool → MatchType → NamespaceNode → Option Place
unfolding find_from
find_node ns create mode root = find_from create mode [] ns root [] []
