-- ===== src/Namespace/Requests.antt =====
-- NamespaceTree: the requests of the relay, one after the other.
use moq_testbed.Prelude.{
  ℕ, ◌≡◌, ◌≢◌, refl, sym, ◌∙◌, ap, subst, Bool, true, false, ◌||◌, Option, none, some, List, [],
  ◌∷◌, if◌then◌else◌, Bool-cases, Option-cases, inl, inr, arith, lookup, ℕ_discrete,
}
use moq_testbed.Prelude.Assoc.{erase_key, is_some}
use moq_testbed.Services.Rules.{Str}
use moq_testbed.Namespace.Nodes.{
  Content, NamespaceNode, NamespaceSubscriberInfo, content_of, info_of, has_content, nonempty,
  with_content, NodeInfo, node, no_content, new_node, Place, find_node, exact,
}
use moq_testbed.Namespace.Operations.{
  mutate, set_publisher, unpublish_namespace, unpublish_track, add_publish,
  add_namespace_subscriber, remove_namespace_subscriber, done, same_session, seated, unseated,
  unannounced, without_track, with_track, with_subscriber, without_subscriber,
}
use moq_testbed.Namespace.Counts.{Counted, kept}
use moq_testbed.Namespace.Contents.{content_at}
use moq_testbed.Namespace.Places.{find_from_place}
use moq_testbed.Namespace.Refinement.{
  Refines, find_from-PlaceOf, find_from-no_content, mutate-Refines,
}

-- A request with its path and its session.
pub data Request : Type 0 where
  announce : List Str → ℕ → Option ℕ → Str → ℕ → Request
  unannounce : List Str → ℕ → Request
  publish : List Str → Str → ℕ → Request
  unpublish : List Str → Str → Request
  subscribe : List Str → ℕ → NamespaceSubscriberInfo → Request
  unsubscribe : List Str → ℕ → Request

abbrev pub tree_of : {A : Type 0} → Option (NamespaceNode × A) → Option NamespaceNode
tree_of none = none
tree_of (some r) = some (r.0)

unfoldable pub handle : Request → NamespaceNode → Option NamespaceNode
unfolding set_publisher unpublish_namespace add_publish unpublish_track add_namespace_subscriber
    remove_namespace_subscriber
handle (announce ns session callback peer request) root =
    tree_of (set_publisher ns session callback peer request root)
handle (unannounce ns session) root = tree_of (unpublish_namespace ns session root)
handle (publish ns track session) root = tree_of (add_publish ns track session root)
handle (unpublish ns track) root = tree_of (unpublish_track ns track root)
handle (subscribe ns session s) root = tree_of (add_namespace_subscriber ns session s root)
handle (unsubscribe ns session) root = tree_of (remove_namespace_subscriber ns session root)

abbrev pub path_of : Request → List Str
path_of (announce ns session callback peer request) = ns
path_of (unannounce ns session) = ns
path_of (publish ns track session) = ns
path_of (unpublish ns track) = ns
path_of (subscribe ns session s) = ns
path_of (unsubscribe ns session) = ns

-- What a request makes of the content at its path.
abbrev pub expected : Request → Content → Content
expected (announce ns session callback peer request) c = seated session c
expected (unannounce ns session) c =
    if same_session c.publisher_session session then unannounced c else c
expected (publish ns track session) c = with_track track session c
expected (unpublish ns track) c = without_track track c
expected (subscribe ns session s) c = with_subscriber session s c
expected (unsubscribe ns session) c = without_subscriber session c

with_own : (n : NamespaceNode) → with_content (content_of n) n ≡ n
with_own (node i c count cs) = refl

or_last : (a b c d : Bool) → a || b || c || false ≡ true → a || b || c || d ≡ true
or_last true b c d h = refl
or_last false true c d h = refl
or_last false false true d h = refl
or_last false false false d h = cc

unseated-has_content : (c : Content) → has_content (unseated c) ≡ true → has_content c ≡ true
unfolding has_content
unseated-has_content c h =
    or_last (nonempty c.publishes) (nonempty c.subscribers) (nonempty c.draft14_pub_ns_handles)
      (is_some c.publisher_session) h

erase_key-absent :
    (k : ℕ) (m : List (ℕ × NamespaceSubscriberInfo))
    → lookup ℕ_discrete k m ≡ none
    → erase_key ℕ_discrete k m ≡ m
unfolding erase_key lookup
erase_key-absent k [] h = refl
erase_key-absent k ((j, v) ∷ m) h = ground (arith, erase_key-absent k m)

absent_subscriber :
    (session : ℕ) (c : Content)
    → lookup ℕ_discrete session c.subscribers ≡ none
    → without_subscriber session c ≡ c
absent_subscriber session c h =
    ap (λ m. record c { subscribers = m }) (erase_key-absent session c.subscribers h)

tree_of-done : {A : Type 0} (a : A) (o : Option NamespaceNode) → tree_of (done a o) ≡ o
tree_of-done a none = refl
tree_of-done a (some t) = refl

module _ (ns : List Str) (root : NamespaceNode) (counted : Counted root) where
  place_content :
      (create : Bool) (p : Place)
      → find_node ns create exact root ≡ some p
      → content_at ns root ≡ content_of p.at_node
  unfolding find_node
  place_content create p h = (find_from-PlaceOf create [] ns root [] [] p no_content h).1.1.1

  missing_content : find_node ns false exact root ≡ none → content_at ns root ≡ no_content
  unfolding find_node
  missing_content h = find_from-no_content [] ns root [] [] h

  made_place : (p : Place) × (find_node ns true exact root ≡ some p)
  unfolding find_node
  made_place = find_from_place [] ns root [] []

  unchanged-Refines : (c : Content) → content_at ns root ≡ c → Refines ns c root (some root)
  unchanged-Refines c h = (root, (refl, (counted, (h, λ q ne. refl))))

  -- A change of the content at the place that the walk comes to.
  place-Refines :
      (create : Bool) (p : Place) (g : Content → Content) (j : NodeInfo)
      → find_node ns create exact root ≡ some p
      → Refines ns
          (g (content_at ns root))
          root
          (mutate (g (content_of p.at_node)) j p.at_node p.above)
  place-Refines create p g j h =
      let c = content_of p.at_node in
      let all = mutate-Refines create ns root p (g c) c j counted h (λ y. y) in
      rw (place_content create p h)
        (subst (λ n. Refines ns (g c) root (mutate (g c) j n p.above)) (with_own p.at_node) all)

  done-Refines :
      {A : Type 0} (d : Content) (a : A) (o : Option NamespaceNode)
      → Refines ns d root o
      → Refines ns d root (tree_of (done a o))
  done-Refines d a o h = rw (tree_of-done a o) h

  announce-Refines :
      (session : ℕ) (callback : Option ℕ) (peer : Str) (request : ℕ)
      → Refines ns
          (seated session (content_at ns root))
          root
          (tree_of (set_publisher ns session callback peer request root))
  unfolding set_publisher
  announce-Refines session callback peer request =
      let p = made_place.0 in
      let c = content_of p.at_node in
      let j : NodeInfo = record (info_of p.at_node) {
        publisher_peer_id = peer;
        publish_namespace_callback = callback;
        track_namespace = ns;
        publish_namespace_ok = some request;
      } in
      rw (made_place.1, set_publisher) rw (tree_of-done _ _, place_content true p made_place.1)
        (mutate-Refines true ns root p (seated session c) (unseated c) j counted made_place.1
          (unseated-has_content c))

  publish-Refines :
      (track : Str) (session : ℕ)
      → Refines ns
          (with_track track session (content_at ns root))
          root
          (tree_of (add_publish ns track session root))
  unfolding add_publish
  publish-Refines track session =
      let p = made_place.0 in
      rw (made_place.1, add_publish) rw (tree_of-done _ _)
        (place-Refines true p (with_track track session) (info_of p.at_node) made_place.1)

  subscribe-Refines :
      (session : ℕ) (s : NamespaceSubscriberInfo)
      → Refines ns
          (with_subscriber session s (content_at ns root))
          root
          (tree_of (add_namespace_subscriber ns session s root))
  unfolding add_namespace_subscriber
  subscribe-Refines session s =
      let p = made_place.0 in
      rw (made_place.1, add_namespace_subscriber)
        (done-Refines _ tt _
          (place-Refines true p (with_subscriber session s) (info_of p.at_node) made_place.1))

  unpublish-Refines :
      (track : Str)
      → Refines ns
          (without_track track (content_at ns root))
          root
          (tree_of (unpublish_track ns track root))
  unfolding unpublish_track
  unpublish-Refines track = elim (Option-cases (find_node ns false exact root)) [
    | inl e ↦
        rw (e, unpublish_track) rw (missing_content e)
          (unchanged-Refines no_content (missing_content e))
    | inr (p, e) ↦
        rw (e, unpublish_track) rw (tree_of-done _ _)
          (place-Refines false p (without_track track) (info_of p.at_node) e)
  ]

  unannounce-Refines :
      (session : ℕ)
      → Refines ns
          (expected (unannounce ns session) (content_at ns root))
          root
          (tree_of (unpublish_namespace ns session root))
  unfolding unpublish_namespace
  unannounce-Refines session = elim (Option-cases (find_node ns false exact root)) [
    | inl e ↦
        rw (e, unpublish_namespace) rw (missing_content e)
          (unchanged-Refines no_content (missing_content e))
    | inr (p, e) ↦
        let c = content_of p.at_node in
        let j : NodeInfo = record (info_of p.at_node) {
          publisher_peer_id = [];
          publish_namespace_callback = none;
        } in
        let here = place_content false p e in
        elim (Bool-cases (same_session c.publisher_session session)) [
          | inl own ↦
              rw (e, unpublish_namespace) rw (here, own, tree_of-done _ _)
                (rw here at place-Refines false p unannounced j e)
          | inr other ↦ rw (e, unpublish_namespace) rw (here, other) (unchanged-Refines c here)
        ]
  ]

  unsubscribe-Refines :
      (session : ℕ)
      → Refines ns
          (without_subscriber session (content_at ns root))
          root
          (tree_of (remove_namespace_subscriber ns session root))
  unfolding remove_namespace_subscriber
  unsubscribe-Refines session = elim (Option-cases (find_node ns false exact root)) [
    | inl e ↦
        rw (e, remove_namespace_subscriber) rw (missing_content e)
          (unchanged-Refines no_content (missing_content e))
    | inr (p, e) ↦
        let c = content_of p.at_node in
        let here = place_content false p e in
        elim (Option-cases (lookup ℕ_discrete session c.subscribers)) [
          | inl free ↦
              rw (e, remove_namespace_subscriber) rw (free, here)
                (unchanged-Refines (without_subscriber session c)
                  (here ∙ sym (absent_subscriber session c free)))
          | inr (s, listed) ↦
              rw (e, remove_namespace_subscriber) rw (listed, tree_of-done _ _)
                (place-Refines false p (without_subscriber session) (info_of p.at_node) e)
        ]
  ]

-- A request ends, and does to the content at its path what is expected, and nothing elsewhere.
pub handle-Refines :
    (r : Request) (root : NamespaceNode)
    → Counted root
    → Refines (path_of r) (expected r (content_at (path_of r) root)) root (handle r root)
unfolding handle
handle-Refines (announce ns session callback peer request) root h =
    announce-Refines ns root h session callback peer request
handle-Refines (unannounce ns session) root h = unannounce-Refines ns root h session
handle-Refines (publish ns track session) root h = publish-Refines ns root h track session
handle-Refines (unpublish ns track) root h = unpublish-Refines ns root h track
handle-Refines (subscribe ns session s) root h = subscribe-Refines ns root h session s
handle-Refines (unsubscribe ns session) root h = unsubscribe-Refines ns root h session

unfoldable pub handle_all : List Request → NamespaceNode → Option NamespaceNode
unfolding handle
handle_all [] root = some root
handle_all (r ∷ rs) root = elim (handle r root) [ none ↦ none | some t ↦ handle_all rs t ]

-- The map from paths to contents that the requests describe.
abbrev pub Contents : Type 0
Contents = List Str → Content

-- A map is what requests make of another.
abbrev pub Becomes : List Request → Contents → Contents → Type 0
Becomes [] f g = (q : List Str) → g q ≡ f q
Becomes (r ∷ rs) f g =
    (h : Contents) × (((h (path_of r) ≡ expected r (f (path_of r)))
        × ((q : List Str) → q ≢ path_of r → h q ≡ f q))
      × Becomes rs h g)

-- Requests from any counted tree all end; no check of a count fails on the way. The tree then holds
-- what the requests, one after the other, make of the contents, and counts its children.
pub handle_all-Becomes :
    (rs : List Request) (root : NamespaceNode)
    → Counted root
    → (t : NamespaceNode) × ((handle_all rs root ≡ some t)
        × (Counted t × Becomes rs (λ q. content_at q root) (λ q. content_at q t)))
unfolding handle_all
handle_all-Becomes [] root h = (root, (refl, (h, λ q. refl)))
handle_all-Becomes (r ∷ rs) root h =
    let one = handle-Refines r root h in
    let rest = handle_all-Becomes rs one.0 one.1.1.0 in
    (
      rest.0,
      (
        rw (one.1.0, handle_all) rest.1.0,
        (rest.1.1.0, ((λ q. content_at q one.0), (one.1.1.1, rest.1.1.1))),
      ),
    )

pub new_tree-Counted : (ns : List Str) → Counted (new_node ns)
unfolding kept
new_tree-Counted ns = (omega arith, tt)
