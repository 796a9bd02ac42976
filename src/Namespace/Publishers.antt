-- ===== src/Namespace/Publishers.antt =====
-- NamespaceTree::findPublisherSession, against the contents of the tree.
use moq_testbed.Prelude.{
  some_inj, none≢some, ℕ, ◌≡◌, refl, sym, ◌∙◌, ap, false, none, some, List, [], ◌∷◌, ◌++◌,
  Option-cases, inl, inr,
}
use moq_testbed.Services.Rules.{Str}
use moq_testbed.Namespace.Nodes.{
  Content, NodeInfo, Children, NamespaceNode, node, Frame, Place, Subscribers, prefix_match,
  missing, find_from, find_node, find_child, content_of, no_content, down,
}
use moq_testbed.Namespace.Operations.{find_publisher_session}
use moq_testbed.Namespace.Contents.{content_at}
use moq_testbed.Namespace.Pruning.{free-content_below}
use moq_testbed.Namespace.Places.{find_from-found, find_from-missing}
use moq_testbed.Namespace.Refinement.{found_below}

-- The content of the place stands at a prefix of the path.
abbrev pub AtPrefix : List Str → NamespaceNode → Content → Type 0
AtPrefix ns n c = (p : List Str) × ((r : List Str) × ((ns ≡ p ++ r) × (content_at p n ≡ c)))

own : (n : NamespaceNode) → content_at [] n ≡ content_of n
unfolding content_at
own (node i c count cs) = refl

module _ (k : Str) (ns : List Str) (i : NodeInfo) (c : Content) (count : ℕ) (cs : Children) where
  step :
      (m : NamespaceNode)
      → find_child k cs ≡ some m
      → content_at (k ∷ ns) (node i c count cs) ≡ content_at ns m
  unfolding content_at
  step m e = found_below k ns m cs e

  free_step : find_child k cs ≡ none → content_at (k ∷ ns) (node i c count cs) ≡ no_content
  unfolding content_at
  free_step e = free-content_below k ns cs e

missing-AtPrefix :
    (ns : List Str) (n : NamespaceNode) (fs : List Frame) (met : Subscribers) (p : Place)
    → missing prefix_match n fs met ≡ some p
    → AtPrefix ns n (content_of p.at_node)
unfolding content_at
missing-AtPrefix ns n [] met p h = absurd (none≢some h)
missing-AtPrefix ns n (f ∷ fs) met p h =
    ([], (ns, (refl, own n ∙ ap (λ (q : Place). content_of q.at_node) (some_inj h))))

find_from-AtPrefix :
    (passed ns : List Str) (n : NamespaceNode) (fs : List Frame) (met : Subscribers) (p : Place)
    → find_from false prefix_match passed ns n fs met ≡ some p
    → AtPrefix ns n (content_of p.at_node)
unfolding find_from
find_from-AtPrefix passed [] n fs met p h =
    ([], ([], (refl, own n ∙ ap (λ (q : Place). content_of q.at_node) (some_inj h))))
find_from-AtPrefix passed (k ∷ ns) (node i c count cs) fs met p h =
    elim (Option-cases (find_child k cs)) [
      | inr (m, e) ↦
          let below =
            find_from-AtPrefix (passed ++ k ∷ []) ns m (down k i c count cs ∷ fs)
              (met ++ c.subscribers) p
              (sym (find_from-found prefix_match passed k ns i c count cs fs met false m e) ∙ h) in
          (
            k ∷ below.0,
            (
              below.1.0,
              (
                ap (λ (t : List Str). k ∷ t) below.1.1.0,
                step k below.0 i c count cs m e ∙ below.1.1.1,
              ),
            ),
          )
      | inl e ↦
          missing-AtPrefix (k ∷ ns) (node i c count cs) fs (met ++ c.subscribers) p
            (sym (find_from-missing prefix_match passed k ns i c count cs fs met e) ∙ h)
    ]

find_from_announced :
    (passed ns : List Str) (n : NamespaceNode) (fs : List Frame) (met : Subscribers) (s : ℕ)
    → (content_at ns n).publisher_session ≡ some s
    → (p : Place) × ((find_from false prefix_match passed ns n fs met ≡ some p)
        × ((content_of p.at_node).publisher_session ≡ some s))
unfolding find_from
find_from_announced passed [] n fs met s h = (
  record { at_node = n; above = fs; met = met },
  (refl, ap (λ (c : Content). c.publisher_session) (sym (own n)) ∙ h),
)
find_from_announced passed (k ∷ ns) (node i c count cs) fs met s h =
    elim (Option-cases (find_child k cs)) [
      | inr (m, e) ↦
          let below =
            find_from_announced (passed ++ k ∷ []) ns m (down k i c count cs ∷ fs)
              (met ++ c.subscribers) s
              (ap (λ (x : Content). x.publisher_session) (sym (step k ns i c count cs m e)) ∙ h) in
          (
            below.0,
            (
              find_from-found prefix_match passed k ns i c count cs fs met false m e ∙ below.1.0,
              below.1.1,
            ),
          )
      | inl e ↦ absurd (
          none≢some
            (sym (ap (λ (x : Content). x.publisher_session) (free_step k ns i c count cs e)) ∙ h))
    ]

-- A namespace with a publisher of its own is served by it.
pub find_publisher_session-announced :
    (ns : List Str) (root : NamespaceNode) (s : ℕ)
    → (content_at ns root).publisher_session ≡ some s
    → find_publisher_session ns root ≡ some s
unfolding find_publisher_session find_node
find_publisher_session-announced ns root s h =
    let found = find_from_announced [] ns root [] [] s h in
    rw (found.1.0, find_publisher_session) found.1.1

-- The session that serves a namespace is the publisher of that namespace or of a prefix of it.
pub find_publisher_session-prefix :
    (ns : List Str) (root : NamespaceNode) (s : ℕ)
    → find_publisher_session ns root ≡ some s
    → (p : List Str) × ((r : List Str) × ((ns ≡ p ++ r)
          × ((content_at p root).publisher_session ≡ some s)))
unfolding find_publisher_session find_node
find_publisher_session-prefix ns root s h =
    elim (Option-cases (find_from false prefix_match [] ns root [] [])) [
      | inl e ↦ absurd (none≢some (sym (rw (e, find_publisher_session) refl) ∙ h))
      | inr (p, e) ↦
          let at_prefix = find_from-AtPrefix [] ns root [] [] p e in
          (
            at_prefix.0,
            (
              at_prefix.1.0,
              (
                at_prefix.1.1.0,
                ap (λ (c : Content). c.publisher_session) at_prefix.1.1.1
                    ∙ sym (rw (e, find_publisher_session) refl)
                    ∙ h,
              ),
            ),
          )
    ]
