-- ===== src/Namespace/Contents.antt =====
-- NamespaceTree: what a tree holds at each path. A node that is not there holds nothing.
use moq_testbed.Prelude.{
  true≢false, ℕ, ◌+◌, ◌≤◌, ◌≡◌, ◌≢◌, refl, sym, ◌∙◌, Bool, false, not, ◌&&◌, Option, none, some,
  List, [], ◌∷◌, ◌==◌, Bool-cases, inl, inr, arith, if_pos, if_neg, ite,
}
use moq_testbed.Services.Rules.{Str, str_discrete}
use moq_testbed.Namespace.Nodes.{
  Content, NamespaceNode, node, Children, nil, child, no_content, has_content, keep, should_keep,
  Frame, plug, Subscribers,
}
use moq_testbed.Namespace.Operations.{increment_active_children}
use moq_testbed.Namespace.Counts.{Counted, CountedAll, kept, one_if}

unfoldable mutual
  unfolding str_discrete

  pub content_at : List Str → NamespaceNode → Content
  content_at [] (node i c count cs) = c
  content_at (k ∷ p) (node i c count cs) = content_below k p cs

  pub content_below : Str → List Str → Children → Content
  content_below k p nil = no_content
  content_below k p (child j n cs) = ite (str_discrete j k) (content_at p n) (content_below k p cs)

module _ (j k : Str) (p : List Str) (n : NamespaceNode) (cs : Children) where
  pub content_here : j ≡ k → content_below k p (child j n cs) ≡ content_at p n
  unfolding content_at
  content_here e = rw (if_pos _ e) refl

  pub content_there : j ≢ k → content_below k p (child j n cs) ≡ content_below k p cs
  unfolding content_at
  content_there ne = rw (if_neg _ ne) refl

-- Two trees that hold the same at each path.
abbrev pub SameContents : NamespaceNode → NamespaceNode → Type 0
SameContents n m = (q : List Str) → content_at q n ≡ content_at q m

child-SameContents :
    (f : Frame) (count : ℕ) (n m : NamespaceNode)
    → SameContents n m
    → SameContents
        (node f.info f.content count (child f.key n f.siblings))
        (node f.info f.content f.count (child f.key m f.siblings))
unfolding content_at
child-SameContents f count n m h [] = refl
child-SameContents f count n m h (k ∷ q) = elim (str_discrete f.key k) [
  | yes e ↦
      content_here f.key k q n f.siblings e ∙ h q ∙ sym (content_here f.key k q m f.siblings e)
  | no ne ↦ content_there f.key k q n f.siblings ne ∙ sym (content_there f.key k q m f.siblings ne)
]

pub plug-SameContents :
    (fs : List Frame) (n m : NamespaceNode)
    → SameContents n m
    → SameContents (plug fs n) (plug fs m)
plug-SameContents [] n m h = h
plug-SameContents (f ∷ fs) n m h =
    plug-SameContents fs (node f.info f.content f.count (child f.key n f.siblings))
      (node f.info f.content f.count (child f.key m f.siblings))
      (child-SameContents f f.count n m h)

pub increment_active_children-SameContents :
    (fs : List Frame) (n : NamespaceNode)
    → SameContents (plug (increment_active_children fs) n) (plug fs n)
unfolding increment_active_children
increment_active_children-SameContents [] n q = refl
increment_active_children-SameContents (f ∷ fs) n q =
    let up : NamespaceNode = node f.info f.content (f.count + 1) (child f.key n f.siblings) in
    let old =
      plug-SameContents fs up (node f.info f.content f.count (child f.key n f.siblings))
        (child-SameContents f (f.count + 1) n n (λ r. refl)) q in
    elim (Bool-cases ((f.count + 1 == 1) && not (has_content f.content))) [
      | inl e ↦
          rw (e, increment_active_children) (increment_active_children-SameContents fs up q ∙ old)
      | inr e ↦ rw (e, increment_active_children) old
    ]

-- A node that is not to be kept has nothing below it.
abbrev pub Empties : NamespaceNode → Type 0
Empties n = (q : List Str) → content_at q n ≡ no_content

no_fields :
    (publisher : Option ℕ) (tracks : List (Str × ℕ)) (subs : Subscribers) (handles : List (ℕ × ℕ))
    → has_content (record {
      publisher_session = publisher;
      publishes = tracks;
      subscribers = subs;
      draft14_pub_ns_handles = handles;
    })
      ≡ false
    → Path Content
        (record {
          publisher_session = publisher;
          publishes = tracks;
          subscribers = subs;
          draft14_pub_ns_handles = handles;
        })
        no_content
unfolding has_content
no_fields none [] [] [] h = refl
no_fields (some s) [] [] [] h = absurd (true≢false h)
no_fields publisher [] [] (x ∷ xs) h = absurd (true≢false h)
no_fields publisher [] (x ∷ xs) handles h = absurd (true≢false h)
no_fields publisher (x ∷ xs) subs handles h = absurd (true≢false h)

no_content-empty : (c : Content) → has_content c ≡ false → c ≡ no_content
no_content-empty c h =
    no_fields c.publisher_session c.publishes c.subscribers c.draft14_pub_ns_handles h

unkept-content : (c : Content) (n : ℕ) → keep c n ≡ false → has_content c ≡ false
unfolding keep
unkept-content c n h = ground arith

unkept-count : (c : Content) (n : ℕ) → keep c n ≡ false → n ≡ 0
unfolding keep
unkept-count c n h = ground arith

one_if-zero : (b : Bool) → one_if b ≤ 0 → b ≡ false
one_if-zero b h = ground arith

mutual
  unfolding content_at kept

  pub unkept-Empties : (n : NamespaceNode) → Counted n → should_keep n ≡ false → Empties n
  unkept-Empties (node i c count cs) (less, all) h [] =
      no_content-empty c (unkept-content c count h)
  unkept-Empties (node i c count cs) (less, all) h (k ∷ q) =
      unkept_below k q cs all (omega (arith, unkept-count c count h))

  unkept_below :
      (k : Str) (q : List Str) (cs : Children)
      → CountedAll cs
      → kept cs ≤ 0
      → content_below k q cs ≡ no_content
  unkept_below k q nil all h = refl
  unkept_below k q (child j n cs) (cn, all) h = elim (str_discrete j k) [
    | yes e ↦
        content_here j k q n cs e
        ∙ unkept-Empties n cn (one_if-zero (should_keep n) (omega arith)) q
    | no ne ↦ content_there j k q n cs ne ∙ unkept_below k q cs all (omega arith)
  ]
