-- ===== src/Namespace/Pruning.antt =====
-- NamespaceTree: the guard of a mutation, with the counts and the contents it leaves.
use moq_testbed.Prelude.{
  none≢some, ℕ, ◌-◌, ◌≤◌, ◌≡◌, refl, sym, ◌∙◌, subst, true, false, Option, none, some, List, [],
  ◌∷◌, ◌==◌, Bool-cases, inl, inr, arith,
}
use moq_testbed.Services.Rules.{Str, str_discrete}
use moq_testbed.Namespace.Nodes.{
  Content, NodeInfo, NamespaceNode, node, Children, nil, child, no_content, with_content, with_info,
  has_content, keep, should_keep, find_child, Frame, plug,
}
use moq_testbed.Namespace.Operations.{
  increment_active_children, prune_from, try_prune_self, notify_parent_if_first_content, mutate,
}
use moq_testbed.Namespace.Counts.{
  Counted, FramesCounted, weaken, find_child_here, find_child_there, plug-Counted,
  increment_active_children-FramesCounted,
}
use moq_testbed.Namespace.Contents.{
  content_at, content_below, SameContents, Empties, content_here, content_there, plug-SameContents,
  increment_active_children-SameContents, unkept-Empties,
}

-- The tree that comes out counts its children and holds the same as another.
abbrev pub Leaves : NamespaceNode → Option NamespaceNode → Type 0
Leaves n o = (t : NamespaceNode) × ((o ≡ some t) × (Counted t × SameContents t n))

pub free-content_below :
    (k : Str) (q : List Str) (cs : Children)
    → find_child k cs ≡ none
    → content_below k q cs ≡ no_content
unfolding content_at find_child
free-content_below k q nil h = refl
free-content_below k q (child j n cs) h = elim (str_discrete j k) [
  | yes e ↦ absurd (none≢some (sym h ∙ find_child_here j k n cs e))
  | no ne ↦
      content_there j k q n cs ne
      ∙ free-content_below k q cs (sym (find_child_there j k n cs ne) ∙ h)
]

-- A child that holds nothing can go.
without_child :
    (f : Frame) (count : ℕ) (n : NamespaceNode)
    → find_child f.key f.siblings ≡ none
    → Empties n
    → SameContents
        (node f.info f.content count f.siblings)
        (node f.info f.content f.count (child f.key n f.siblings))
unfolding content_at
without_child f count n free h [] = refl
without_child f count n free h (k ∷ q) = elim (str_discrete f.key k) [
  | yes e ↦
      subst (λ x. content_below x q f.siblings ≡ no_content) e
        (free-content_below f.key q f.siblings free)
      ∙ sym (content_here f.key k q n f.siblings e ∙ h q)
  | no ne ↦ sym (content_there f.key k q n f.siblings ne)
]

counts : (n : ℕ) → 1 ≤ n → (n == 0) ≡ false
counts n h = ground arith

keep-positive : (c : Content) (n : ℕ) → 1 ≤ n → keep c n ≡ true
unfolding keep
keep-positive c n h = elim (Bool-cases (has_content c)) [
  | inl e ↦ rw e refl
  | inr e ↦ rw e (ground arith)
]

pub prune_from-Leaves :
    (f : Frame) (fs : List Frame) (n : NamespaceNode)
    → FramesCounted true (f ∷ fs)
    → Empties n
    → Leaves (plug (f ∷ fs) n) (prune_from f fs)
unfolding prune_from keep
prune_from-Leaves f [] n (h, (cs, (free, cf))) e =
    let t : NamespaceNode = node f.info f.content (f.count - 1) f.siblings in
    (
      t,
      (
        rw (counts f.count (omega arith)) refl,
        ((omega arith, cs), without_child f (f.count - 1) n free e),
      ),
    )
prune_from-Leaves f (g ∷ gs) n (h, (cs, (free, cf))) e =
    let t : NamespaceNode = node f.info f.content (f.count - 1) f.siblings in
    let old : NamespaceNode = node f.info f.content f.count (child f.key n f.siblings) in
    let ct : Counted t = (omega arith, cs) in
    let same = without_child f (f.count - 1) n free e in
    let up : FramesCounted true (g ∷ gs) =
      weaken (keep f.content f.count) true (g ∷ gs)
        (λ y. keep-positive f.content f.count (omega arith)) cf in
    let some_left : (f.count == 0) ≡ false = counts f.count (omega arith) in
    elim (Bool-cases (keep f.content (f.count - 1))) [
      | inl stays ↦ (
        plug (g ∷ gs) t,
        (
          rw (some_left, stays) refl,
          (plug-Counted (g ∷ gs) t ct (rw stays up), plug-SameContents (g ∷ gs) t old same),
        ),
      )
      | inr goes ↦
          let higher =
            prune_from-Leaves g gs old up (λ q. sym (same q) ∙ unkept-Empties t ct goes q) in
          (higher.0, (rw (some_left, goes) higher.1.0, higher.1.1))
    ]

-- What the guard's end leaves, when the frames count what they hold.
Leaves-plug :
    (fs : List Frame) (n : NamespaceNode) (o : Option NamespaceNode)
    → o ≡ some (plug fs n)
    → Counted n
    → FramesCounted (should_keep n) fs
    → Leaves (plug fs n) o
Leaves-plug fs n o e cn cf = (plug fs n, (e, (plug-Counted fs n cn cf, λ q. refl)))

try_prune_self_new :
    (n : NamespaceNode) (fs : List Frame) → try_prune_self n false fs ≡ some (plug fs n)
unfolding try_prune_self
try_prune_self_new n [] = refl
try_prune_self_new n (f ∷ fs) = refl

try_prune_self-Leaves :
    (n : NamespaceNode) (fs : List Frame)
    → Counted n
    → FramesCounted true fs
    → Leaves (plug fs n) (try_prune_self n true fs)
unfolding try_prune_self
try_prune_self-Leaves n [] cn cf = Leaves-plug [] n (some n) refl cn tt
try_prune_self-Leaves n (f ∷ fs) cn cf = elim (Bool-cases (should_keep n)) [
  | inl stays ↦
      Leaves-plug (f ∷ fs) n (try_prune_self n true (f ∷ fs)) (rw (stays, try_prune_self) refl) cn
        (weaken true (should_keep n) (f ∷ fs) (λ y. refl) cf)
  | inr goes ↦
      let down = prune_from-Leaves f fs n cf (unkept-Empties n cn goes) in
      (down.0, (rw goes down.1.0, down.1.1))
]

had_content : (c : Content) (n : ℕ) → has_content c ≡ true → keep c n ≡ true
unfolding keep
had_content c n h = rw h refl

no_change : (c d : Content) (n : ℕ) → has_content d ≡ false → keep d n ≡ true → keep c n ≡ true
unfolding keep
no_change c d n h k = elim (Bool-cases (has_content c)) [
  | inl e ↦ rw e refl
  | inr e ↦ rw e (rw h at k)
]

pub mutate-Leaves :
    (d : Content) (j : NodeInfo) (n : NamespaceNode) (fs : List Frame)
    → Counted n
    → FramesCounted (should_keep n) fs
    → Leaves (plug fs (with_content d (with_info j n))) (mutate d j n fs)
unfolding mutate notify_parent_if_first_content
mutate-Leaves d j (node i c count cs) fs cn cf =
    let after : NamespaceNode = node j d count cs in
    elim (Bool-cases (has_content c)) [
      | inl had ↦ rw had (try_prune_self-Leaves after fs cn (rw (had_content c count had) at cf))
      | inr none_yet ↦ elim (Bool-cases (has_content d)) [
        | inl first ↦
            let up = increment_active_children fs in
            let cu = increment_active_children-FramesCounted (keep c count) fs cf in
            let all =
              Leaves-plug up after (mutate d j (node i c count cs) fs)
                (rw (none_yet, first) (try_prune_self_new after up)) cn
                (rw (had_content d count first) cu) in
            (
              all.0,
              (
                all.1.0,
                (all.1.1.0, λ q. all.1.1.1 q ∙ increment_active_children-SameContents fs after q),
              ),
            )
        | inr still ↦
            Leaves-plug fs after (mutate d j (node i c count cs) fs)
              (rw (none_yet, still) (try_prune_self_new after fs)) cn
              (weaken (keep c count) (keep d count) fs (no_change c d count still) cf)
      ]
    ]
