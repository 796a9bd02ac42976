-- ===== src/Namespace/Counts.antt =====
-- NamespaceTree: the counts of active children. A count is at least the number of children to keep.
use moq_testbed.Prelude.{
  some_inj, ℕ, ◌+◌, ◌≤◌, ◌≡◌, ◌≢◌, refl, sym, ◌∙◌, subst, Bool, true, false, not, ◌&&◌, none, some,
  List, [], ◌∷◌, ◌==◌, if◌then◌else◌, Bool-cases, inl, inr, arith, if_pos, if_neg,
}
use moq_testbed.Services.Rules.{Str, str_discrete}
use moq_testbed.Namespace.Nodes.{
  Content, NamespaceNode, node, Children, nil, child, has_content, keep, should_keep, find_child,
  erase_child, Frame, plug,
}
use moq_testbed.Namespace.Operations.{increment_active_children}

abbrev pub one_if : Bool → ℕ
one_if true = 1
one_if false = 0

-- The number of children to keep.
false≢true : false ≡ true → ⊥
false≢true h = cc

unfoldable pub kept : Children → ℕ
unfolding keep
kept nil = 0
kept (child k n cs) = one_if (should_keep n) + kept cs

abbrev mutual
  pub Counted : NamespaceNode → Type 0
  Counted (node i c count cs) = (kept cs ≤ count) × CountedAll cs

  pub CountedAll : Children → Type 0
  CountedAll nil = Unit {0}
  CountedAll (child k n cs) = Counted n × CountedAll cs

-- The frames count the siblings, and the node below when it is to be kept; no sibling has its key.
abbrev pub FramesCounted : Bool → List Frame → Type 0
FramesCounted below [] = Unit {0}
FramesCounted below (f ∷ fs) =
    (one_if below + kept f.siblings ≤ f.count)
    × (CountedAll f.siblings
        × ((find_child f.key f.siblings ≡ none) × FramesCounted (keep f.content f.count) fs))

pub plug-Counted :
    (fs : List Frame) (n : NamespaceNode)
    → Counted n
    → FramesCounted (should_keep n) fs
    → Counted (plug fs n)
unfolding kept
plug-Counted [] n cn cf = cn
plug-Counted (f ∷ fs) n cn (h, (cs, (free, cf))) =
    plug-Counted fs (node f.info f.content f.count (child f.key n f.siblings)) (h, (cn, cs)) cf

pub weaken :
    (a b : Bool) (fs : List Frame) → (b ≡ true → a ≡ true) → FramesCounted a fs → FramesCounted b fs
weaken a b [] h cf = tt
weaken true b (f ∷ fs) h (n, rest) =
    (elim (Bool-cases b) [ inl e ↦ rw e n | inr e ↦ rw e (omega arith) ], rest)
weaken false true (f ∷ fs) h (n, rest) = absurd (false≢true (h refl))
weaken false false (f ∷ fs) h (n, rest) = (n, rest)

module _ (j k : Str) (n : NamespaceNode) (cs : Children) where
  pub find_child_here : j ≡ k → find_child k (child j n cs) ≡ some n
  unfolding find_child
  find_child_here e = rw (if_pos _ e) refl

  pub find_child_there : j ≢ k → find_child k (child j n cs) ≡ find_child k cs
  unfolding find_child
  find_child_there ne = rw (if_neg _ ne) refl

pub kept-erase_child : (k : Str) (cs : Children) → kept (erase_child k cs) ≤ kept cs
unfolding kept erase_child
kept-erase_child k nil = omega arith
kept-erase_child k (child j n cs) = ground (arith, kept-erase_child k cs)

pub find_child-erase_child : (k : Str) (cs : Children) → find_child k (erase_child k cs) ≡ none
unfolding find_child erase_child
find_child-erase_child k nil = refl
find_child-erase_child k (child j n cs) = elim (str_discrete j k) [
  | yes e ↦ rw (if_pos _ e) (find_child-erase_child k cs)
  | no ne ↦ rw (if_neg _ ne, if_neg _ ne) (find_child-erase_child k cs)
]

pub kept-find_child :
    (k : Str) (m : NamespaceNode) (cs : Children)
    → find_child k cs ≡ some m
    → one_if (should_keep m) + kept (erase_child k cs) ≤ kept cs
unfolding kept erase_child find_child
kept-find_child k m nil h = cc
kept-find_child k m (child j n cs) h = elim (str_discrete j k) [
  | yes e ↦
      let same : n ≡ m = some_inj (sym (find_child_here j k n cs e) ∙ h) in
      rw (if_pos _ e, ← same) (omega (arith, kept-erase_child k cs))
  | no ne ↦
      rw (if_neg _ ne)
        (omega (arith, kept-find_child k m cs (sym (find_child_there j k n cs ne) ∙ h)))
]

pub erase_child-CountedAll :
    (k : Str) (cs : Children) → CountedAll cs → CountedAll (erase_child k cs)
unfolding erase_child
erase_child-CountedAll k nil cc' = tt
erase_child-CountedAll k (child j n cs) (c, rest) = elim (str_discrete j k) [
  | yes e ↦ rw (if_pos _ e) (erase_child-CountedAll k cs rest)
  | no ne ↦ rw (if_neg _ ne) (c, erase_child-CountedAll k cs rest)
]

pub find_child-Counted :
    (k : Str) (m : NamespaceNode) (cs : Children)
    → CountedAll cs
    → find_child k cs ≡ some m
    → Counted m
unfolding find_child
find_child-Counted k m nil h e = cc
find_child-Counted k m (child j n cs) (c, rest) e = elim (str_discrete j k) [
  | yes y ↦ subst Counted (some_inj (sym (find_child_here j k n cs y) ∙ e)) c
  | no ne ↦ find_child-Counted k m cs rest (sym (find_child_there j k n cs ne) ∙ e)
]

keep-suc : (c : Content) (n : ℕ) → keep c (n + 1) ≡ true
unfolding keep
keep-suc c n = elim (Bool-cases (has_content c)) [ inl e ↦ rw e refl | inr e ↦ rw e (ground arith) ]

kept_already : (c : Content) (n : ℕ) → (n + 1 == 1) && not (has_content c) ≡ false → keep c n ≡ true
unfolding keep
kept_already c n h = elim (Bool-cases (has_content c)) [
  | inl e ↦ rw e refl
  | inr e ↦ let few : (n + 1 == 1) && true ≡ false = rw e at h in rw e (ground arith)
]

-- A count that was not zero, and a node with content, had the child counted above already.
counted_above :
    (c : Content) (n : ℕ) (fs gs : List Frame)
    → FramesCounted (keep c n) fs
    → FramesCounted true gs
    → FramesCounted (keep c (n + 1)) (if (n + 1 == 1) && not (has_content c) then gs else fs)
counted_above c n fs gs cf cg = elim (Bool-cases ((n + 1 == 1) && not (has_content c))) [
  | inl first ↦ rw (keep-suc c n, first) cg
  | inr old ↦ rw (keep-suc c n, old) (weaken (keep c n) true fs (λ t. kept_already c n old) cf)
]

pub increment_active_children-FramesCounted :
    (b : Bool) (fs : List Frame)
    → FramesCounted b fs
    → FramesCounted true (increment_active_children fs)
unfolding increment_active_children keep
increment_active_children-FramesCounted b [] h = tt
increment_active_children-FramesCounted b (f ∷ fs) (h, (cs, (free, cf))) = (
  omega arith,
  (
    cs,
    (
      free,
      counted_above f.content f.count fs (increment_active_children fs) cf
          (increment_active_children-FramesCounted (keep f.content f.count) fs cf),
    ),
  ),
)
