-- ===== src/Namespace/Refinement.antt =====
-- NamespaceTree: the operations as updates of a map from paths to contents.
use moq_testbed.Prelude.{
  some_inj, none≢some, ℕ, ◌≡◌, ◌≢◌, refl, sym, ◌∙◌, subst, ap, ap₂, Bool, true, false, Option, none,
  some, List, [], ◌∷◌, ◌++◌, Bool-cases, Option-cases, inl, inr, if_pos, if_neg,
}
use moq_testbed.Services.Rules.{Str, str_discrete}
use moq_testbed.Namespace.Nodes.{
  Content, NodeInfo, NamespaceNode, node, Children, nil, child, no_content, new_node, down, exact,
  content_of, with_content, with_info, has_content, keep, should_keep, find_child, erase_child,
  Frame, plug, Place, Subscribers, find_from, find_node,
}
use moq_testbed.Namespace.Operations.{mutate}
use moq_testbed.Namespace.Counts.{Counted, FramesCounted, weaken, find_child_here, find_child_there}
use moq_testbed.Namespace.Contents.{
  content_at, content_below, SameContents, content_here, content_there, plug-SameContents,
}
use moq_testbed.Namespace.Places.{
  IsPlace, missing-exact, find_from-IsPlace, find_from-found, find_from-made, find_from-missing,
}
use moq_testbed.Namespace.Pruning.{free-content_below, mutate-Leaves}

-- The content at one path is new, and at the others as it was.
abbrev pub Updates : List Str → Content → NamespaceNode → NamespaceNode → Type 0
Updates ns d n t =
    (content_at ns t ≡ d) × ((q : List Str) → q ≢ ns → content_at q t ≡ content_at q n)

erased_below :
    (j k : Str) (q : List Str) (cs : Children)
    → j ≢ k
    → content_below k q (erase_child j cs) ≡ content_below k q cs
unfolding content_at erase_child
erased_below j k q nil ne = refl
erased_below j k q (child l n cs) ne = elim (str_discrete l j) [
  | yes e ↦
      let other : l ≢ k = λ y. ne (sym e ∙ y) in
      rw (if_pos _ e) (erased_below j k q cs ne ∙ sym (content_there l k q n cs other))
  | no away ↦ rw (if_neg _ away) (elim (str_discrete l k) [
    | yes e ↦ content_here l k q n (erase_child j cs) e ∙ sym (content_here l k q n cs e)
    | no na ↦
        content_there l k q n (erase_child j cs) na
        ∙ erased_below j k q cs ne
        ∙ sym (content_there l k q n cs na)
  ])
]

pub found_below :
    (k : Str) (q : List Str) (m : NamespaceNode) (cs : Children)
    → find_child k cs ≡ some m
    → content_below k q cs ≡ content_at q m
unfolding content_at find_child
found_below k q m nil h = absurd (none≢some h)
found_below k q m (child j n cs) h = elim (str_discrete j k) [
  | yes e ↦
      content_here j k q n cs e
      ∙ ap (content_at q) (some_inj (sym (find_child_here j k n cs e) ∙ h))
  | no ne ↦
      content_there j k q n cs ne ∙ found_below k q m cs (sym (find_child_there j k n cs ne) ∙ h)
]

made_below : (ns q : List Str) → content_at q (new_node ns) ≡ no_content
unfolding content_at
made_below ns [] = refl
made_below ns (k ∷ q) = refl

child_elsewhere :
    (k : Str) (ns : List Str) (i : NodeInfo) (c : Content) (count : ℕ) (cs : Children)
    → (old new : NamespaceNode) → ((q : List Str) → content_below k q cs ≡ content_at q old)
    → ((q : List Str) → q ≢ ns → content_at q new ≡ content_at q old)
    → (q : List Str) → q ≢ k ∷ ns
    → content_at q (node i c count (child k new (erase_child k cs)))
      ≡ content_at q (node i c count cs)
unfolding content_at
child_elsewhere k ns i c count cs old new h others [] ne = refl
child_elsewhere k ns i c count cs old new h others (l ∷ r) ne = elim (str_discrete k l) [
  | yes e ↦
      let away : r ≢ ns = λ y. ne (ap₂ (λ (x : Str) (xs : List Str). x ∷ xs) (sym e) y) in
      content_here k l r new (erase_child k cs) e
      ∙ others r away
      ∙ sym (h r)
      ∙ ap (λ x. content_below x r cs) e
  | no away ↦ content_there k l r new (erase_child k cs) away ∙ erased_below k l r cs away
]

-- An update below a child is an update of the tree.
child-Updates :
    (k : Str) (ns : List Str) (d : Content) (i : NodeInfo) (c : Content) (count : ℕ) (cs : Children)
    → (old new : NamespaceNode) → ((q : List Str) → content_below k q cs ≡ content_at q old)
    → Updates ns d old new
    → Updates (k ∷ ns) d (node i c count cs) (node i c count (child k new (erase_child k cs)))
unfolding content_at
child-Updates k ns d i c count cs old new h (u, others) = (
  content_here k k ns new (erase_child k cs) refl ∙ u,
  child_elsewhere k ns i c count cs old new h others,
)

-- A place holds what the tree holds at its path, and to change it there is an update.
abbrev pub PlaceOf : List Str → NamespaceNode → List Frame → Content → Place → Type 0
PlaceOf ns n fs d p =
    (m : NamespaceNode) × ((plug fs m ≡ plug p.above (with_content d p.at_node))
      × (Updates ns d n m × (content_at ns n ≡ content_of p.at_node)))

root_elsewhere :
    (i : NodeInfo) (c d : Content) (count : ℕ) (cs : Children) (q : List Str)
    → q ≢ []
    → content_at q (node i d count cs) ≡ content_at q (node i c count cs)
unfolding content_at
root_elsewhere i c d count cs [] ne = absurd (ne refl)
root_elsewhere i c d count cs (k ∷ q) ne = refl

root-PlaceOf :
    (n : NamespaceNode) (fs : List Frame) (met : Subscribers) (d : Content)
    → PlaceOf [] n fs d (record { at_node = n; above = fs; met = met })
unfolding content_at
root-PlaceOf (node i c count cs) fs met d =
    (node i d count cs, (refl, ((refl, root_elsewhere i c d count cs), refl)))

child-PlaceOf :
    (k : Str) (ns : List Str) (d : Content) (i : NodeInfo) (c : Content) (count : ℕ) (cs : Children)
    → (fs : List Frame) (old : NamespaceNode) (p : Place)
    → ((q : List Str) → content_below k q cs ≡ content_at q old)
    → PlaceOf ns old (down k i c count cs ∷ fs) d p
    → PlaceOf (k ∷ ns) (node i c count cs) fs d p
unfolding content_at
child-PlaceOf k ns d i c count cs fs old p h (m, (e, (u, same))) = (
  node i c count (child k m (erase_child k cs)),
  (e, (child-Updates k ns d i c count cs old m h u, h ns ∙ same)),
)

pub find_from-PlaceOf :
    (create : Bool) (passed ns : List Str) (n : NamespaceNode) (fs : List Frame)
    → (met : Subscribers) (p : Place) (d : Content)
    → find_from create exact passed ns n fs met ≡ some p
    → PlaceOf ns n fs d p
unfolding find_from
find_from-PlaceOf create passed [] n fs met p d h =
    subst (PlaceOf [] n fs d) (some_inj h) (root-PlaceOf n fs met d)
find_from-PlaceOf create passed (k ∷ ns) (node i c count cs) fs met p d h =
    let partial = passed ++ k ∷ [] in
    elim (Option-cases (find_child k cs)) [
      | inr (m, e) ↦
          child-PlaceOf k ns d i c count cs fs m p (λ q. found_below k q m cs e)
            (find_from-PlaceOf create partial ns m (down k i c count cs ∷ fs) (met ++ c.subscribers)
              p d (sym (find_from-found exact passed k ns i c count cs fs met create m e) ∙ h))
      | inl e ↦ elim (Bool-cases create) [
        | inl y ↦
            child-PlaceOf k ns d i c count cs fs (new_node partial) p
              (λ q. free-content_below k q cs e ∙ sym (made_below partial q))
              (find_from-PlaceOf true partial ns (new_node partial) (down k i c count cs ∷ fs)
                (met ++ c.subscribers) p d
                (sym (find_from-made exact passed k ns i c count cs fs met e) ∙ rw y at h))
        | inr y ↦ absurd (
            missing-exact (node i c count cs) fs (met ++ c.subscribers) p
              (sym (find_from-missing exact passed k ns i c count cs fs met e) ∙ rw y at h))
      ]
    ]

-- The operation ends, with a tree that counts its children and has one path's content updated.
abbrev pub Refines : List Str → Content → NamespaceNode → Option NamespaceNode → Type 0
Refines ns d root o = (t : NamespaceNode) × ((o ≡ some t) × (Counted t × Updates ns d root t))

change_info :
    (n : NamespaceNode) (e d : Content) (j : NodeInfo)
    → SameContents (with_content d (with_info j (with_content e n))) (with_content d n)
unfolding content_at
change_info (node i c count cs) e d j [] = refl
change_info (node i c count cs) e d j (k ∷ q) = refl

changed-Counted : (n : NamespaceNode) (e : Content) → Counted n → Counted (with_content e n)
changed-Counted (node i c count cs) e h = h

less_keep :
    (c e : Content) (n : ℕ)
    → (has_content e ≡ true → has_content c ≡ true)
    → keep e n ≡ true
    → keep c n ≡ true
unfolding keep
less_keep c e n h k = elim (Bool-cases (has_content e)) [
  | inl y ↦ rw (h y) refl
  | inr y ↦ elim (Bool-cases (has_content c)) [ inl z ↦ rw z refl | inr z ↦ rw z (rw y at k) ]
]

changed-FramesCounted :
    (n : NamespaceNode) (e : Content) (fs : List Frame)
    → (has_content e ≡ true → has_content (content_of n) ≡ true)
    → FramesCounted (should_keep n) fs
    → FramesCounted (should_keep (with_content e n)) fs
changed-FramesCounted (node i c count cs) e fs h cf =
    weaken (keep c count) (keep e count) fs (less_keep c e count h) cf

-- A place of the tree, and a mutation at it.
pub mutate-Refines :
    (create : Bool) (ns : List Str) (root : NamespaceNode) (p : Place) (d e : Content)
    (j : NodeInfo)
    → Counted root
    → find_node ns create exact root ≡ some p
    → (has_content e ≡ true → has_content (content_of p.at_node) ≡ true)
    → Refines ns d root (mutate d j (with_content e p.at_node) p.above)
unfolding find_node
mutate-Refines create ns root p d e j counted h less =
    let ok : IsPlace p = find_from-IsPlace create exact [] ns root [] [] p (counted, tt) h in
    let place = find_from-PlaceOf create [] ns root [] [] p d h in
    let n = p.at_node in
    let left =
      mutate-Leaves d j (with_content e n) p.above (changed-Counted n e ok.0)
        (changed-FramesCounted n e p.above less ok.1) in
    let same : SameContents left.0 place.0 = λ q.
      left.1.1.1 q
      ∙ plug-SameContents p.above (with_content d (with_info j (with_content e n)))
          (with_content d n) (change_info n e d j) q
      ∙ ap (content_at q) (sym place.1.0) in
    (
      left.0,
      (left.1.0, (left.1.1.0, (same ns ∙ place.1.1.0.0, λ q ne. same q ∙ place.1.1.0.1 q ne))),
    )

-- Where the walk fails the tree holds nothing.
pub find_from-no_content :
    (passed ns : List Str) (n : NamespaceNode) (fs : List Frame) (met : Subscribers)
    → find_from false exact passed ns n fs met ≡ none
    → content_at ns n ≡ no_content
unfolding find_from content_at
find_from-no_content passed [] n fs met h = absurd (none≢some (sym h))
find_from-no_content passed (k ∷ ns) (node i c count cs) fs met h =
    elim (Option-cases (find_child k cs)) [
      | inr (m, e) ↦
          found_below k ns m cs e
          ∙ find_from-no_content (passed ++ k ∷ []) ns m (down k i c count cs ∷ fs)
              (met ++ c.subscribers)
              (sym (find_from-found exact passed k ns i c count cs fs met false m e) ∙ h)
      | inl e ↦ free-content_below k ns cs e
    ]
