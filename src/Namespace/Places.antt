-- ===== src/Namespace/Places.antt =====
-- NamespaceTree::findNode: the places it comes to.
use moq_testbed.Prelude.{
  some_inj, none≢some, ℕ, ◌+◌, ◌≤◌, ◌≡◌, refl, sym, ◌∙◌, subst, Bool, true, false, Option, none,
  some, List, [], ◌∷◌, ◌++◌, Bool-cases, Option-cases, inl, inr, arith,
}
use moq_testbed.Services.Rules.{Str}
use moq_testbed.Namespace.Nodes.{
  Content, NodeInfo, NamespaceNode, node, Children, new_node, down, has_content, keep, should_keep,
  find_child, erase_child, Frame, Subscribers, Place, MatchType, exact, prefix_match, find_from,
  missing,
}
use moq_testbed.Namespace.Counts.{
  Counted, FramesCounted, kept, kept-erase_child, kept-find_child, erase_child-CountedAll,
  find_child-erase_child, one_if, find_child-Counted,
}

abbrev pub IsPlace : Place → Type 0
IsPlace p = Counted p.at_node × FramesCounted (should_keep p.at_node) p.above

-- Exact walks end at the names' end.
pub missing-exact :
    (n : NamespaceNode) (fs : List Frame) (met : Subscribers) (p : Place)
    → ¬ (missing exact n fs met ≡ some p)
missing-exact n [] met p h = none≢some h
missing-exact n (f ∷ fs) met p h = none≢some h

module _ (mode : MatchType) (passed : List Str) (k : Str) (ns : List Str) (i : NodeInfo)
    (c : Content) (count : ℕ) (cs : Children) (fs : List Frame) (met : Subscribers) where
  abbrev next : Bool → NamespaceNode → Option Place
  next create m =
      find_from create mode (passed ++ k ∷ []) ns m (down k i c count cs ∷ fs)
        (met ++ c.subscribers)

  pub find_from-found :
      (create : Bool) (m : NamespaceNode)
      → find_child k cs ≡ some m
      → find_from create mode passed (k ∷ ns) (node i c count cs) fs met ≡ next create m
  unfolding find_from
  find_from-found create m e = rw (e, find_from) refl

  pub find_from-made :
      find_child k cs ≡ none
      → find_from true mode passed (k ∷ ns) (node i c count cs) fs met
        ≡ next true (new_node (passed ++ k ∷ []))
  unfolding find_from
  find_from-made e = rw (e, find_from) refl

  pub find_from-missing :
      find_child k cs ≡ none
      → find_from false mode passed (k ∷ ns) (node i c count cs) fs met
        ≡ missing mode (node i c count cs) fs (met ++ c.subscribers)
  unfolding find_from
  find_from-missing e = rw (e, find_from) refl

missing-IsPlace :
    (mode : MatchType) (n : NamespaceNode) (fs : List Frame) (met : Subscribers) (p : Place)
    → IsPlace (record { at_node = n; above = fs; met = met })
    → missing mode n fs met ≡ some p
    → IsPlace p
missing-IsPlace exact n fs met p ok h = absurd (missing-exact n fs met p h)
missing-IsPlace prefix_match n [] met p ok h = cc
missing-IsPlace prefix_match n (f ∷ fs) met p ok h = subst IsPlace (some_inj h) ok

down-Counted :
    (k : Str) (i : NodeInfo) (c : Content) (count : ℕ) (cs : Children) (fs : List Frame)
    (below : Bool)
    → one_if below + kept (erase_child k cs) ≤ kept cs
    → Counted (node i c count cs)
    → FramesCounted (keep c count) fs
    → FramesCounted below (down k i c count cs ∷ fs)
down-Counted k i c count cs fs below h (n, all) cf =
    (omega arith, (erase_child-CountedAll k cs all, (find_child-erase_child k cs, cf)))

new_node-Counted : (ns : List Str) → Counted (new_node ns)
unfolding kept
new_node-Counted ns = (omega arith, tt)

new_less :
    (k : Str) (cs : Children) (ns : List Str)
    → one_if (should_keep (new_node ns)) + kept (erase_child k cs) ≤ kept cs
unfolding keep has_content
new_less k cs ns = omega (arith, kept-erase_child k cs)

pub find_from-IsPlace :
    (create : Bool) (mode : MatchType) (passed ns : List Str) (n : NamespaceNode) (fs : List Frame)
    → (met : Subscribers) (p : Place) → IsPlace (record { at_node = n; above = fs; met = met })
    → find_from create mode passed ns n fs met ≡ some p
    → IsPlace p
unfolding find_from
find_from-IsPlace create mode passed [] n fs met p ok h = subst IsPlace (some_inj h) ok
find_from-IsPlace create mode passed (k ∷ ns) (node i c count cs) fs met p (cn, cf) h =
    elim (Option-cases (find_child k cs)) [
      | inr (m, e) ↦
          find_from-IsPlace create mode (passed ++ k ∷ []) ns m (down k i c count cs ∷ fs)
            (met ++ c.subscribers) p
            (
              find_child-Counted k m cs cn.1 e,
              down-Counted k i c count cs fs (should_keep m) (kept-find_child k m cs e) cn cf,
            )
            (sym (find_from-found mode passed k ns i c count cs fs met create m e) ∙ h)
      | inl e ↦ elim (Bool-cases create) [
        | inl y ↦
            find_from-IsPlace true mode (passed ++ k ∷ []) ns (new_node (passed ++ k ∷ []))
              (down k i c count cs ∷ fs) (met ++ c.subscribers) p
              (
                new_node-Counted (passed ++ k ∷ []),
                down-Counted k i c count cs fs (should_keep (new_node (passed ++ k ∷ [])))
                    (new_less k cs (passed ++ k ∷ [])) cn cf,
              )
              (sym (find_from-made mode passed k ns i c count cs fs met e) ∙ rw y at h)
        | inr y ↦
            missing-IsPlace mode (node i c count cs) fs (met ++ c.subscribers) p (cn, cf)
              (sym (find_from-missing mode passed k ns i c count cs fs met e) ∙ rw y at h)
      ]
    ]

-- A walk that makes the nodes that are missing comes to a place.
pub find_from_place :
    (passed ns : List Str) (n : NamespaceNode) (fs : List Frame) (met : Subscribers)
    → (p : Place) × (find_from true exact passed ns n fs met ≡ some p)
unfolding find_from
find_from_place passed [] n fs met = (record { at_node = n; above = fs; met = met }, refl)
find_from_place passed (k ∷ ns) (node i c count cs) fs met =
    let partial = passed ++ k ∷ [] in
    elim (Option-cases (find_child k cs)) [
      | inr (m, e) ↦
          let r = find_from_place partial ns m (down k i c count cs ∷ fs) (met ++ c.subscribers) in
          (r.0, find_from-found exact passed k ns i c count cs fs met true m e ∙ r.1)
      | inl e ↦
          let r =
            find_from_place partial ns (new_node partial) (down k i c count cs ∷ fs)
              (met ++ c.subscribers) in
          (r.0, find_from-made exact passed k ns i c count cs fs met e ∙ r.1)
    ]
