-- ===== src/Ranking/Key.antt =====
-- relay/PropertyRanking.h, RankKey: the order of the sorted container.
use moq_testbed.Prelude.{
  ℕ, ◌≡◌, ◌⊎◌, Bool, true, false, not, ◌&&◌, ◌||◌, ltb, ◌==◌, if◌then◌else◌, arith,
}

pub record RankKey : Type 0 where
  pub value : ℕ
  pub arrival_seq : ℕ

-- `operator<`.
key_lt : RankKey → RankKey → Bool
key_lt a b =
    if not (a.value == b.value) then ltb a.value b.value else ltb b.arrival_seq a.arrival_seq

-- `operator>`, by which the map sorts.
unfoldable pub key_gt : RankKey → RankKey → Bool
key_gt a b =
    if not (a.value == b.value) then ltb b.value a.value else ltb a.arrival_seq b.arrival_seq

-- `operator==`.
unfoldable pub key_eq : RankKey → RankKey → Bool
key_eq a b = a.value == b.value && a.arrival_seq == b.arrival_seq

-- `operator!=`.
key_ne : RankKey → RankKey → Bool
unfolding key_eq
key_ne a b = not (key_eq a b)

-- `operator<=`.
key_le : RankKey → RankKey → Bool
unfolding key_lt key_eq
key_le a b = key_lt a b || key_eq a b

-- `operator>=`.
unfoldable pub key_ge : RankKey → RankKey → Bool
unfolding key_gt key_eq
key_ge a b = key_gt a b || key_eq a b

pub key_eq→≡ : (a b : RankKey) → key_eq a b ≡ true → a ≡ b
unfolding key_eq
key_eq→≡ a b h = ground arith

pub key_eq_refl : (a : RankKey) → key_eq a a ≡ true
unfolding key_eq
key_eq_refl a = ground arith

pub key_gt_trans : (a b c : RankKey) → key_gt a b ≡ true → key_gt b c ≡ true → key_gt a c ≡ true
unfolding key_gt
key_gt_trans a b c p q = ground arith

pub key_gt_irrefl : (a : RankKey) → key_gt a a ≡ false
unfolding key_gt
key_gt_irrefl a = ground arith

-- Of two keys one outranks the other, or they are one key.
pub key_gt-total : (a b : RankKey) → (key_gt a b ≡ true) ⊎ (key_gt b a ≡ true) ⊎ (a ≡ b)
unfolding key_gt
key_gt-total a b = ground arith

-- `operator<` is `operator>` with the sides swapped, `operator!=` holds exactly when one of them
-- does, and `operator<=` and `operator>=` are the negations of `operator>` and `operator<`.
key_operators_agree :
    (a b : RankKey)
    → (key_lt a b ≡ key_gt b a)
      × (key_ne a b ≡ (key_lt a b || key_gt a b))
      × (key_le a b ≡ not (key_gt a b))
      × (key_ge a b ≡ not (key_lt a b))
unfolding key_lt key_gt key_ne key_le key_ge
key_operators_agree a b = (ground arith, ground arith, ground arith, ground arith)
