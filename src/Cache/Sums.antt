-- ===== src/Cache/Sums.antt =====
-- MoqxCache: sums over the values of a map.
use moq_testbed.Prelude.{
  none≢some, some_inj, ℕ, ◌+◌, ◌≤◌, ◌≡◌, ◌≢◌, refl, sym, ◌∙◌, subst, Option, none, some, List, [],
  ◌∷◌, lookup, arith, if_pos, if_neg,
}
use moq_testbed.Prelude.Assoc.{assign, emplace, value_or}
use moq_testbed.Cache.Eviction.{erase_entry}

module _ {K V : Type 0} where
  abbrev pub sum_by : (V → ℕ) → List (K × V) → ℕ
  sum_by w [] = 0
  sum_by w ((k, v) ∷ m) = w v + sum_by w m

  abbrev pub AllValues : (V → Type 0) → List (K × V) → Type 0
  AllValues P [] = Unit {0}
  AllValues P ((k, v) ∷ m) = P v × AllValues P m

abbrev pub weight_at : {V : Type 0} → (V → ℕ) → Option V → ℕ
weight_at w none = 0
weight_at w (some v) = w v

module _ {K V : Type 0} (dec : Discrete K) (k : K) where
  pub sum_by-assign :
      (w : V → ℕ) (v : V) (m : List (K × V))
      → sum_by w (assign dec k v m) + weight_at w (lookup dec k m) ≡ sum_by w m + w v
  unfolding assign lookup
  sum_by-assign w v [] = omega arith
  sum_by-assign w v ((j, u) ∷ m) = ground (arith, sum_by-assign w v m)

  pub sum_by-emplace :
      (w : V → ℕ) (v : V) (m : List (K × V)) → w v ≡ 0 → sum_by w (emplace dec k v m) ≡ sum_by w m
  unfolding emplace
  sum_by-emplace w v [] h = omega arith
  sum_by-emplace w v ((j, u) ∷ m) h = ground (arith, sum_by-emplace w v m h)

  pub sum_by-erase_entry :
      (w : V → ℕ) (m : List (K × V))
      → sum_by w (erase_entry dec k m) + weight_at w (lookup dec k m) ≡ sum_by w m
  unfolding erase_entry lookup
  sum_by-erase_entry w [] = omega arith
  sum_by-erase_entry w ((j, u) ∷ m) = ground (arith, sum_by-erase_entry w m)

  pub weight_at-sum_by : (w : V → ℕ) (m : List (K × V)) → weight_at w (lookup dec k m) ≤ sum_by w m
  unfolding lookup
  weight_at-sum_by w [] = omega arith
  weight_at-sum_by w ((j, u) ∷ m) = ground (arith, weight_at-sum_by w m)

  pub lookup-emplace :
      (v : V) (m : List (K × V))
      → value_or (lookup dec k (emplace dec k v m)) v ≡ value_or (lookup dec k m) v
  unfolding emplace lookup
  lookup-emplace v [] = ground arith
  lookup-emplace v ((j, u) ∷ m) = ground (arith, lookup-emplace v m)

module _ {K V : Type 0} (dec : Discrete K) (k : K) where
  pub lookup_here : (j : K) (u : V) (m : List (K × V)) → k ≡ j → lookup dec k ((j, u) ∷ m) ≡ some u
  unfolding lookup
  lookup_here j u m e = rw (if_pos _ e) refl

  pub lookup_there :
      (j : K) (u : V) (m : List (K × V)) → k ≢ j → lookup dec k ((j, u) ∷ m) ≡ lookup dec k m
  unfolding lookup
  lookup_there j u m ne = rw (if_neg _ ne) refl

module _ {K V : Type 0} (dec : Discrete K) (P : V → Type 0) (k : K) where
  pub assign-AllValues :
      (v : V) (m : List (K × V)) → P v → AllValues P m → AllValues P (assign dec k v m)
  unfolding assign
  assign-AllValues v [] p all = (p, tt)
  assign-AllValues v ((j, u) ∷ m) p (q, all) = elim (dec j k) [
    | yes e ↦ rw (if_pos _ e) (p, all)
    | no ne ↦ rw (if_neg _ ne) (q, assign-AllValues v m p all)
  ]

  pub emplace-AllValues :
      (v : V) (m : List (K × V)) → P v → AllValues P m → AllValues P (emplace dec k v m)
  unfolding emplace
  emplace-AllValues v [] p all = (p, tt)
  emplace-AllValues v ((j, u) ∷ m) p (q, all) = elim (dec j k) [
    | yes e ↦ rw (if_pos _ e) (q, all)
    | no ne ↦ rw (if_neg _ ne) (q, emplace-AllValues v m p all)
  ]

  pub erase_entry-AllValues : (m : List (K × V)) → AllValues P m → AllValues P (erase_entry dec k m)
  unfolding erase_entry
  erase_entry-AllValues [] all = tt
  erase_entry-AllValues ((j, u) ∷ m) (q, all) = elim (dec j k) [
    | yes e ↦ rw (if_pos _ e) all
    | no ne ↦ rw (if_neg _ ne) (q, erase_entry-AllValues m all)
  ]

  pub lookup-AllValues : (v : V) (m : List (K × V)) → AllValues P m → lookup dec k m ≡ some v → P v
  unfolding lookup
  lookup-AllValues v [] all h = absurd (none≢some h)
  lookup-AllValues v ((j, u) ∷ m) (q, all) h = elim (dec k j) [
    | yes e ↦ subst P (some_inj (sym (lookup_here dec k j u m e) ∙ h)) q
    | no ne ↦ lookup-AllValues v m all (sym (lookup_there dec k j u m ne) ∙ h)
  ]
