-- ===== src/Ranking/Container.antt =====
-- Look-ups in the sorted container, whose sequence numbers are distinct.
use moq_testbed.Prelude.{
  ℕ, suc, ◌<◌, ◌≡◌, ◌≢◌, refl, subst, none, some, [], ◌∷◌, arith, Bool-cases, inl, inr,
  if◌then◌else◌,
}
use moq_testbed.Ranking.Key.{RankKey, key_gt, key_eq}
use moq_testbed.Ranking.State.{RankedEntry, Ranked, emplace_ranked, erase_ranked, find_ranked}
use moq_testbed.Ranking.Order.{Unused}

module _ {Ftn : Type 0} where
  -- Sequence numbers are below the next one, and no two entries share one.
  abbrev pub IsSequenced : ℕ → Ranked Ftn → Type 0
  IsSequenced q [] = Unit {0}
  IsSequenced q ((k, e) ∷ m) = (k.arrival_seq < q) × Unused k.arrival_seq m × IsSequenced q m

  pub Unused-of_bound : (q : ℕ) (m : Ranked Ftn) → IsSequenced q m → Unused q m
  Unused-of_bound q [] s = tt
  Unused-of_bound q ((k, e) ∷ m) s = (omega arith, Unused-of_bound q m s.2)

  emplace_ranked-Unused :
      (q : ℕ) (key : RankKey) (e : RankedEntry Ftn) (m : Ranked Ftn)
      → key.arrival_seq ≢ q
      → Unused q m
      → Unused q (emplace_ranked key e m)
  unfolding emplace_ranked
  emplace_ranked-Unused q key e [] h u = (h, tt)
  emplace_ranked-Unused q key e ((k, x) ∷ m) h u =
      ground (arith, emplace_ranked-Unused q key e m h u.1)

  pub erase_ranked-Unused :
      (q : ℕ) (key : RankKey) (m : Ranked Ftn) → Unused q m → Unused q (erase_ranked key m)
  unfolding erase_ranked
  erase_ranked-Unused q key [] u = tt
  erase_ranked-Unused q key ((k, x) ∷ m) u = ground (arith, erase_ranked-Unused q key m u.1)

  pub IsSequenced-mono : (p q : ℕ) (m : Ranked Ftn) → p < suc q → IsSequenced p m → IsSequenced q m
  IsSequenced-mono p q [] h s = tt
  IsSequenced-mono p q ((k, e) ∷ m) h s = (omega arith, s.1, IsSequenced-mono p q m h s.2)

  pub emplace_ranked-IsSequenced :
      (q : ℕ) (key : RankKey) (e : RankedEntry Ftn) (m : Ranked Ftn)
      → key.arrival_seq < q
      → Unused key.arrival_seq m
      → IsSequenced q m
      → IsSequenced q (emplace_ranked key e m)
  unfolding emplace_ranked
  emplace_ranked-IsSequenced q key e [] h u s = (h, tt, tt)
  emplace_ranked-IsSequenced q key e ((k, x) ∷ m) h u s = ground (
    arith,
    emplace_ranked-IsSequenced q key e m h u.1 s.2,
    emplace_ranked-Unused k.arrival_seq key e m,
  )

  pub erase_ranked-IsSequenced :
      (q : ℕ) (key : RankKey) (m : Ranked Ftn)
      → IsSequenced q m
      → IsSequenced q (erase_ranked key m)
  unfolding erase_ranked
  erase_ranked-IsSequenced q key [] s = tt
  erase_ranked-IsSequenced q key ((k, x) ∷ m) s =
      ground
        (arith, erase_ranked-IsSequenced q key m s.2, erase_ranked-Unused k.arrival_seq key m s.1)

  -- What is found under a key after an insertion whose sequence number is new.
  pub find_ranked-emplace_ranked :
      (j key : RankKey) (e : RankedEntry Ftn) (m : Ranked Ftn)
      → Unused key.arrival_seq m
      → find_ranked j (emplace_ranked key e m) ≡ (if key_eq key j then some e else find_ranked j m)
  unfolding find_ranked emplace_ranked key_eq key_gt
  find_ranked-emplace_ranked j key e [] u = refl
  find_ranked-emplace_ranked j key e ((k, x) ∷ m) u =
      ground (arith, find_ranked-emplace_ranked j key e m u.1)

  pub find_ranked-Unused :
      (j : RankKey) (m : Ranked Ftn) → Unused j.arrival_seq m → find_ranked j m ≡ none
  unfolding find_ranked key_eq
  find_ranked-Unused j [] u = refl
  find_ranked-Unused j ((k, x) ∷ m) u = ground (arith, find_ranked-Unused j m u.1)

  pub find_ranked-erase_ranked :
      (q : ℕ) (j key : RankKey) (m : Ranked Ftn)
      → IsSequenced q m
      → find_ranked j (erase_ranked key m) ≡ (if key_eq key j then none else find_ranked j m)
  unfolding find_ranked erase_ranked key_eq
  find_ranked-erase_ranked q j key [] s = ground arith
  find_ranked-erase_ranked q j key ((k, x) ∷ m) s =
      ground (arith, find_ranked-erase_ranked q j key m s.2, find_ranked-Unused j m)

  pub erased-Unused :
      (q : ℕ) (key : RankKey) (e : RankedEntry Ftn) (m : Ranked Ftn)
      → IsSequenced q m
      → find_ranked key m ≡ some e
      → Unused key.arrival_seq (erase_ranked key m)
  unfolding find_ranked erase_ranked key_eq
  erased-Unused q key e [] s found = tt
  erased-Unused q key e ((k, x) ∷ m) s found = elim (Bool-cases (key_eq k key)) [
    | inl here ↦ rw here (subst (λ (a : ℕ). Unused a m) (ground (arith, here)) s.1)
    | inr later ↦
        let found' : find_ranked key m ≡ some e = rw later at found in
        rw later (apart found', erased-Unused q key e m s.2 found')
  ]
    where
      apart : find_ranked key m ≡ some e → k.arrival_seq ≢ key.arrival_seq
      apart there p =
          let gone = find_ranked-Unused key m (subst (λ (a : ℕ). Unused a m) p s.1) in cc

  pub find_ranked_same_seq :
      (q : ℕ) (j k : RankKey) (x y : RankedEntry Ftn) (m : Ranked Ftn)
      → IsSequenced q m
      → find_ranked j m ≡ some x
      → find_ranked k m ≡ some y
      → j.arrival_seq ≡ k.arrival_seq
      → j ≡ k
  unfolding find_ranked key_eq
  find_ranked_same_seq q j k x y [] s fj fk same = cc
  find_ranked_same_seq q j k x y ((i, z) ∷ m) s fj fk same =
      ground (
        arith,
        find_ranked_same_seq q j k x y m s.2,
        find_ranked-Unused j m,
        find_ranked-Unused k m,
      )

  pub seq_below :
      (q : ℕ) (key : RankKey) (e : RankedEntry Ftn) (m : Ranked Ftn)
      → IsSequenced q m
      → find_ranked key m ≡ some e
      → key.arrival_seq < q
  unfolding find_ranked key_eq
  seq_below q key e [] s found = cc
  seq_below q key e ((k, x) ∷ m) s found = ground (arith, seq_below q key e m s.2)
