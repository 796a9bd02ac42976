-- ===== src/Ranking/Order.antt =====
-- PropertyRanking: the order of the sorted container, and its names.
use moq_testbed.Prelude.{ℕ, ◌≡◌, ◌≢◌, sym, true, [], ◌∷◌, arith, Bool-cases, inl, inr}
use moq_testbed.Ranking.Key.{RankKey, key_gt, key_eq, key_gt_trans}
use moq_testbed.Ranking.State.{RankedEntry, Ranked, emplace_ranked, erase_ranked}

module _ {Ftn : Type 0} where
  -- All keys of the list are below `key`.
  abbrev pub Below : RankKey → Ranked Ftn → Type 0
  Below key [] = Unit {0}
  Below key ((k, e) ∷ m) = (key_gt key k ≡ true) × Below key m

  abbrev pub IsSorted : Ranked Ftn → Type 0
  IsSorted [] = Unit {0}
  IsSorted ((k, e) ∷ m) = Below k m × IsSorted m

  -- The name does not stand in the list.
  abbrev pub Fresh : Ftn → Ranked Ftn → Type 0
  Fresh f [] = Unit {0}
  Fresh f ((k, e) ∷ m) = (e.ftn ≢ f) × Fresh f m

  abbrev pub IsNamed : Ranked Ftn → Type 0
  IsNamed [] = Unit {0}
  IsNamed ((k, e) ∷ m) = Fresh e.ftn m × IsNamed m

  -- Sorted, and every name once.
  pub record IsRanked (m : Ranked Ftn) : Type 0 where
    pub sorted : IsSorted m
    pub named : IsNamed m

  pub Below-trans : (a b : RankKey) (m : Ranked Ftn) → key_gt a b ≡ true → Below b m → Below a m
  Below-trans a b [] h below = tt
  Below-trans a b ((k, e) ∷ m) h below = (key_gt_trans a b k h below.0, Below-trans a b m h below.1)

  -- No key of the list has the sequence number.
  abbrev pub Unused : ℕ → Ranked Ftn → Type 0
  Unused q [] = Unit {0}
  Unused q ((k, e) ∷ m) = (k.arrival_seq ≢ q) × Unused q m

  -- A new key that no entry shares its sequence number with finds its place.
  emplace_ranked-Below :
      (a key : RankKey) (e : RankedEntry Ftn) (m : Ranked Ftn)
      → key_gt a key ≡ true
      → Below a m
      → Below a (emplace_ranked key e m)
  unfolding emplace_ranked
  emplace_ranked-Below a key e [] h below = (h, tt)
  emplace_ranked-Below a key e ((k, x) ∷ m) h below =
      ground (arith, emplace_ranked-Below a key e m h below.1)

  emplace_ranked-IsSorted :
      (key : RankKey) (e : RankedEntry Ftn) (m : Ranked Ftn)
      → IsSorted m
      → IsSorted (emplace_ranked key e m)
  unfolding emplace_ranked
  emplace_ranked-IsSorted key e [] sorted = (tt, tt)
  emplace_ranked-IsSorted key e ((k, x) ∷ m) sorted = elim (Bool-cases (key_gt key k)) [
    | inl here ↦ rw here ((here, Below-trans key k m here sorted.0), sorted)
    | inr later ↦ elim (Bool-cases (key_gt k key)) [
      | inl below ↦
          rw (later, below)
            (
              emplace_ranked-Below k key e m below sorted.0,
              emplace_ranked-IsSorted key e m sorted.1,
            )
      | inr same ↦ rw (later, same) sorted
    ]
  ]

  emplace_ranked-Fresh :
      (f : Ftn) (key : RankKey) (e : RankedEntry Ftn) (m : Ranked Ftn)
      → e.ftn ≢ f
      → Fresh f m
      → Fresh f (emplace_ranked key e m)
  unfolding emplace_ranked
  emplace_ranked-Fresh f key e [] h fresh = (h, tt)
  emplace_ranked-Fresh f key e ((k, x) ∷ m) h fresh =
      ground (arith, emplace_ranked-Fresh f key e m h fresh.1)

  emplace_ranked-IsNamed :
      (key : RankKey) (e : RankedEntry Ftn) (m : Ranked Ftn)
      → Fresh e.ftn m
      → IsNamed m
      → IsNamed (emplace_ranked key e m)
  unfolding emplace_ranked
  emplace_ranked-IsNamed key e [] fresh named = (tt, tt)
  emplace_ranked-IsNamed key e ((k, x) ∷ m) fresh named = elim (Bool-cases (key_gt key k)) [
    | inl here ↦ rw here (fresh, named)
    | inr later ↦ elim (Bool-cases (key_gt k key)) [
      | inl below ↦
          rw (later, below)
            (
              emplace_ranked-Fresh x.ftn key e m (λ p. fresh.0 (sym p)) named.0,
              emplace_ranked-IsNamed key e m fresh.1 named.1,
            )
      | inr same ↦ rw (later, same) named
    ]
  ]

  pub emplace_ranked-IsRanked :
      (key : RankKey) (e : RankedEntry Ftn) (m : Ranked Ftn)
      → Fresh e.ftn m
      → IsRanked m
      → IsRanked (emplace_ranked key e m)
  emplace_ranked-IsRanked key e m fresh r = record {
    sorted = emplace_ranked-IsSorted key e m r.sorted;
    named = emplace_ranked-IsNamed key e m fresh r.named;
  }

  erase_ranked-Below : (a key : RankKey) (m : Ranked Ftn) → Below a m → Below a (erase_ranked key m)
  unfolding erase_ranked
  erase_ranked-Below a key [] below = tt
  erase_ranked-Below a key ((k, x) ∷ m) below = ground (arith, erase_ranked-Below a key m below.1)

  pub erase_ranked-Fresh :
      (f : Ftn) (key : RankKey) (m : Ranked Ftn) → Fresh f m → Fresh f (erase_ranked key m)
  unfolding erase_ranked
  erase_ranked-Fresh f key [] fresh = tt
  erase_ranked-Fresh f key ((k, x) ∷ m) fresh = ground (arith, erase_ranked-Fresh f key m fresh.1)

  pub erase_ranked-IsRanked :
      (key : RankKey) (m : Ranked Ftn) → IsRanked m → IsRanked (erase_ranked key m)
  unfolding erase_ranked
  erase_ranked-IsRanked key [] r = r
  erase_ranked-IsRanked key ((k, x) ∷ m) r = elim (Bool-cases (key_eq k key)) [
    | inl here ↦ rw here (record { sorted = r.sorted.1; named = r.named.1 })
    | inr later ↦
        let rest =
          erase_ranked-IsRanked key m (record { sorted = r.sorted.1; named = r.named.1 }) in
        rw later (record {
          sorted = (erase_ranked-Below k key m r.sorted.0, rest.sorted);
          named = (erase_ranked-Fresh x.ftn key m r.named.0, rest.named);
        })
  ]
