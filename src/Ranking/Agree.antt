-- ===== src/Ranking/Agree.antt =====
-- PropertyRanking: the index and the container, seen through their look-ups.
use moq_testbed.Prelude.{
  ◌≡◌, ◌≢◌, refl, sym, ap, subst, ◌∙◌, true, Option, none, some, Bool-cases, inl, inr, ite, if_pos,
  if_neg, if◌then◌else◌,
}
use moq_testbed.Ranking.Key.{RankKey, key_eq, key_eq→≡, key_eq_refl}
use moq_testbed.Ranking.State.{RankedEntry, RankIndex}

none≢some {ℓ} : {A : Type ℓ} {a : A} → none ≡ some a → ⊥
none≢some e = cc

module _ {Ftn : Type 0} (dec : Discrete Ftn) where
  pub record Agree (F : RankKey → Option (RankedEntry Ftn)) (L : Ftn → Option RankIndex)
      : Type 0 where
    pub listed :
        (k : RankKey) (e : RankedEntry Ftn)
        → F k ≡ some e
        → (i : RankIndex) × (L e.ftn ≡ some i) × (i.rank_iter ≡ k)
    pub known :
        (f : Ftn) (i : RankIndex)
        → L f ≡ some i
        → (e : RankedEntry Ftn) × (F i.rank_iter ≡ some e) × (e.ftn ≡ f)

  module _ (F F' : RankKey → Option (RankedEntry Ftn)) (L L' : Ftn → Option RankIndex) where
    -- A new key for a new name.
    pub put-Agree :
        (e : RankedEntry Ftn) (i : RankIndex)
        → F i.rank_iter ≡ none
        → L e.ftn ≡ none
        → ((j : RankKey) → F' j ≡ (if key_eq i.rank_iter j then some e else F j))
        → ((g : Ftn) → L' g ≡ ite (dec e.ftn g) (some i) (L g))
        → Agree F L
        → Agree F' L'
    put-Agree e i free new fs ls a = record {
      listed = λ k x found. elim (Bool-cases (key_eq i.rank_iter k)) [
        | inl here ↦
            let at : F' k ≡ some e = fs k ∙ rw here in
            let same : e ≡ x = cc in
            let there : L' e.ftn ≡ some i = ls e.ftn ∙ rw (if_pos (dec e.ftn e.ftn) refl) in
            (i, subst (λ (y : RankedEntry Ftn). L' y.ftn ≡ some i) same there, key_eq→≡ _ _ here)
        | inr other ↦
            let at : F k ≡ some x = sym (fs k ∙ rw other) ∙ found in
            let (j, there, key) = a.listed k x at in
            let apart : e.ftn ≢ x.ftn = λ p. let gone = new in cc in
            (j, ls x.ftn ∙ rw (if_neg _ apart) there, key)
      ];
      known = λ g j found. elim (dec e.ftn g) [
        | yes same ↦
            let at : L' g ≡ some i = ls g ∙ rw (if_pos _ same) in
            let one : i ≡ j = cc in
            let there : F' i.rank_iter ≡ some e = fs i.rank_iter ∙ rw key_eq_refl in
            (e, subst (λ (y : RankIndex). F' y.rank_iter ≡ some e) one there, same)
        | no ne ↦
            let at : L g ≡ some j = sym (ls g ∙ rw (if_neg _ ne)) ∙ found in
            let (x, there, name) = a.known g j at in
            (
              x,
              elim (Bool-cases (key_eq i.rank_iter j.rank_iter)) [
                | inl here ↦ let same = key_eq→≡ i.rank_iter j.rank_iter here in cc
                | inr other ↦ fs j.rank_iter ∙ rw other there
              ],
              name,
            )
      ];
    }

    -- The name and its key go.
    pub drop-Agree :
        (f : Ftn) (i : RankIndex)
        → L f ≡ some i
        → ((j : RankKey) → F' j ≡ (if key_eq i.rank_iter j then none else F j))
        → ((g : Ftn) → L' g ≡ ite (dec f g) none (L g))
        → Agree F L
        → Agree F' L'
    drop-Agree f i old fs ls a = record {
      listed = λ k x found. elim (Bool-cases (key_eq i.rank_iter k)) [
        | inl here ↦ let at : F' k ≡ none = fs k ∙ rw here in absurd (none≢some (sym at ∙ found))
        | inr other ↦
            let at : F k ≡ some x = sym (fs k ∙ rw other) ∙ found in
            let (j, there, key) = a.listed k x at in
            let apart : f ≢ x.ftn = λ p.
              let one : i ≡ j = cc in
              let met : i.rank_iter ≡ k = ap (λ (y : RankIndex). y.rank_iter) one ∙ key in
              let equal : key_eq i.rank_iter k ≡ true = rw met (key_eq_refl k) in cc in
            (j, ls x.ftn ∙ rw (if_neg _ apart) there, key)
      ];
      known = λ g j found. elim (dec f g) [
        | yes same ↦
            let at : L' g ≡ none = ls g ∙ rw (if_pos _ same) in absurd (none≢some (sym at ∙ found))
        | no ne ↦
            let at : L g ≡ some j = sym (ls g ∙ rw (if_neg _ ne)) ∙ found in
            let (x, there, name) = a.known g j at in
            (
              x,
              elim (Bool-cases (key_eq i.rank_iter j.rank_iter)) [
                | inl here ↦
                    let (y, held, named) = a.known f i old in
                    let met = key_eq→≡ i.rank_iter j.rank_iter here in
                    let one : y ≡ x = cc in
                    absurd (ne (sym named ∙ ap (λ (z : RankedEntry Ftn). z.ftn) one ∙ name))
                | inr other ↦ fs j.rank_iter ∙ rw other there
              ],
              name,
            )
      ];
    }
