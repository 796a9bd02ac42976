-- ===== src/Cache/Limits.antt =====
-- MoqxCache: the loop of `evictForByteLimitIfNeeded`, when each entry of the global list stands for a
-- group that is there.
use moq_testbed.Prelude.{
  none≢some, some_inj, ℕ, ◌+◌, ◌≡◌, ◌≢◌, ◌⊎◌, refl, sym, ◌∙◌, ap, ap₂, subst, true, false, some,
  List, [], ◌∷◌, length, ◌==◌, lookup, ℕ_discrete, inl, inr, arith, if_pos, if_neg,
}
use moq_testbed.Cache.State.{Locations, CacheGroup, CacheTrack, MoqxCache}
use moq_testbed.Cache.Eviction.{back, erase_entry, erase_group_node}
use moq_testbed.Cache.Sums.{lookup_here, lookup_there}

module _ {K V : Type 0} (dec : Discrete K) where
  pub lookup-erase_entry :
      (k j : K) (m : List (K × V)) → k ≢ j → lookup dec j (erase_entry dec k m) ≡ lookup dec j m
  unfolding erase_entry lookup
  lookup-erase_entry k j [] ne = refl
  lookup-erase_entry k j ((i, v) ∷ m) ne = elim (dec i k) [
    | yes e ↦
        let away : j ≢ i = λ y. ne (sym (y ∙ e)) in
        rw (if_pos _ e) (sym (lookup_there dec j i v m away))
    | no nk ↦ rw (if_neg _ nk) (elim (dec j i) [
      | yes y ↦ lookup_here dec j i v (erase_entry dec k m) y ∙ sym (lookup_here dec j i v m y)
      | no nj ↦
          lookup_there dec j i v (erase_entry dec k m) nj
          ∙ lookup-erase_entry k j m ne
          ∙ sym (lookup_there dec j i v m nj)
    ])
  ]

module _ {Ftn : Type 0} where
  abbrev pub Other : Ftn → ℕ → Ftn × ℕ → Type 0
  Other ftn g (f, h) = (ftn ≢ f) ⊎ (g ≢ h)

  abbrev pub NoEntry : Ftn → ℕ → List (Ftn × ℕ) → Type 0
  NoEntry ftn g [] = Unit {0}
  NoEntry ftn g (n ∷ ns) = Other ftn g n × NoEntry ftn g ns

module _ {Ftn : Type 0} (dec : Discrete Ftn) (ftn : Ftn) (g : ℕ) where
  erase_here :
      (f : Ftn) (i : ℕ) (ns : List (Ftn × ℕ))
      → f ≡ ftn
      → i ≡ g
      → erase_group_node dec ftn g ((f, i) ∷ ns) ≡ ns
  unfolding erase_group_node
  erase_here f i ns e same = rw (if_pos _ e) (ground (arith, same))

  erase_there :
      (f : Ftn) (i : ℕ) (ns : List (Ftn × ℕ))
      → Other ftn g (f, i)
      → erase_group_node dec ftn g ((f, i) ∷ ns) ≡ (f, i) ∷ erase_group_node dec ftn g ns
  unfolding erase_group_node
  erase_there f i ns (inl ne) = rw (if_neg _ (λ e. ne (sym e))) refl
  erase_there f i ns (inr ne) = elim (dec f ftn) [
    | yes e ↦ let differs : (i == g) ≡ false = ground (arith, ne) in rw (if_pos _ e, differs) refl
    | no nf ↦ rw (if_neg _ nf) refl
  ]

  entry_cases : (f : Ftn) (i : ℕ) → ((f ≡ ftn) × (i ≡ g)) ⊎ Other ftn g (f, i)
  entry_cases f i = elim (dec f ftn) [
    | no nf ↦ inr (inl (λ e. nf (sym e)))
    | yes e ↦ elim (ℕ_discrete i g) [
      | yes same ↦ inl (e, same)
      | no ni ↦ inr (inr (λ y. ni (sym y)))
    ]
  ]

  pub erased_length :
      (ns : List (Ftn × ℕ))
      → back ns ≡ some (ftn, g)
      → length (erase_group_node dec ftn g ns) + 1 ≡ length ns
  erased_length [] h = absurd (none≢some h)
  erased_length ((f, i) ∷ []) h =
      let e = some_inj h in
      rw (erase_here f i [] (ap (λ (x : Ftn × ℕ). x.0) e) (ap (λ (x : Ftn × ℕ). x.1) e)) refl
  erased_length ((f, i) ∷ m ∷ ns) h = elim (entry_cases f i) [
    | inl (e, same) ↦ rw (erase_here f i (m ∷ ns) e same) (omega arith)
    | inr other ↦ rw (erase_there f i (m ∷ ns) other) (omega (arith, erased_length (m ∷ ns) h))
  ]

  NoEntry-erase :
      (f : Ftn) (i : ℕ) (ns : List (Ftn × ℕ))
      → NoEntry f i ns
      → NoEntry f i (erase_group_node dec ftn g ns)
  unfolding erase_group_node
  NoEntry-erase f i [] free = tt
  NoEntry-erase f i ((h, j) ∷ ns) (other, free) = elim (entry_cases h j) [
    | inl (e, same) ↦ rw (erase_here h j ns e same) free
    | inr away ↦ rw (erase_there h j ns away) (other, NoEntry-erase f i ns free)
  ]

module _ {L : Locations} {Ftn : Type 0} (dec : Discrete Ftn) where
  -- The group is there, and has an iterator into the global list.
  abbrev pub Live : List (Ftn × CacheTrack L) → Ftn → ℕ → Type 0
  Live tracks ftn g =
      (t : CacheTrack L) × ((lookup dec ftn tracks ≡ some t)
        × ((group : CacheGroup) × ((lookup ℕ_discrete g t.groups ≡ some group)
              × (group.global_lru_iter ≡ true))))

  -- Each entry stands for a group that is there, and no two for the same.
  abbrev pub AllLive : List (Ftn × CacheTrack L) → List (Ftn × ℕ) → Type 0
  AllLive tracks [] = Unit {0}
  AllLive tracks ((ftn, g) ∷ ns) = Live tracks ftn g × (NoEntry ftn g ns × AllLive tracks ns)

  abbrev pub IsLinked : MoqxCache L Ftn → Type 0
  IsLinked c = AllLive c.tracks c.global_group_lru

  pub back-Live :
      (tracks : List (Ftn × CacheTrack L)) (ns : List (Ftn × ℕ)) (ftn : Ftn) (g : ℕ)
      → AllLive tracks ns
      → back ns ≡ some (ftn, g)
      → Live tracks ftn g
  back-Live tracks [] ftn g all h = absurd (none≢some h)
  back-Live tracks ((f, i) ∷ []) ftn g (live, all) h =
      subst (λ (e : Ftn × ℕ). Live tracks e.0 e.1) (some_inj h) live
  back-Live tracks (n ∷ m ∷ ns) ftn g (live, (free, all)) h = back-Live tracks (m ∷ ns) ftn g all h

  -- The entries that are left stand for groups that are still there.
  abbrev pub Survives : Ftn → ℕ → List (Ftn × CacheTrack L) → List (Ftn × CacheTrack L) → Type 0
  Survives ftn g before after =
      (f : Ftn) (i : ℕ) → Other ftn g (f, i) → Live before f i → Live after f i

  rest-AllLive :
      (ftn : Ftn) (g : ℕ) (before after : List (Ftn × CacheTrack L)) (ns : List (Ftn × ℕ))
      → Survives ftn g before after
      → NoEntry ftn g ns
      → AllLive before ns
      → AllLive after ns
  rest-AllLive ftn g before after [] s free all = tt
  rest-AllLive ftn g before after ((f, i) ∷ ns) s (other, free) (live, (none_of, all)) =
      (s f i other live, (none_of, rest-AllLive ftn g before after ns s free all))

  pub erased-AllLive :
      (ftn : Ftn) (g : ℕ) (before after : List (Ftn × CacheTrack L)) (ns : List (Ftn × ℕ))
      → Survives ftn g before after
      → AllLive before ns
      → AllLive after (erase_group_node dec ftn g ns)
  unfolding erase_group_node
  erased-AllLive ftn g before after [] s all = tt
  erased-AllLive ftn g before after ((f, i) ∷ ns) s (live, (free, all)) =
      elim (entry_cases dec ftn g f i) [
        | inl (e, same) ↦
            let no_more : NoEntry ftn g ns =
              subst (λ (x : Ftn × ℕ). NoEntry x.0 x.1 ns) (ap₂ (λ (x : Ftn) (y : ℕ). (x, y)) e same)
                free in
            rw (erase_here dec ftn g f i ns e same)
              (rest-AllLive ftn g before after ns s no_more all)
        | inr away ↦ rw (erase_there dec ftn g f i ns away) (
          s f i away live,
          (NoEntry-erase dec ftn g f i ns free, erased-AllLive ftn g before after ns s all),
        )
      ]
