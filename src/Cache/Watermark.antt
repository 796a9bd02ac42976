-- ===== src/Cache/Watermark.antt =====
-- MoqxCache: `evictForByteLimitIfNeeded` ends, and what it leaves.
use moq_testbed.Prelude.{
  none≢some, some_inj, true≢false, ℕ, zero, suc, ◌+◌, ◌-◌, ◌≤◌, ◌≡◌, ◌≢◌, ◌⊎◌, refl, sym, ◌∙◌, ap,
  subst, Bool, true, false, ◌&&◌, ◌||◌, if◌then◌else◌, none, some, List, [], ◌∷◌, length, ltb, leb,
  ◌==◌, lookup, ℕ_discrete, Bool-cases, Option-cases, inl, inr, arith, if_pos, if_neg,
}
use moq_testbed.Prelude.Assoc.{lookup-assign, assign}
use moq_testbed.Cache.State.{Locations, CacheGroup, CacheTrack, MoqxCache, can_evict}
use moq_testbed.Cache.Eviction.{
  Run, returns, empty, back, erase_entry, erase_group_node, drop_group, evict_groups, evict_track,
  stamp, forget, evict_shell, evict_entry, oldest_entry, evict_down_to,
  evict_for_byte_limit_if_needed,
}
use moq_testbed.Cache.Accounts.{IsAccounted}
use moq_testbed.Cache.Purges.{
  evict_group_present, drop_group-IsAccounted, lookup_own, lighter, unlisted,
  evict_track-IsAccounted,
}
use moq_testbed.Cache.Limits.{
  Live, AllLive, IsLinked, Survives, back-Live, erased_length, erased-AllLive, lookup-erase_entry,
}

returns_inj : {A : Type 0} {a b : A} → returns a ≡ returns b → a ≡ b
returns_inj h = cc

empty-bare : {A : Type 0} (xs : List A) (b : Bool) → empty xs && b ≡ true → xs ≡ []
empty-bare [] b h = refl
empty-bare (x ∷ xs) b h = absurd (true≢false (sym h))

limited : (most total : ℕ) (b : Bool) → (most == 0) || leb total most ≡ false → b ≡ (most == 0) || b
limited most total b h = elim (Bool-cases (most == 0)) [
  | inl y ↦ absurd (true≢false (rw y at h))
  | inr y ↦ rw y refl
]

within :
    (most least total : ℕ)
    → total ≤ (if ltb least most then most - least else 0)
    → leb total most ≡ true
within most least total h = ground (arith, h)

cons_not_nil : {A : Type 0} (x : A) (xs : List A) → ¬ (Path (List A) (x ∷ xs) [])
cons_not_nil x xs h = cc

back-none : {A : Type 0} (xs : List A) → back xs ≡ none → xs ≡ []
back-none [] h = refl
back-none (x ∷ []) h = absurd (none≢some (sym h))
back-none (x ∷ y ∷ ys) h = absurd (cons_not_nil y ys (back-none (y ∷ ys) h))

no_back : {A : Type 0} (xs : List A) (a : A) → length xs ≤ 0 → ¬ (back xs ≡ some a)
no_back [] a few h = none≢some h
no_back (x ∷ xs) a few h = absurd (omega arith)

nothing_in : (i : ℕ) → none ≡ lookup {B = CacheGroup} ℕ_discrete i []
unfolding lookup
nothing_in i = refl

module _ {L : Locations} {Ftn : Type 0} (dec : Discrete Ftn) where
  other_track :
      (ftn f : Ftn) (i : ℕ) (u : CacheTrack L) (tracks : List (Ftn × CacheTrack L))
      → ftn ≢ f
      → Live dec tracks f i
      → Live dec (assign dec ftn u tracks) f i
  other_track ftn f i u tracks ne (t, (e, rest)) = (
    t,
    (
      lookup-assign dec ftn f u tracks ∙ if_neg (dec ftn f) ne (some u) (lookup dec f tracks) ∙ e,
      rest,
    ),
  )

  other_group :
      (ftn f : Ftn) (g i : ℕ) (t u : CacheTrack L) (tracks : List (Ftn × CacheTrack L))
      → lookup dec ftn tracks ≡ some t
      → u.groups ≡ erase_entry ℕ_discrete g t.groups
      → ftn ≡ f
      → g ≢ i
      → Live dec tracks f i
      → Live dec (assign dec ftn u tracks) f i
  other_group ftn f g i t u tracks e erased same ne (t', (e', (group, (h, flag)))) =
      let one : t' ≡ t = some_inj (sym e' ∙ ap (λ x. lookup dec x tracks) (sym same) ∙ e) in
      (
        u,
        (
          lookup-assign dec ftn f u tracks ∙ if_pos (dec ftn f) same (some u) (lookup dec f tracks),
          (
            group,
            (
              ap (lookup ℕ_discrete i) erased
                  ∙ lookup-erase_entry ℕ_discrete g i t.groups ne
                  ∙ ap (λ (x : CacheTrack L). lookup ℕ_discrete i x.groups) (sym one)
                  ∙ h,
              flag,
            ),
          ),
        ),
      )

  drop-Survives :
      (ftn : Ftn) (g : ℕ) (t u : CacheTrack L) (tracks : List (Ftn × CacheTrack L))
      → lookup dec ftn tracks ≡ some t
      → u.groups ≡ erase_entry ℕ_discrete g t.groups
      → Survives dec ftn g tracks (assign dec ftn u tracks)
  drop-Survives ftn g t u tracks e erased f i (inl ne) live = other_track ftn f i u tracks ne live
  drop-Survives ftn g t u tracks e erased f i (inr ne) live = elim (dec ftn f) [
    | yes same ↦ other_group ftn f g i t u tracks e erased same ne live
    | no nf ↦ other_track ftn f i u tracks nf live
  ]

  none_left-Live :
      (ftn f : Ftn) (i : ℕ) (t : CacheTrack L) (tracks : List (Ftn × CacheTrack L))
      → lookup dec ftn tracks ≡ some t
      → t.groups ≡ []
      → ftn ≡ f
      → ¬ Live dec tracks f i
  none_left-Live ftn f i t tracks e bare same (t', (e', (group, (h, flag)))) =
      let one : t' ≡ t = some_inj (sym e' ∙ ap (λ x. lookup dec x tracks) (sym same) ∙ e) in
      none≢some (
        nothing_in i
        ∙ ap (lookup ℕ_discrete i) (sym bare)
        ∙ ap (λ (x : CacheTrack L). lookup ℕ_discrete i x.groups) (sym one)
        ∙ h)

  forgotten_track :
      (ftn f : Ftn) (i : ℕ) (t u : CacheTrack L) (tracks : List (Ftn × CacheTrack L))
      → lookup dec ftn tracks ≡ some t
      → t.groups ≡ []
      → Live dec tracks f i
      → Live dec (erase_entry dec ftn (assign dec ftn u tracks)) f i
  forgotten_track ftn f i t u tracks e bare live = elim (dec ftn f) [
    | yes same ↦ absurd (none_left-Live ftn f i t tracks e bare same live)
    | no nf ↦
        let kept = other_track ftn f i u tracks nf live in
        (kept.0, (lookup-erase_entry dec ftn f (assign dec ftn u tracks) nf ∙ kept.1.0, kept.1.1))
  ]

  all_forgotten :
      (ftn : Ftn) (t u : CacheTrack L) (tracks : List (Ftn × CacheTrack L)) (ns : List (Ftn × ℕ))
      → lookup dec ftn tracks ≡ some t
      → t.groups ≡ []
      → AllLive dec tracks ns
      → AllLive dec (erase_entry dec ftn (assign dec ftn u tracks)) ns
  all_forgotten ftn t u tracks [] e bare all = tt
  all_forgotten ftn t u tracks ((f, i) ∷ ns) e bare (live, (free, all)) = (
    forgotten_track ftn f i t u tracks e bare live,
    (free, all_forgotten ftn t u tracks ns e bare all),
  )

  -- The run returns a cache in order, with the entries given.
  abbrev LeavesEntries : List (Ftn × ℕ) → Run (MoqxCache L Ftn) → Type 0
  LeavesEntries ns r =
      (d : MoqxCache L Ftn) × ((r ≡ returns d)
        × (IsAccounted d × (IsLinked dec d × (d.global_group_lru ≡ ns))))

  evict_track_bare :
      (ftn : Ftn) (t : CacheTrack L) (c : MoqxCache L Ftn)
      → lookup dec ftn c.tracks ≡ some t
      → t.groups ≡ []
      → evict_track dec ftn c ≡ returns (forget dec ftn (stamp dec ftn t c), 1)
  unfolding evict_track evict_groups
  evict_track_bare ftn t c e bare = rw (e, evict_track) rw bare refl

  evict_shell-LeavesEntries :
      (ftn : Ftn) (t : CacheTrack L) (c : MoqxCache L Ftn)
      → IsAccounted c
      → IsLinked dec c
      → lookup dec ftn c.tracks ≡ some t
      → LeavesEntries c.global_group_lru (evict_shell dec ftn c)
  evict_shell-LeavesEntries ftn t c h linked e = elim (Bool-cases (empty t.groups && can_evict t)) [
    | inr stays ↦ (c, (rw (e, evict_shell) rw stays refl, (h, (linked, refl))))
    | inl goes ↦
        let bare = empty-bare t.groups (can_evict t) goes in
        let gone = evict_track-IsAccounted dec ftn c h in
        let d = forget dec ftn (stamp dec ftn t c) in
        let run = evict_track_bare ftn t c e bare in
        (
          d,
          (
            rw (e, evict_shell) rw (goes, run) refl,
            (
              subst (λ (x : MoqxCache L Ftn × ℕ). IsAccounted x.0)
                  (returns_inj (sym gone.1.0 ∙ run)) gone.1.1,
              (
                all_forgotten ftn t (record t { evicted = true }) c.tracks c.global_group_lru e bare
                    linked,
                refl,
              ),
            ),
          ),
        )
  ]

  evict_entry_present :
      (ftn : Ftn) (g : ℕ) (t : CacheTrack L) (group : CacheGroup) (c : MoqxCache L Ftn)
      → IsAccounted c
      → lookup dec ftn c.tracks ≡ some t
      → lookup ℕ_discrete g t.groups ≡ some group
      → evict_entry dec (ftn, g) c ≡ evict_shell dec ftn (drop_group dec ftn g t group c)
  evict_entry_present ftn g t group c h e f =
      rw (e, evict_entry) rw (evict_group_present dec ftn g t group c h e f) refl

  -- One turn takes one entry from the list.
  evict_entry-shorter :
      (ftn : Ftn) (g : ℕ) (c : MoqxCache L Ftn)
      → IsAccounted c
      → IsLinked dec c
      → back c.global_group_lru ≡ some (ftn, g)
      → (d : MoqxCache L Ftn) × ((evict_entry dec (ftn, g) c ≡ returns d)
          × (IsAccounted d
              × (IsLinked dec d × (length d.global_group_lru + 1 ≡ length c.global_group_lru))))
  evict_entry-shorter ftn g c h linked last =
      let live = back-Live dec c.tracks c.global_group_lru ftn g linked last in
      let t : CacheTrack L = live.0 in
      let e : lookup dec ftn c.tracks ≡ some t = live.1.0 in
      let group : CacheGroup = live.1.1.0 in
      let f : lookup ℕ_discrete g t.groups ≡ some group = live.1.1.1.0 in
      let d = drop_group dec ftn g t group c in
      let u = lighter dec g t group in
      let shorter : d.global_group_lru ≡ erase_group_node dec ftn g c.global_group_lru =
        rw (live.1.1.1.1) refl in
      let survivors =
        erased-AllLive dec ftn g c.tracks d.tracks c.global_group_lru
          (drop-Survives ftn g t u c.tracks e refl) linked in
      let ok : IsLinked dec d = rw shorter survivors in
      let own = lookup_own dec ftn u (record (unlisted dec ftn g group c) {
        total_cached_bytes = c.total_cached_bytes - group.total_bytes;
      }) in
      let rest =
        evict_shell-LeavesEntries ftn u d (drop_group-IsAccounted dec ftn g t group c h e f).1 ok
          own in
      (
        rest.0,
        (
          evict_entry_present ftn g t group c h e f ∙ rest.1.0,
          (
            rest.1.1.0,
            (
              rest.1.1.1.0,
              omega (
                arith,
                ap length (rest.1.1.1.1 ∙ shorter),
                erased_length dec ftn g c.global_group_lru last,
              ),
            ),
          ),
        ),
      )

  -- What the loop leaves: few enough bytes, or no group that can go.
  abbrev pub LeavesRoom : ℕ → Run (MoqxCache L Ftn) → Type 0
  LeavesRoom target r =
      (d : MoqxCache L Ftn) × ((r ≡ returns d)
        × (IsAccounted d
            × (IsLinked dec d × ((d.total_cached_bytes ≤ target) ⊎ (d.global_group_lru ≡ [])))))

  oldest_entry-none :
      (target : ℕ) (c : MoqxCache L Ftn)
      → oldest_entry dec target c ≡ none
      → (c.total_cached_bytes ≤ target) ⊎ (c.global_group_lru ≡ [])
  oldest_entry-none target c h = elim (Bool-cases (leb c.total_cached_bytes target)) [
    | inl y ↦ inl (ground arith)
    | inr y ↦ inr (back-none c.global_group_lru (rw y at h))
  ]

  oldest_entry-back :
      (target : ℕ) (c : MoqxCache L Ftn) (entry : Ftn × ℕ)
      → oldest_entry dec target c ≡ some entry
      → back c.global_group_lru ≡ some entry
  oldest_entry-back target c entry h = elim (Bool-cases (leb c.total_cached_bytes target)) [
    | inl y ↦ absurd (none≢some (rw y at h))
    | inr y ↦ rw y at h
  ]

  evict_down_to-LeavesRoom :
      (fuel target : ℕ) (c : MoqxCache L Ftn)
      → IsAccounted c
      → IsLinked dec c
      → length c.global_group_lru ≤ fuel
      → LeavesRoom target (evict_down_to dec fuel target c)
  unfolding evict_down_to
  evict_down_to-LeavesRoom zero target c h linked few =
      elim (Option-cases (oldest_entry dec target c)) [
        | inl e ↦ (c, (rw (e, evict_down_to) refl, (h, (linked, oldest_entry-none target c e))))
        | inr (entry, e) ↦
            absurd (no_back c.global_group_lru entry few (oldest_entry-back target c entry e))
      ]
  evict_down_to-LeavesRoom (suc n) target c h linked few =
      elim (Option-cases (oldest_entry dec target c)) [
        | inl e ↦ (c, (rw (e, evict_down_to) refl, (h, (linked, oldest_entry-none target c e))))
        | inr (entry, e) ↦
            let one =
              evict_entry-shorter entry.0 entry.1 c h linked (oldest_entry-back target c entry e) in
            let rest =
              evict_down_to-LeavesRoom n target one.0 one.1.1.0 one.1.1.1.0
                (omega (arith, one.1.1.1.1)) in
            (rest.0, (rw (e, evict_down_to) rw (one.1.0) rest.1.0, rest.1.1))
      ]

  -- With accounts that hold, and entries that stand for groups that are there, the eviction ends once
  -- it has as much fuel as the global list has entries, and no check of it fails. What it answers is
  -- whether the cache is within the limit, or has none; where it answers no, no group can go any more.
  -- The accounts hold and the entries stand for groups after it.
  pub evict_for_byte_limit_if_needed-IsLinked :
      (fuel : ℕ) (c : MoqxCache L Ftn)
      → IsAccounted c
      → IsLinked dec c
      → length c.global_group_lru ≤ fuel
      → (d : MoqxCache L Ftn) × ((b : Bool) × ((evict_for_byte_limit_if_needed dec fuel c
              ≡ returns (d, b))
            × ((IsAccounted d × IsLinked dec d)
                × ((b ≡ (c.max_cached_bytes == 0) || leb d.total_cached_bytes c.max_cached_bytes)
                    × ((b ≡ true) ⊎ (d.global_group_lru ≡ []))))))
  unfolding evict_for_byte_limit_if_needed
  evict_for_byte_limit_if_needed-IsLinked fuel c h linked few =
      let most = c.max_cached_bytes in
      elim (Bool-cases ((most == 0) || leb c.total_cached_bytes most)) [
        | inl y ↦ (
          c,
          (true, (rw (y, evict_for_byte_limit_if_needed) refl, ((h, linked), (sym y, inl refl)))),
        )
        | inr y ↦
            let target = if ltb c.min_eviction_bytes most then most - c.min_eviction_bytes else 0 in
            let rest = evict_down_to-LeavesRoom fuel target c h linked few in
            let d = rest.0 in
            (
              d,
              (
                leb d.total_cached_bytes most,
                (
                  rw (y, evict_for_byte_limit_if_needed) rw (rest.1.0) refl,
                  (
                    (rest.1.1.0, rest.1.1.1.0),
                    (
                      limited most c.total_cached_bytes (leb d.total_cached_bytes most) y,
                      elim rest.1.1.1.1 [
                        | inl few_left ↦
                            inl (within most c.min_eviction_bytes d.total_cached_bytes few_left)
                        | inr none_left ↦ inr none_left
                      ],
                    ),
                  ),
                ),
              ),
            )
      ]
