-- ===== src/Cache/Passed.antt =====
-- MoqxCache: which places the ranges of `getGapRanges` have.
use moq_testbed.Prelude.{
  ◌+◌, ◌-◌, ◌≤◌, ◌<◌, ◌≡◌, refl, subst, Bool, true, false, not, ◌&&◌, ◌||◌, Option, none, some,
  List, [], ◌∷◌, ltb, leb, ◌==◌, if◌then◌else◌, Bool-cases, inl, inr, arith,
}
use moq_testbed.Cache.State.{Location, after}
use moq_testbed.Cache.Misses.{before}
use moq_testbed.Cache.Gaps.{
  Places, Range, in_ranges, to_end, rest_of_group, groups_between, start_of_group, get_gap_ranges,
}

-- What moxygen documents of its locations.
pub record HasPlaces (P : Places) : Type 0 where
  pub prev_in_group_lem : (l : Location) → 0 < l.1 → P.prev_in_group l ≡ some (l.0, l.1 - 1)
  pub prev_lem : (l : Location) → 0 < l.1 → P.prev l ≡ some (l.0, l.1 - 1)
  pub prev_first : (l : Location) → l.1 ≡ 0 → 0 < l.0 → P.prev l ≡ some (l.0 - 1, P.location_max.1)
  pub next_group_lem : (l : Location) → l.0 < P.location_max.0 → P.next_group l ≡ some (l.0 + 1, 0)
  pub prev_group_end_lem :
      (l : Location) → 0 < l.0 → P.prev_group_end l ≡ some (l.0 - 1, P.location_max.1)

-- The run returns ranges that have the place as `b` says.
abbrev pub Covers : Location → Bool → Option (List Range) → Type 0
Covers l b o = (rs : List Range) × ((o ≡ some rs) × (in_ranges l rs ≡ b))

module _ (P : Places) (has : HasPlaces P) (l : Location) (low : l.1 ≤ P.location_max.1) where
  start_of_group-Covers :
      (end fetch_start : Location)
      → after fetch_start end ≡ false
      → Covers l
          ((l.0 == end.0) && (ltb l.1 end.1 && not (after fetch_start l)))
          (start_of_group P end fetch_start)
  start_of_group-Covers end fetch_start within =
      let first = if end.0 == fetch_start.0 then fetch_start else (end.0, 0) in
      elim (Bool-cases (after end first)) [
        | inl part ↦ (
          (first, (end.0, end.1 - 1)) ∷ [],
          (
            rw part rw (has.prev_in_group_lem end (ground (arith, part, within))) refl,
            ground (arith, part, within),
          ),
        )
        | inr no_part ↦ ([], (rw no_part refl, ground (arith, no_part, within)))
      ]

  groups_between-Covers :
      (start end : Location) (b : Bool) (o : Option (List Range))
      → end.0 < start.0
      → start.0 ≤ P.location_max.0
      → Covers l b o
      → Covers l
          ((ltb end.0 l.0 && ltb l.0 start.0) || b)
          (groups_between P (P.next_group end) (P.prev_group_end start) o)
  groups_between-Covers start end b o apart fits (rs, (e, c)) =
      let next : P.next_group end ≡ some (end.0 + 1, 0) = has.next_group_lem end (omega arith) in
      let last = has.prev_group_end_lem start (omega arith) in
      elim (Bool-cases (leb (end.0 + 1) (start.0 - 1))) [
        | inl more ↦ (
          ((end.0 + 1, 0), (start.0 - 1, P.location_max.1)) ∷ rs,
          (rw (next, last, e) rw more refl, rw c ground (arith, more, low)),
        )
        | inr adjacent ↦ (rs, (rw (next, last, e) rw adjacent refl, rw c ground (arith, adjacent)))
      ]

  rest_of_group-Covers :
      (start fetch_end : Location) (b : Bool) (o : Option (List Range))
      → after fetch_end start ≡ true
      → Covers l b o
      → Covers l
          (((l.0 == start.0) && (not (after start l) && after fetch_end l)) || b)
          (rest_of_group P start fetch_end o)
  rest_of_group-Covers start fetch_end b o within (rs, (e, c)) =
      elim (Bool-cases (start.0 == fetch_end.0)) [
        | inl top ↦ (
          (start, (fetch_end.0, fetch_end.1 - 1)) ∷ rs,
          (
            rw e rw top rw (has.prev_in_group_lem fetch_end (ground (arith, top, within))) refl,
            rw c ground (arith, top, within),
          ),
        )
        | inr below ↦ (
          (start, (start.0, P.location_max.1)) ∷ rs,
          (rw e rw below refl, rw c ground (arith, below, within, low)),
        )
      ]

-- In the fetch, from `start` on and before `end`.
abbrev pub is_passed : Location → Location → Bool → Location → Location → Location → Bool
is_passed start end newest_first_order fetch_start fetch_end l =
    (not (after fetch_start l) && after fetch_end l)
    && (not (before newest_first_order l start) && before newest_first_order l end)

module _ (P : Places) (has : HasPlaces P) (l : Location) (low : l.1 ≤ P.location_max.1) where
  to_end-Covers :
      (start end : Location)
      → start.0 < end.0
      → Covers l (not (after start l) && after end l) (to_end start (P.prev end))
  to_end-Covers start end apart = elim (Bool-cases (end.1 == 0)) [
    | inl whole ↦
        let first : end.1 ≡ 0 = ground (arith, whole) in
        (
          (start, (end.0 - 1, P.location_max.1)) ∷ [],
          (rw (has.prev_first end first (omega arith)) refl, ground (arith, first, low, apart)),
        )
    | inr part ↦ (
      (start, (end.0, end.1 - 1)) ∷ [],
      (rw (has.prev_lem end (ground (arith, part))) refl, ground (arith, part, apart)),
    )
  ]

  same_group-Covers :
      (start end : Location)
      → start.0 ≡ end.0
      → start.1 < end.1
      → Covers l
          (not (after start l) && after end l)
          (elim (P.prev_in_group end) [ none ↦ some [] | some last ↦ some ((start, last) ∷ []) ])
  same_group-Covers start end same ahead = (
    (start, (end.0, end.1 - 1)) ∷ [],
    (rw (has.prev_in_group_lem end (omega arith)) refl, ground (arith, same, ahead)),
  )

  as_said : {b d : Bool} {o : Option (List Range)} → b ≡ d → Covers l b o → Covers l d o
  as_said {o = o} e c = subst (λ x. Covers l x o) e c

  descending-Covers :
      (start end fetch_start fetch_end : Location)
      → end.0 < start.0
      → fetch_end.0 ≤ P.location_max.0
      → after fetch_start start ≡ false
      → after fetch_end start ≡ true
      → after fetch_start end ≡ false
      → after end fetch_end ≡ false
      → Covers l (is_passed start end true fetch_start fetch_end l) (
          rest_of_group P start fetch_end (
            groups_between P
              (P.next_group end)
              (P.prev_group_end start)
              (start_of_group P end fetch_start)))
  descending-Covers start end fetch_start fetch_end apart fits h1 h2 h3 h4 =
      let three = start_of_group-Covers P has l low end fetch_start h3 in
      let two =
        groups_between-Covers P has l low start end _ _ apart (ground (arith, fits, h2)) three in
      as_said (ground (arith, apart, h1, h2, h3, h4))
        (rest_of_group-Covers P has l low start fetch_end _ _ h2 two)

  -- For a `start` within the fetch and an `end` within it or at its end: no check fails, and the ranges
  -- have a place exactly if it is in the fetch, is not before `start` and is before `end`, in either
  -- order. The place's object number and the fetch's groups are at most the greatest.
  pub get_gap_ranges-exact :
      (start end : Location) (newest_first_order : Bool) (fetch_start fetch_end : Location)
      → fetch_end.0 ≤ P.location_max.0
      → after fetch_start start ≡ false
      → after fetch_end start ≡ true
      → after fetch_start end ≡ false
      → after end fetch_end ≡ false
      → Covers l
          (is_passed start end newest_first_order fetch_start fetch_end l)
          (get_gap_ranges P start end newest_first_order fetch_start fetch_end)
  unfolding get_gap_ranges
  get_gap_ranges-exact start end true fetch_start fetch_end fits h1 h2 h3 h4 =
      elim (Bool-cases (ltb start.0 end.0 || (start.0 == end.0) && leb end.1 start.1)) [
        | inl bare ↦ rw bare ([], (refl, ground (arith, bare, h1, h2, h3, h4)))
        | inr full ↦ elim (Bool-cases (start.0 == end.0)) [
          | inl same ↦
              let ahead : start.1 < end.1 = ground (arith, full, same) in
              rw full rw same (
                as_said (ground (arith, same, ahead, h1, h2, h3, h4))
                  (same_group-Covers start end (ground (arith, same)) ahead))
          | inr apart ↦ rw full rw apart (
              descending-Covers start end fetch_start fetch_end (ground (arith, full, apart)) fits
                h1 h2 h3 h4)
        ]
      ]
  get_gap_ranges-exact start end false fetch_start fetch_end fits h1 h2 h3 h4 =
      elim (Bool-cases (after end start)) [
        | inr bare ↦ rw bare ([], (refl, ground (arith, bare, h1, h2, h3, h4)))
        | inl full ↦ elim (Bool-cases (start.0 == end.0)) [
          | inl same ↦
              let ahead : start.1 < end.1 = ground (arith, full, same) in
              rw full rw same (
                as_said (ground (arith, same, ahead, h1, h2, h3, h4))
                  (same_group-Covers start end (ground (arith, same)) ahead))
          | inr apart ↦ rw full rw apart (
              as_said (ground (arith, full, apart, h1, h2, h3, h4))
                (to_end-Covers start end (ground (arith, full, apart))))
        ]
      ]
