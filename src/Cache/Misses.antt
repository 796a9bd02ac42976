-- ===== src/Cache/Misses.antt =====
-- MoqxCache: the intervals that a fetch asks upstream for, from the first place that it misses up to
-- the next one that it has. The order is whether it is `NewestFirst`.
use moq_testbed.Prelude.{
  ℕ, suc, ◌+◌, ◌-◌, ◌^◌, ◌≤◌, ◌<◌, ◌≡◌, refl, Bool, true, false, not, ◌&&◌, ◌||◌, some, List, [],
  ◌∷◌, ◌++◌, ltb, ◌==◌, if◌then◌else◌, Bool-cases, inl, inr, u64, arith,
}
use moq_testbed.Prelude.Assoc.{value_or}
use moq_testbed.Cache.State.{Location, after, Locations}

-- On 64 bits.
unfoldable pub minus : ℕ → ℕ → ℕ
minus m n = u64 (m + (2 ^ 64 - n))

abbrev pub Interval : Type 0
Interval = Location × Location

abbrev pub latest : Location → Location → Location
latest a b = if after b a then b else a

abbrev pub in_intervals : Location → List Interval → Bool
in_intervals l [] = false
in_intervals l (i ∷ is) = (not (after i.0 l) && after i.1 l) || in_intervals l is

abbrev pub intermediate : Location → ℕ → Location
intermediate start g = (g, if start.0 == g then start.1 else 0)

-- The rest of the miss's group and the groups in between.
unfoldable pub miss_intervals : Location → Location → Location → Location → List Interval
miss_intervals start interval_end miss hit =
    let between = minus (minus miss.0 hit.0) 1 in
    if ltb 0 between
    then (if miss.1 == 0
        then ((latest start (minus miss.0 between, 0), interval_end) ∷ [])
        else ((miss, interval_end) ∷ (intermediate start (u64 (hit.0 + 1)), (miss.0, 0)) ∷ []))
    else ((miss, interval_end) ∷ [])

-- The beginning of the hit's group.
unfoldable pub hit_intervals : Location → Location → List Interval
hit_intervals start hit =
    let last_start = if start.0 == hit.0 then start else (hit.0, 0) in
    if not (hit.1 == 0) && after hit last_start then ((last_start, hit) ∷ []) else []

module _ (L : Locations) where
  unfoldable pub get_fetch_intervals :
      Location → Location → Location → Location → Bool → Bool → List Interval
  get_fetch_intervals start end miss hit newest_first_order is_tail =
      let group_end = value_or (L.next_group miss) end in
      if not newest_first_order
      then ((miss, if is_tail then end else hit) ∷ [])
      else if miss.0 == hit.0
      then ((miss, if is_tail then group_end else hit) ∷ [])
      else miss_intervals start (if miss.0 == end.0 then end else group_end) miss hit
        ++ hit_intervals start hit

minus_lem : (m n : ℕ) → n ≤ m → m < 2 ^ 64 → minus m n ≡ m - n
unfolding minus
minus_lem m n h b = omega arith

abbrev pub in_miss : Location → Location → Location → Location → Bool
in_miss interval_end miss hit l =
    (not (after miss l) && after interval_end l) || (ltb hit.0 l.0 && ltb l.0 miss.0)

after_hit : (m n : ℕ) → n < m → m - (m - n - 1) ≡ suc n
after_hit m n h = omega arith

next_hit : (m n : ℕ) → n < m → m < 2 ^ 64 → u64 (n + 1) ≡ suc n
next_hit m n h fits = omega arith

in_miss_intervals :
    (start interval_end miss hit l : Location)
    → hit.0 < miss.0
    → miss.0 < 2 ^ 64
    → miss.0 ≤ interval_end.0
    → after start hit ≡ false
    → in_intervals l (miss_intervals start interval_end miss hit) ≡ in_miss interval_end miss hit l
unfolding miss_intervals
in_miss_intervals (a, b) (c, d) (e, f) (g, h) (i, j) under fits ends starts =
    rw
      (
        minus_lem e g (omega arith) fits,
        minus_lem (e - g) 1 (omega arith) (omega arith),
        minus_lem e (e - g - 1) (omega arith) fits,
        after_hit e g under,
        next_hit e g under fits,
      )
      elim (Bool-cases (ltb 0 (e - g - 1))) [
        | inl more ↦ elim (Bool-cases (f == 0)) [
          | inl whole ↦ elim (Bool-cases (after (suc g, 0) (a, b))) [
            | inl past ↦ rw (more, whole, past) ground arith
            | inr not_past ↦ ground arith
          ]
          | inr part ↦ rw (more, part) ground arith
        ]
        | inr none_between ↦ rw none_between ground arith
      ]

in_hit_intervals :
    (start hit l : Location)
    → after start hit ≡ false
    → in_intervals l (hit_intervals start hit)
      ≡ ((l.0 == hit.0) && ltb l.1 hit.1 && not (after start l))
unfolding hit_intervals
in_hit_intervals (a, b) (c, d) (e, f) h = ground arith

-- What a fetch reads first.
abbrev pub before : Bool → Location → Location → Bool
before newest_first_order l m =
    if newest_first_order then ltb m.0 l.0 || (l.0 == m.0) && ltb l.1 m.1 else after m l

-- In the fetch, from the miss on and before the hit.
abbrev pub is_missing : Location → Location → Location → Location → Bool → Location → Bool
is_missing start end miss hit newest_first_order l =
    (not (after start l) && after end l)
    && (not (before newest_first_order l miss) && before newest_first_order l hit)

abbrev pub NextGroups : Locations → Type 0
NextGroups L = (l : Location) → l.0 < L.location_max.0 → L.next_group l ≡ some (l.0 + 1, 0)

or_or : (a b c : Bool) → a || (b || c) ≡ (a || b) || c
or_or true b c = refl
or_or false b c = refl

in_intervals-append :
    (l : Location) (is js : List Interval)
    → in_intervals l (is ++ js) ≡ in_intervals l is || in_intervals l js
in_intervals-append l [] js = refl
in_intervals-append l (i ∷ is) js =
    rw
      (
        in_intervals-append l is js,
        or_or (not (after i.0 l) && after i.1 l) (in_intervals l is) (in_intervals l js),
      )
      refl

in_descending :
    (start interval_end miss hit l : Location)
    → hit.0 < miss.0
    → miss.0 < 2 ^ 64
    → miss.0 ≤ interval_end.0
    → after start hit ≡ false
    → in_intervals l (miss_intervals start interval_end miss hit ++ hit_intervals start hit)
      ≡ in_miss interval_end miss hit l || (l.0 == hit.0) && ltb l.1 hit.1 && not (after start l)
in_descending start interval_end miss hit l h fits ends starts =
    rw
      (
        in_intervals-append l (miss_intervals start interval_end miss hit)
            (hit_intervals start hit),
        in_miss_intervals start interval_end miss hit l h fits ends starts,
        in_hit_intervals start hit l starts,
      )
      refl

-- For a miss and a later hit in the order of the fetch, both within it, and the miss's group below the
-- greatest, the intervals of `getFetchIntervals` have a place exactly if it is in the fetch, is not
-- before the miss and is before the hit, in either order. With the newest group first, a place is
-- before another if its group is greater, or if it has the same group and a smaller object.
pub get_fetch_intervals-exact :
    (L : Locations) (start end miss hit l : Location) (newest_first_order : Bool)
    → NextGroups L
    → L.location_max.0 < 2 ^ 64
    → miss.0 < L.location_max.0
    → after start hit ≡ false
    → after end hit ≡ true
    → after start miss ≡ false
    → after end miss ≡ true
    → before newest_first_order miss hit ≡ true
    → in_intervals l (get_fetch_intervals L start end miss hit newest_first_order false)
      ≡ is_missing start end miss hit newest_first_order l
unfolding get_fetch_intervals
get_fetch_intervals-exact L start end miss hit l false next fits small h1 h2 h3 h4 h5 =
    ground (arith, h1, h2, h3, h4, h5)
get_fetch_intervals-exact L start end miss hit l true next fits small h1 h2 h3 h4 h5 =
    elim (Bool-cases (miss.0 == hit.0)) [
      | inl same ↦ rw same ground (arith, h1, h2, h3, h4, h5)
      | inr other ↦ elim (Bool-cases (miss.0 == end.0)) [
        | inl last ↦
            rw (other, last) rw
              (in_descending start end miss hit l (ground arith) (omega arith) (ground arith) h1)
              ground arith
        | inr not_last ↦
            rw (other, next miss small) rw not_last rw
              (in_descending start (miss.0 + 1, 0) miss hit l (ground arith) (omega arith)
                (omega arith) h1)
              ground arith
      ]
    ]
