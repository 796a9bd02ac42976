-- ===== src/Tests/Matchers.antt =====
-- ServiceMatcher on two services, with an insertion sort.
use moq_testbed.Prelude.{
  ℕ, ◌≤◌, ◌≡◌, ◌↔◌, refl, true, false, ◌&&◌, ◌||◌, none, some, List, [], ◌∷◌, lookup, length,
  leb→le, leb, ℕ_discrete, Bool-cases, inl, inr, if◌then◌else◌, arith,
}
use moq_testbed.Prelude.Assoc.{emplace, contains, keys, value_or}
use moq_testbed.Services.Rules.{
  Str, str_discrete, PathMatcher, exact_path, prefix_path, PrefixRule, Listed, first, later, All,
  LongestFirst, LengthSort, match_path, starts_with, scan, add_rule, finalize,
}
use moq_testbed.Services.Matcher.{
  exact_authority, wildcard_authority, any_authority, MatchEntry, ServiceMatcher, no_services,
  service_matcher, add_entries, add_entry, match,
}
use moq_testbed.Services.RuleList.{Rules, rule_set, add_rules, applies, beats}
use moq_testbed.Services.Longest.{match_path-best, match_path-none}
use moq_testbed.Services.Gather.{rules_for, is_exact, is_any}
use moq_testbed.Services.ExactPaths.{IsDistinct, has_exact, all_exact_paths, all_exact_paths_lem}
use moq_testbed.Services.Tiers.{or_match, wildcard_rules, with_dot, slash_if_empty, match_lem}

-- `std::sort`, by one that is stable.
put : PrefixRule → List PrefixRule → List PrefixRule
put r [] = r ∷ []
put r (q ∷ rs) =
    let rest = put r rs in if leb (length q.prefix) (length r.prefix) then r ∷ q ∷ rs else q ∷ rest

insertion_sort : List PrefixRule → List PrefixRule
insertion_sort [] = []
insertion_sort (r ∷ rs) = put r (insertion_sort rs)

All-le :
    (m n : ℕ) (rs : List PrefixRule)
    → m ≤ n
    → All (λ q. length q.prefix ≤ m) rs
    → All (λ q. length q.prefix ≤ n) rs
All-le m n [] h a = tt
All-le m n (r ∷ rs) h a = (omega (arith, a.0), All-le m n rs h a.1)

All-put :
    (n : ℕ) (r : PrefixRule) (rs : List PrefixRule)
    → length r.prefix ≤ n
    → All (λ q. length q.prefix ≤ n) rs
    → All (λ q. length q.prefix ≤ n) (put r rs)
unfolding put
All-put n r [] h a = (h, tt)
All-put n r (q ∷ rs) h a = elim (Bool-cases (leb (length q.prefix) (length r.prefix))) [
  | inl here ↦ rw here (h, a)
  | inr there ↦ rw there (a.0, All-put n r rs h a.1)
]

longer_than : (a b : ℕ) → leb a b ≡ false → b ≤ a
longer_than a b h = ground arith

put-LongestFirst :
    (r : PrefixRule) (rs : List PrefixRule) → LongestFirst rs → LongestFirst (put r rs)
unfolding put
put-LongestFirst r [] s = (tt, tt)
put-LongestFirst r (q ∷ rs) s = elim (Bool-cases (leb (length q.prefix) (length r.prefix))) [
  | inl here ↦
      let shorter : length q.prefix ≤ length r.prefix = leb→le _ _ here in
      rw here ((shorter, All-le (length q.prefix) (length r.prefix) rs shorter s.0), s)
  | inr there ↦
      let longer : length r.prefix ≤ length q.prefix = longer_than _ _ there in
      rw there (All-put (length q.prefix) r rs longer s.0, put-LongestFirst r rs s.1)
]

insertion_sort-LongestFirst : (rs : List PrefixRule) → LongestFirst (insertion_sort rs)
unfolding insertion_sort
insertion_sort-LongestFirst [] = tt
insertion_sort-LongestFirst (r ∷ rs) =
    put-LongestFirst r (insertion_sort rs) (insertion_sort-LongestFirst rs)

-- Two lists with the same rules.
abbrev Alike : List PrefixRule → List PrefixRule → Type 0
Alike rs qs = (x : PrefixRule) → Listed x rs ↔ Listed x qs

insert_first :
    (x r : PrefixRule) (rs qs : List PrefixRule)
    → (Listed x rs → Listed x qs)
    → Listed x (r ∷ rs)
    → Listed x (r ∷ qs)
insert_first x r rs qs h first = first
insert_first x r rs qs h (later l) = later (h l)

swap : (x r q : PrefixRule) (rs : List PrefixRule) → Listed x (r ∷ q ∷ rs) → Listed x (q ∷ r ∷ rs)
swap x r q rs first = later first
swap x r q rs (later first) = first
swap x r q rs (later (later l)) = later (later l)

put-Alike : (r : PrefixRule) (rs : List PrefixRule) → Alike (put r rs) (r ∷ rs)
unfolding put
put-Alike r [] x = (λ l. l, λ l. l)
put-Alike r (q ∷ rs) x = elim (Bool-cases (leb (length q.prefix) (length r.prefix))) [
  | inl here ↦ rw here (λ l. l, λ l. l)
  | inr there ↦
      let rest = put-Alike r rs x in
      rw there (
        λ l. swap x q r rs (insert_first x q (put r rs) (r ∷ rs) rest.0 l),
        λ l. insert_first x q (r ∷ rs) (put r rs) rest.1 (swap x r q rs l),
      )
]

insertion_sort-Alike :
    (x : PrefixRule) (rs : List PrefixRule) → Listed x (insertion_sort rs) ↔ Listed x rs
unfolding insertion_sort
insertion_sort-Alike x [] = (λ l. l, λ l. l)
insertion_sort-Alike x (r ∷ rs) =
    let rest = insertion_sort-Alike x rs in
    let placed = put-Alike r (insertion_sort rs) x in
    (
      λ l. insert_first x r (insertion_sort rs) rs rest.0 (placed.0 l),
      λ l. placed.1 (insert_first x r rs (insertion_sort rs) rest.1 l),
    )

abbrev by_length : LengthSort
by_length = record {
  sort = insertion_sort;
  sorts = insertion_sort-LongestFirst;
  keeps = insertion_sort-Alike;
}

-- "/", "/live" and "/live/x"; the names are one byte.
abbrev root : Str
root = 47 ∷ []

abbrev live : Str
live = 47 ∷ 108 ∷ []

abbrev live_x : Str
live_x = 47 ∷ 108 ∷ 120 ∷ []

abbrev rules : Rules
rules = (prefix_path root, 1 ∷ []) ∷ (prefix_path live, 2 ∷ []) ∷ (exact_path root, 3 ∷ []) ∷ []

longest_wins : match_path (rule_set by_length rules) live_x ≡ some (2 ∷ [])
unfolding match_path rule_set add_rules add_rule finalize scan starts_with insertion_sort put
    str_discrete ℕ_discrete lookup emplace
longest_wins = refl

match_path-best_example :
    (r : PathMatcher) × Listed (r, 2 ∷ []) rules
    × (applies live_x r ≡ true)
    × All (λ q. (applies live_x q.0 && beats q.0 r) ≡ false) rules
match_path-best_example = match_path-best by_length rules live_x (2 ∷ []) longest_wins

abbrev narrow : Rules
narrow = (prefix_path live, 2 ∷ []) ∷ (exact_path live_x, 3 ∷ []) ∷ []

root_missing : match_path (rule_set by_length narrow) root ≡ none
unfolding match_path rule_set add_rules add_rule finalize scan starts_with insertion_sort put
    str_discrete ℕ_discrete lookup emplace
root_missing = refl

match_path-none_example : All (λ q. applies root q.0 ≡ false) narrow
match_path-none_example = match_path-none by_length narrow root root_missing

-- "a.b" and "*.b".
abbrev services : List (Str × MatchEntry)
services =
    (1 ∷ [], record { authority = any_authority; path = prefix_path root })
    ∷ (
      2 ∷ [],
      record { authority = wildcard_authority (42 ∷ 46 ∷ 98 ∷ []); path = prefix_path live },
    )
    ∷ (3 ∷ [], record { authority = exact_authority (97 ∷ 46 ∷ 98 ∷ []); path = exact_path root })
    ∷ []

abbrev matcher : ServiceMatcher
matcher = value_or (service_matcher by_length services) no_services

built : service_matcher by_length services ≡ some matcher
unfolding service_matcher add_entries add_entry
built = refl

-- "/live" at "a.b".
abbrev a_b : Str
a_b = 97 ∷ 46 ∷ 98 ∷ []

match_lem_example :
    let best = λ (rules : Rules). match_path (rule_set by_length rules) (slash_if_empty live) in
    match matcher a_b live
    ≡ or_match (best (rules_for (is_exact a_b) services)) (
        or_match
          (best (wildcard_rules (with_dot (some (98 ∷ []))) services))
          (best (rules_for is_any services)))
match_lem_example =
    match_lem by_length services matcher (97 ∷ []) (some (98 ∷ [])) live (refl, tt) built

all_exact_paths_lem_example :
    IsDistinct (all_exact_paths matcher)
    × (contains str_discrete root (all_exact_paths matcher) ≡ (
        (has_exact root matcher.exact_authority_rules
          || has_exact root matcher.wildcard_authority_rules)
        || contains str_discrete root (keys matcher.any_authority_rules.exact_paths)))
all_exact_paths_lem_example = all_exact_paths_lem matcher root
