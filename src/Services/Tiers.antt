-- ===== src/Services/Tiers.antt =====
-- The constructor and `match`: the order of the three tables.
use moq_testbed.Prelude.{
  ◌≡◌, refl, sym, ap, ap₂, ◌∙◌, Option, none, some, List, [], ◌∷◌, lookup, ite, ◌++◌, ◌==◌, false,
  Option-cases, inl, inr, arith,
}
use moq_testbed.Prelude.Assoc.{value_or}
use moq_testbed.Services.Rules.{
  Str, str_discrete, LengthSort, PathRuleSet, finalize, match_path, All, Listed, first, PrefixRule,
  scan,
}
use moq_testbed.Services.Matcher.{
  MatchEntry, ServiceMatcher, no_services, rules_at, add_entries, finalize_each, finalize_all,
  service_matcher, effective_path, from_dot, match_at, match_wildcard, match,
}
use moq_testbed.Services.RuleList.{Rules, add_rules, rule_set, some_inj}
use moq_testbed.Services.Longest.{none-some}
use moq_testbed.Services.Gather.{
  rules_for, is_exact, is_wildcard, is_any, gathered, Gathers-is_exact, Gathers-is_wildcard,
  Gathers-is_any,
}

abbrev finalize_found : LengthSort → Option PathRuleSet → Option PathRuleSet
finalize_found by_length none = none
finalize_found by_length (some rules) = some (finalize by_length rules)

abbrev pub or_match : Option Str → Option Str → Option Str
or_match none b = b
or_match (some a) b = some a

abbrev pub wildcard_rules : Option Str → List (Str × MatchEntry) → Rules
wildcard_rules none services = []
wildcard_rules (some suffix) services = rules_for (is_wildcard suffix) services

none-Listed : (xs : List PrefixRule) → ((r : PrefixRule) → Listed r xs → Listed r []) → xs ≡ []
none-Listed [] h = refl
none-Listed (r ∷ xs) h = elim (h r first) [ ]

match_path-no_rules :
    (by_length : LengthSort) (path : Str) → match_path (rule_set by_length []) path ≡ none
unfolding rule_set match_path finalize add_rules scan lookup
match_path-no_rules by_length path =
    ap (scan path) (none-Listed (by_length.sort []) (λ r. (by_length.keeps r []).0))

lookup-finalize_each :
    (by_length : LengthSort) (key : Str) (rules : List (Str × PathRuleSet))
    → lookup str_discrete key (finalize_each by_length rules)
      ≡ finalize_found by_length (lookup str_discrete key rules)
unfolding lookup finalize_each
lookup-finalize_each by_length key [] = refl
lookup-finalize_each by_length key ((k, r) ∷ rules) =
    ground (arith, lookup-finalize_each by_length key rules)

match_at_lem :
    (rules : PathRuleSet) (path : Str) (otherwise : Option Str)
    → match_at (some rules) path otherwise ≡ or_match (match_path rules path) otherwise
unfolding match_at
match_at_lem rules path otherwise = elim (Option-cases (match_path rules path)) [
  | inl e ↦ rw (e, match_at)
  | inr (n, e) ↦ rw (e, match_at)
]

tier :
    (by_length : LengthSort) (key path : Str) (rules : List (Str × PathRuleSet))
    (otherwise : Option Str)
    → match_at (lookup str_discrete key (finalize_each by_length rules)) path otherwise
      ≡ or_match (match_path (finalize by_length (rules_at key rules)) path) otherwise
unfolding rules_at match_at rule_set add_rules
tier by_length key path rules otherwise =
    rw (lookup-finalize_each by_length key rules)
      (elim (Option-cases (lookup str_discrete key rules)) [
        | inl missing ↦
            rw (missing, rules_at)
              (sym (ap (λ x. or_match x otherwise) (match_path-no_rules by_length path)))
        | inr (r, there) ↦ rw (there, rules_at) (match_at_lem (finalize by_length r) path otherwise)
      ])

match_wildcard_lem :
    (by_length : LengthSort) (services : List (Str × MatchEntry)) (m : ServiceMatcher) (path : Str)
    (otherwise : Option Str) (suffix : Option Str)
    → add_entries services no_services ≡ some m
    → match_wildcard (finalize_all by_length m) path otherwise suffix
      ≡ or_match (match_path (rule_set by_length (wildcard_rules suffix services)) path) otherwise
unfolding match_wildcard finalize_all rule_set rules_at
match_wildcard_lem by_length services m path otherwise none built =
    sym (ap (λ x. or_match x otherwise) (match_path-no_rules by_length path))
match_wildcard_lem by_length services m path otherwise (some suffix) built =
    tier by_length suffix path m.wildcard_authority_rules otherwise
    ∙ ap (λ r. or_match (match_path (finalize by_length r) path) otherwise)
        (gathered (λ x. rules_at suffix x.wildcard_authority_rules) (is_wildcard suffix)
          (Gathers-is_wildcard suffix) services no_services m built)

match-finalize_all :
    (by_length : LengthSort) (services : List (Str × MatchEntry)) (m : ServiceMatcher)
    (authority path : Str)
    → add_entries services no_services ≡ some m
    → let p = effective_path path in
      let best = λ (rules : Rules). match_path (rule_set by_length rules) p in
      match (finalize_all by_length m) authority path
      ≡ or_match (best (rules_for (is_exact authority) services)) (
          or_match
            (best (wildcard_rules (from_dot authority) services))
            (best (rules_for is_any services)))
unfolding match finalize_all rule_set rules_at
match-finalize_all by_length services m authority path built =
    let p = effective_path path in
    let best = λ (r : PathRuleSet). match_path (finalize by_length r) p in
    let exact =
      gathered (λ x. rules_at authority x.exact_authority_rules) (is_exact authority)
        (Gathers-is_exact authority) services no_services m built in
    let any =
      gathered (λ x. x.any_authority_rules) is_any Gathers-is_any services no_services m built in
    let fallback = best m.any_authority_rules in
    tier by_length authority p m.exact_authority_rules
      (match_wildcard (finalize_all by_length m) p fallback (from_dot authority))
    ∙ ap₂ or_match (ap best exact) (
        match_wildcard_lem by_length services m p fallback (from_dot authority) built
        ∙ ap
            (or_match
              (match_path (rule_set by_length (wildcard_rules (from_dot authority) services)) p))
            (ap best any))

match_tiers :
    (by_length : LengthSort) (services : List (Str × MatchEntry)) (m : ServiceMatcher)
    (authority path : Str)
    → service_matcher by_length services ≡ some m
    → let p = effective_path path in
      let best = λ (rules : Rules). match_path (rule_set by_length rules) p in
      match m authority path
      ≡ or_match (best (rules_for (is_exact authority) services)) (
          or_match
            (best (wildcard_rules (from_dot authority) services))
            (best (rules_for is_any services)))
unfolding service_matcher
match_tiers by_length services m authority path built =
    elim (Option-cases (add_entries services no_services)) [
      | inl thrown ↦ absurd (none-some m (sym (rw (thrown, service_matcher)) ∙ built))
      | inr (m0, added) ↦
          let same_one : finalize_all by_length m0 ≡ m =
            some_inj (sym (rw (added, service_matcher)) ∙ built) in
          ap (λ x. match x authority path) (sym same_one)
          ∙ match-finalize_all by_length services m0 authority path added
    ]

abbrev pub NoDot : Str → Type 0
NoDot = All (λ c. (c == 46) ≡ false)

-- A dot and what follows it.
abbrev pub with_dot : Option Str → Option Str
with_dot none = none
with_dot (some rest) = some (46 ∷ rest)

abbrev pub slash_if_empty : Str → Str
slash_if_empty path = ite (str_discrete path []) (47 ∷ []) path

effective_path_lem : (path : Str) → effective_path path ≡ slash_if_empty path
unfolding effective_path str_discrete
effective_path_lem [] = refl
effective_path_lem (c ∷ path) = refl

from_dot_lem :
    (host : Str) (rest : Option Str)
    → NoDot host
    → from_dot (host ++ value_or (with_dot rest) []) ≡ with_dot rest
unfolding from_dot
from_dot_lem [] none free = refl
from_dot_lem [] (some rest) free = refl
from_dot_lem (c ∷ host) rest (here, free) = rw here (from_dot_lem host rest free)

-- For an authority that is a host without dots, followed by nothing or by a dot and the rest: a matcher
-- built from the services answers with the best rule of the entries for exactly this authority, if none
-- applies with the best of those for what follows the host, dot included, and if none applies with the
-- best of those for any authority. An empty path counts as "/".
pub match_lem :
    (by_length : LengthSort) (services : List (Str × MatchEntry)) (m : ServiceMatcher) (host : Str)
    (rest : Option Str) (path : Str)
    → NoDot host
    → service_matcher by_length services ≡ some m
    → let authority = host ++ value_or (with_dot rest) [] in
      let best = λ (rules : Rules). match_path (rule_set by_length rules) (slash_if_empty path) in
      match m authority path
      ≡ or_match (best (rules_for (is_exact authority) services)) (
          or_match
            (best (wildcard_rules (with_dot rest) services))
            (best (rules_for is_any services)))
match_lem by_length services m host rest path free built =
    rw (effective_path_lem path, from_dot_lem host rest free) at
      (match_tiers by_length services m (host ++ value_or (with_dot rest) []) path built)
