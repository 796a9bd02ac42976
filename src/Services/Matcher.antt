-- ===== src/Services/Matcher.antt =====
-- ServiceMatcher: the constructor from the configured services, and `match`.
use moq_testbed.Prelude.{Option, none, some, List, [], ◌∷◌, lookup, ◌==◌, if◌then◌else◌}
use moq_testbed.Prelude.Assoc.{assign, value_or}
use moq_testbed.Services.Rules.{
  Str, str_discrete, PathMatcher, LengthSort, PathRuleSet, no_rules, add_rule, finalize, match_path,
}

pub data Authority : Type 0 where
  exact_authority wildcard_authority : Str → Authority
  any_authority : Authority

pub record MatchEntry : Type 0 where
  pub authority : Authority
  pub path : PathMatcher

pub record ServiceMatcher : Type 0 where
  pub exact_authority_rules : List (Str × PathRuleSet)
  pub wildcard_authority_rules : List (Str × PathRuleSet)
  pub any_authority_rules : PathRuleSet

abbrev pub no_services : ServiceMatcher
no_services = record {
  exact_authority_rules = [];
  wildcard_authority_rules = [];
  any_authority_rules = no_rules;
}

-- The rules of a key, none of them if it is missing.
unfoldable pub rules_at : Str → List (Str × PathRuleSet) → PathRuleSet
unfolding lookup
rules_at key rules = value_or (lookup str_discrete key rules) no_rules

-- `rules[key].addRule(path, name)`.
unfoldable pub add_at :
    Str → PathMatcher → Str → List (Str × PathRuleSet) → List (Str × PathRuleSet)
unfolding assign rules_at add_rule
add_at key path name rules = assign str_discrete key (add_rule path name (rules_at key rules)) rules

-- One entry of a service; `substr(1)` of an empty pattern throws (`none`).
unfoldable pub add_entry : Str → MatchEntry → ServiceMatcher → Option ServiceMatcher
unfolding add_at add_rule
add_entry name entry m = elim entry.authority [
  | exact_authority value ↦
      some
        (record m { exact_authority_rules = add_at value entry.path name m.exact_authority_rules })
  | wildcard_authority [] ↦ none
  | wildcard_authority (c ∷ suffix) ↦ some (record m {
    wildcard_authority_rules = add_at suffix entry.path name m.wildcard_authority_rules;
  })
  | any_authority ↦
      some (record m { any_authority_rules = add_rule entry.path name m.any_authority_rules })
]

-- The two loops of the constructor, over the entries of the services one after the other.
unfoldable pub add_entries : List (Str × MatchEntry) → ServiceMatcher → Option ServiceMatcher
unfolding add_entry
add_entries [] m = some m
add_entries ((name, entry) ∷ rest) m = elim (add_entry name entry m) [
  | none ↦ none
  | some m' ↦ add_entries rest m'
]

unfoldable pub finalize_each : LengthSort → List (Str × PathRuleSet) → List (Str × PathRuleSet)
unfolding finalize
finalize_each by_length [] = []
finalize_each by_length ((key, rules) ∷ rest) =
    (key, finalize by_length rules) ∷ finalize_each by_length rest

unfoldable pub finalize_all : LengthSort → ServiceMatcher → ServiceMatcher
unfolding finalize_each finalize
finalize_all by_length m = record {
  exact_authority_rules = finalize_each by_length m.exact_authority_rules;
  wildcard_authority_rules = finalize_each by_length m.wildcard_authority_rules;
  any_authority_rules = finalize by_length m.any_authority_rules;
}

-- The constructor: `services` are the entries of every service with its name.
unfoldable pub service_matcher : LengthSort → List (Str × MatchEntry) → Option ServiceMatcher
unfolding add_entries finalize_all
service_matcher by_length services = elim (add_entries services no_services) [
  | none ↦ none
  | some m ↦ some (finalize_all by_length m)
]

-- A path that is empty counts as "/".
unfoldable pub effective_path : Str → Str
effective_path [] = 47 ∷ []
effective_path (c ∷ path) = c ∷ path

-- The authority from its first '.' on.
unfoldable pub from_dot : Str → Option Str
from_dot [] = none
from_dot (c ∷ rest) = let found = from_dot rest in if c == 46 then some (c ∷ rest) else found

-- A rule set that is there and matches ends the search.
unfoldable pub match_at : Option PathRuleSet → Str → Option Str → Option Str
unfolding match_path
match_at none path otherwise = otherwise
match_at (some rules) path otherwise = elim (match_path rules path) [
  | some name ↦ some name
  | none ↦ otherwise
]

unfoldable pub match_wildcard : ServiceMatcher → Str → Option Str → Option Str → Option Str
unfolding lookup match_at
match_wildcard m path otherwise none = otherwise
match_wildcard m path otherwise (some suffix) =
    match_at (lookup str_discrete suffix m.wildcard_authority_rules) path otherwise

unfoldable pub match : ServiceMatcher → Str → Str → Option Str
unfolding lookup effective_path from_dot match_at match_path match_wildcard
match m authority path =
    let p = effective_path path in
    let fallback = match_path m.any_authority_rules p in
    let wildcard = match_wildcard m p fallback (from_dot authority) in
    match_at (lookup str_discrete authority m.exact_authority_rules) p wildcard
