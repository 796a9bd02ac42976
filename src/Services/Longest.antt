-- ===== src/Services/Longest.antt =====
-- PathRuleSet::match and the order of the rules that apply.
use moq_testbed.Prelude.{
  ◌≡◌, ◌≢◌, refl, sym, ap, ap₂, subst, ◌∙◌, true, false, ◌&&◌, none, some, List, [], ◌∷◌, lookup,
  length, ltb, if_pos, if_neg, Bool-cases, Option-cases, inl, inr,
}
use moq_testbed.Services.Rules.{
  Str, str_discrete, PathMatcher, exact_path, prefix_path, PrefixRule, Listed, first, later, All,
  LengthSort, PathRuleSet, no_rules, finalize, starts_with, scan, match_path,
}
use moq_testbed.Services.RuleList.{
  Rules, rule_set, applies, beats, exact_of, prefixes_of, or_else, exact_paths-add_rules,
  prefix_paths-add_rules, and_false, some_inj, scan_lem,
}

All-of : {A : Type 0} {P : A → Type 0} (xs : List A) → ((x : A) → P x) → All P xs
All-of [] f = tt
All-of (x ∷ xs) f = (f x, All-of xs f)

All-Listed : {A : Type 0} (P : A → Type 0) {a : A} {xs : List A} → All P xs → Listed a xs → P a
All-Listed P h first = h.0
All-Listed P h (later l) = All-Listed P h.1 l

beats-exact_path : (v : Str) (q : PathMatcher) → beats q (exact_path v) ≡ false
beats-exact_path v (exact_path w) = refl
beats-exact_path v (prefix_path w) = refl

pub none-some : {A : Type 0} (a : A) → none ≢ some a
none-some a h = cc

exact_of-Listed :
    (path name : Str) (rules : Rules)
    → exact_of path rules ≡ some name
    → Listed (exact_path path, name) rules
exact_of-Listed path name [] found = cc
exact_of-Listed path name ((prefix_path v, n) ∷ rules) found =
    later (exact_of-Listed path name rules found)
exact_of-Listed path name ((exact_path v, n) ∷ rules) found = elim (str_discrete v path) [
  | yes p ↦
      let same : n ≡ name = some_inj (sym (rw (if_pos _ p)) ∙ found) in
      let pair : Path (PathMatcher × Str) (exact_path v, n) (exact_path path, name) = cc in
      subst (λ (x : PathMatcher × Str). Listed x ((exact_path v, n) ∷ rules)) pair first
  | no ne ↦ later (exact_of-Listed path name rules (rw (if_neg _ ne) at found))
]

prefixes_of-Listed :
    (r : PrefixRule) (rules : Rules)
    → Listed r (prefixes_of rules)
    → Listed (prefix_path r.prefix, r.service_name) rules
prefixes_of-Listed r [] l = elim l [ ]
prefixes_of-Listed r ((exact_path v, n) ∷ rules) l = later (prefixes_of-Listed r rules l)
prefixes_of-Listed r ((prefix_path v, n) ∷ rules) first = first
prefixes_of-Listed r ((prefix_path v, n) ∷ rules) (later l) = later (prefixes_of-Listed r rules l)

-- Without an exact path what no prefix rule beats no rule beats.
rules_best :
    (path v : Str) (rules : Rules)
    → exact_of path rules ≡ none
    → ((q : PrefixRule)
        → Listed q (prefixes_of rules)
        → (starts_with path q.prefix && ltb (length v) (length q.prefix)) ≡ false)
    → All (λ q. (applies path q.0 && beats q.0 (prefix_path v)) ≡ false) rules
rules_best path v [] none_exact best = tt
rules_best path v ((exact_path w, n) ∷ rules) none_exact best = elim (str_discrete w path) [
  | yes p ↦ absurd (none-some n (sym none_exact ∙ rw (if_pos _ p)))
  | no ne ↦ (rw (if_neg _ ne), rules_best path v rules (rw (if_neg _ ne) at none_exact) best)
]
rules_best path v ((prefix_path w, n) ∷ rules) none_exact best = (
  best (record { prefix = w; service_name = n }) first,
  rules_best path v rules none_exact (λ q l. best q (later l)),
)

exact_of-rule_set :
    (by_length : LengthSort) (rules : Rules) (path : Str)
    → lookup str_discrete path (rule_set by_length rules).exact_paths ≡ exact_of path rules
unfolding rule_set finalize lookup
exact_of-rule_set by_length rules path = exact_paths-add_rules path rules no_rules

prefixes_of-rule_set :
    (by_length : LengthSort) (rules : Rules)
    → (rule_set by_length rules).prefix_paths ≡ by_length.sort (prefixes_of rules)
unfolding rule_set finalize
prefixes_of-rule_set by_length rules = ap by_length.sort (prefix_paths-add_rules rules no_rules)

match_path_lem :
    (set : PathRuleSet) (path : Str)
    → match_path set path
      ≡ or_else (lookup str_discrete path set.exact_paths) (scan path set.prefix_paths)
unfolding match_path
match_path_lem set path = elim (Option-cases (lookup str_discrete path set.exact_paths)) [
  | inl e ↦ rw (e, match_path)
  | inr (n, e) ↦ rw (e, match_path)
]

match_path-rule_set :
    (by_length : LengthSort) (rules : Rules) (path : Str)
    → match_path (rule_set by_length rules) path
      ≡ or_else (exact_of path rules) (scan path (by_length.sort (prefixes_of rules)))
match_path-rule_set by_length rules path =
    match_path_lem (rule_set by_length rules) path
    ∙ ap₂ or_else (exact_of-rule_set by_length rules path)
        (ap (scan path) (prefixes_of-rule_set by_length rules))

-- The match for a path is a rule that applies, and no rule that applies beats it: an exact path goes
-- before prefixes, and a longer prefix before a shorter one.
pub match_path-best :
    (by_length : LengthSort) (rules : Rules) (path name : Str)
    → match_path (rule_set by_length rules) path ≡ some name
    → (r : PathMatcher) × Listed (r, name) rules
      × (applies path r ≡ true)
      × All (λ q. (applies path q.0 && beats q.0 r) ≡ false) rules
match_path-best by_length rules path name found =
    let sorted = by_length.sort (prefixes_of rules) in
    let found' = sym (match_path-rule_set by_length rules path) ∙ found in
    elim (Option-cases (exact_of path rules)) [
      | inr (n, here) ↦ (
        exact_path path,
        exact_of-Listed path name rules (here ∙ (rw here at found')),
        rw (if_pos (str_discrete path path) refl),
        All-of rules (λ q. and_false (applies path q.0) _ (beats-exact_path path q.0)),
      )
      | inl missing ↦
          let (r, listed, starts, named, best) =
            scan_lem path name sorted (by_length.sorts (prefixes_of rules))
              (rw missing at found') in
          let kept =
            prefixes_of-Listed r rules ((by_length.keeps r (prefixes_of rules)).0 listed) in
          (
            prefix_path r.prefix,
            subst (λ (x : Str). Listed (prefix_path r.prefix, x) rules) named kept,
            starts,
            rules_best path r.prefix rules missing (λ q l.
                All-Listed
                  (λ (x : PrefixRule).
                    (starts_with path x.prefix && ltb (length r.prefix) (length x.prefix)) ≡ false)
                  best ((by_length.keeps q (prefixes_of rules)).1 l)),
          )
    ]

scan-none :
    (path : Str) (rs : List PrefixRule)
    → scan path rs ≡ none
    → All (λ r. starts_with path r.prefix ≡ false) rs
unfolding scan
scan-none path [] missing = tt
scan-none path (r ∷ rs) missing = elim (Bool-cases (starts_with path r.prefix)) [
  | inl here ↦ absurd (none-some r.service_name (sym missing ∙ rw here))
  | inr there ↦ (there, scan-none path rs (rw there at missing))
]

rules-none :
    (path : Str) (rules : Rules)
    → exact_of path rules ≡ none
    → ((q : PrefixRule) → Listed q (prefixes_of rules) → starts_with path q.prefix ≡ false)
    → All (λ q. applies path q.0 ≡ false) rules
rules-none path [] missing none_starts = tt
rules-none path ((exact_path w, n) ∷ rules) missing none_starts = elim (str_discrete w path) [
  | yes p ↦ absurd (none-some n (sym missing ∙ rw (if_pos _ p)))
  | no ne ↦ (rw (if_neg _ ne), rules-none path rules (rw (if_neg _ ne) at missing) none_starts)
]
rules-none path ((prefix_path w, n) ∷ rules) missing none_starts = (
  none_starts (record { prefix = w; service_name = n }) first,
  rules-none path rules missing (λ q l. none_starts q (later l)),
)

-- No match for a path means that no rule applies to it.
pub match_path-none :
    (by_length : LengthSort) (rules : Rules) (path : Str)
    → match_path (rule_set by_length rules) path ≡ none
    → All (λ q. applies path q.0 ≡ false) rules
match_path-none by_length rules path missing =
    let sorted = by_length.sort (prefixes_of rules) in
    let missing' = sym (match_path-rule_set by_length rules path) ∙ missing in
    elim (Option-cases (exact_of path rules)) [
      | inr (n, here) ↦ absurd (none-some n (sym missing' ∙ rw here))
      | inl none_exact ↦
          let scanned = scan-none path sorted (rw none_exact at missing') in
          rules-none path rules none_exact (λ q l.
            All-Listed (λ (x : PrefixRule). starts_with path x.prefix ≡ false) scanned
              ((by_length.keeps q (prefixes_of rules)).1 l))
    ]
