-- ===== src/Services/Gather.antt =====
-- The constructor: what it gathers in the three tables of a matcher.
use moq_testbed.Prelude.{
  ◌≡◌, refl, sym, ap, ◌∙◌, Bool, true, false, some, List, [], ◌∷◌, ite, if_pos, if_neg,
  if◌then◌else◌, Bool-cases, Option-cases, inl, inr,
}
use moq_testbed.Prelude.Assoc.{lookup-assign}
use moq_testbed.Services.Rules.{Str, str_discrete, PathMatcher, PathRuleSet, add_rule}
use moq_testbed.Services.Matcher.{
  Authority, exact_authority, wildcard_authority, any_authority, MatchEntry, ServiceMatcher,
  rules_at, add_at, add_entry, add_entries,
}
use moq_testbed.Services.RuleList.{Rules, add_rules, some_inj}
use moq_testbed.Services.Longest.{none-some}

-- The rules of the entries whose authority passes the test, in turn.
abbrev pub rules_for : (Authority → Bool) → List (Str × MatchEntry) → Rules
rules_for test [] = []
rules_for test ((name, entry) ∷ rest) = elim (test entry.authority) [
  | true ↦ (entry.path, name) ∷ rules_for test rest
  | false ↦ rules_for test rest
]

abbrev pub same : Str → Str → Bool
same a b = ite (str_discrete a b) true false

-- The entries for exactly this authority, for any label before this suffix, and for any authority.
abbrev pub is_exact : Str → Authority → Bool
is_exact authority (exact_authority value) = same value authority
is_exact authority (wildcard_authority pattern) = false
is_exact authority any_authority = false

abbrev pub is_wildcard : Str → Authority → Bool
is_wildcard suffix (exact_authority value) = false
is_wildcard suffix (wildcard_authority []) = false
is_wildcard suffix (wildcard_authority (c ∷ rest)) = same rest suffix
is_wildcard suffix any_authority = false

abbrev pub is_any : Authority → Bool
is_any (exact_authority value) = false
is_any (wildcard_authority pattern) = false
is_any any_authority = true

rules_at-add_at :
    (key at : Str) (path : PathMatcher) (name : Str) (rules : List (Str × PathRuleSet))
    → rules_at at (add_at key path name rules)
      ≡ ite (str_discrete key at) (add_rule path name (rules_at key rules)) (rules_at at rules)
unfolding rules_at add_at
rules_at-add_at key at path name rules = elim (str_discrete key at) [
  | yes p ↦ rw (lookup-assign, if_pos (str_discrete key at) p, if_pos (str_discrete key at) p)
  | no ne ↦ rw (lookup-assign, if_neg (str_discrete key at) ne, if_neg (str_discrete key at) ne)
]

-- A part of the matcher that an entry adds its rule to exactly if its authority passes the test.
abbrev pub Gathers : (ServiceMatcher → PathRuleSet) → (Authority → Bool) → Type 0
Gathers part test =
    (name : Str) (entry : MatchEntry) (m n : ServiceMatcher)
    → add_entry name entry m ≡ some n
    → part n ≡ (if test entry.authority then add_rule entry.path name (part m) else part m)

pub gathered :
    (part : ServiceMatcher → PathRuleSet) (test : Authority → Bool)
    → Gathers part test
    → (services : List (Str × MatchEntry)) (m n : ServiceMatcher) → add_entries services m ≡ some n
    → part n ≡ add_rules (rules_for test services) (part m)
unfolding add_entries add_rules
gathered part test g [] m n built = ap part (sym (some_inj built))
gathered part test g ((name, entry) ∷ rest) m n built =
    elim (Option-cases (add_entry name entry m)) [
      | inl thrown ↦ absurd (none-some n (sym (rw (thrown, add_entries)) ∙ built))
      | inr (m', added) ↦
          let later_on = gathered part test g rest m' n (sym (rw (added, add_entries)) ∙ built) in
          let now = g name entry m m' added in
          elim (Bool-cases (test entry.authority)) [
            | inl yes_it_is ↦
                rw (yes_it_is, add_rules)
                  (later_on ∙ ap (add_rules (rules_for test rest)) (rw yes_it_is at now))
            | inr no_it_is_not ↦
                rw (no_it_is_not, add_rules)
                  (later_on ∙ ap (add_rules (rules_for test rest)) (rw no_it_is_not at now))
          ]
    ]

-- An entry of one key, seen from another.
keyed :
    {v at : Str} (d : Dec (v ≡ at)) (f : Str → PathRuleSet) (path : PathMatcher) (name : Str)
    → ite d (add_rule path name (f v)) (f at)
      ≡ (if ite d true false then add_rule path name (f at) else f at)
keyed (yes p) f path name = ap (λ k. add_rule path name (f k)) p
keyed (no ne) f path name = refl

pub Gathers-is_exact :
    (authority : Str)
    → Gathers (λ m. rules_at authority m.exact_authority_rules) (is_exact authority)
unfolding add_entry
Gathers-is_exact authority name entry m n added = go entry.authority entry.path added
  where
    part : ServiceMatcher → PathRuleSet
    part x = rules_at authority x.exact_authority_rules

    go :
        (a : Authority) (path : PathMatcher)
        → add_entry name (record { authority = a; path = path }) m ≡ some n
        → part n ≡ (if is_exact authority a then add_rule path name (part m) else part m)
    go (exact_authority v) path added =
        ap part (sym (some_inj added))
        ∙ rules_at-add_at v authority path name m.exact_authority_rules
        ∙ keyed (str_discrete v authority) (λ k. rules_at k m.exact_authority_rules) path name
    go (wildcard_authority []) path added = absurd (none-some n added)
    go (wildcard_authority (c ∷ v)) path added = ap part (sym (some_inj added))
    go any_authority path added = ap part (sym (some_inj added))

pub Gathers-is_wildcard :
    (suffix : Str) → Gathers (λ m. rules_at suffix m.wildcard_authority_rules) (is_wildcard suffix)
unfolding add_entry
Gathers-is_wildcard suffix name entry m n added = go entry.authority entry.path added
  where
    part : ServiceMatcher → PathRuleSet
    part x = rules_at suffix x.wildcard_authority_rules

    go :
        (a : Authority) (path : PathMatcher)
        → add_entry name (record { authority = a; path = path }) m ≡ some n
        → part n ≡ (if is_wildcard suffix a then add_rule path name (part m) else part m)
    go (exact_authority v) path added = ap part (sym (some_inj added))
    go (wildcard_authority []) path added = absurd (none-some n added)
    go (wildcard_authority (c ∷ v)) path added =
        ap part (sym (some_inj added))
        ∙ rules_at-add_at v suffix path name m.wildcard_authority_rules
        ∙ keyed (str_discrete v suffix) (λ k. rules_at k m.wildcard_authority_rules) path name
    go any_authority path added = ap part (sym (some_inj added))

pub Gathers-is_any : Gathers (λ m. m.any_authority_rules) is_any
unfolding add_entry
Gathers-is_any name entry m n added = go entry.authority entry.path added
  where
    go :
        (a : Authority) (path : PathMatcher)
        → add_entry name (record { authority = a; path = path }) m ≡ some n
        → n.any_authority_rules
          ≡ (if is_any a then add_rule path name m.any_authority_rules else m.any_authority_rules)
    go (exact_authority v) path added = ap (λ x. x.any_authority_rules) (sym (some_inj added))
    go (wildcard_authority []) path added = absurd (none-some n added)
    go (wildcard_authority (c ∷ v)) path added =
        ap (λ x. x.any_authority_rules) (sym (some_inj added))
    go any_authority path added = ap (λ x. x.any_authority_rules) (sym (some_inj added))
