-- ===== src/Services/RuleList.antt =====
-- PathRuleSet as made from a list of rules, and the scan of its prefixes.
use moq_testbed.Prelude.{
  ℕ, ◌≤◌, ◌≡◌, refl, sym, ◌∙◌, Bool, true, false, ◌&&◌, Option, none, some, List, [], ◌∷◌, ◌++◌,
  lookup, length, ltb, ite, Bool-cases, inl, inr, arith,
}
use mathlib.Core.List.{append-nil, append_assoc}
use moq_testbed.Prelude.Assoc.{emplace}
use moq_testbed.Services.Rules.{
  Str, str_discrete, PathMatcher, exact_path, prefix_path, PrefixRule, Listed, first, later, All,
  LongestFirst, LengthSort, PathRuleSet, no_rules, add_rule, finalize, starts_with, scan,
}

abbrev pub Rules : Type 0
Rules = List (PathMatcher × Str)

-- The rules added in turn, and then sorted.
unfoldable pub add_rules : Rules → PathRuleSet → PathRuleSet
unfolding add_rule
add_rules [] set = set
add_rules ((path, name) ∷ rules) set = add_rules rules (add_rule path name set)

unfoldable pub rule_set : LengthSort → Rules → PathRuleSet
unfolding finalize add_rules
rule_set by_length rules = finalize by_length (add_rules rules no_rules)

abbrev pub applies : Str → PathMatcher → Bool
applies path (exact_path v) = ite (str_discrete v path) true false
applies path (prefix_path v) = starts_with path v

-- An exact path goes before a prefix, and a longer prefix before a shorter one.
abbrev pub beats : PathMatcher → PathMatcher → Bool
beats (exact_path v) (exact_path w) = false
beats (exact_path v) (prefix_path w) = true
beats (prefix_path v) (exact_path w) = false
beats (prefix_path v) (prefix_path w) = ltb (length w) (length v)

abbrev pub exact_of : Str → Rules → Option Str
exact_of path [] = none
exact_of path ((exact_path v, name) ∷ rules) =
    ite (str_discrete v path) (some name) (exact_of path rules)
exact_of path ((prefix_path v, name) ∷ rules) = exact_of path rules

abbrev pub prefixes_of : Rules → List PrefixRule
prefixes_of [] = []
prefixes_of ((exact_path v, name) ∷ rules) = prefixes_of rules
prefixes_of ((prefix_path v, name) ∷ rules) =
    record { prefix = v; service_name = name } ∷ prefixes_of rules

abbrev pub or_else : {A : Type 0} → Option A → Option A → Option A
or_else none b = b
or_else (some a) b = some a

lookup-emplace_lem :
    (v path name : Str) (m : List (Str × Str))
    → lookup str_discrete path (emplace str_discrete v name m)
      ≡ or_else (lookup str_discrete path m) (ite (str_discrete v path) (some name) none)
unfolding lookup emplace
lookup-emplace_lem v path name [] = ground arith
lookup-emplace_lem v path name ((k, w) ∷ m) = ground (arith, lookup-emplace_lem v path name m)

or_else-none : {A : Type 0} (a : Option A) → a ≡ or_else a none
or_else-none none = refl
or_else-none (some a) = refl

or_else_assoc : {A : Type 0} (a b c : Option A) → or_else (or_else a b) c ≡ or_else a (or_else b c)
or_else_assoc none b c = refl
or_else_assoc (some a) b c = refl

or_else-ite :
    {A P : Type 0} (d : Dec P) (a : A) (c : Option A)
    → or_else (ite d (some a) none) c ≡ ite d (some a) c
or_else-ite (yes p) a c = refl
or_else-ite (no n) a c = refl

pub exact_paths-add_rules :
    (path : Str) (rules : Rules) (set : PathRuleSet)
    → lookup str_discrete path (add_rules rules set).exact_paths
      ≡ or_else (lookup str_discrete path set.exact_paths) (exact_of path rules)
unfolding add_rules add_rule
exact_paths-add_rules path [] set = or_else-none (lookup str_discrete path set.exact_paths)
exact_paths-add_rules path ((exact_path v, name) ∷ rules) set =
    exact_paths-add_rules path rules (add_rule (exact_path v) name set)
    ∙ rw (lookup-emplace_lem v path name set.exact_paths, or_else_assoc, or_else-ite)
exact_paths-add_rules path ((prefix_path v, name) ∷ rules) set =
    exact_paths-add_rules path rules (add_rule (prefix_path v) name set)

pub prefix_paths-add_rules :
    (rules : Rules) (set : PathRuleSet)
    → (add_rules rules set).prefix_paths ≡ set.prefix_paths ++ prefixes_of rules
unfolding add_rules add_rule
prefix_paths-add_rules [] set = sym (append-nil set.prefix_paths)
prefix_paths-add_rules ((exact_path v, name) ∷ rules) set =
    prefix_paths-add_rules rules (add_rule (exact_path v) name set)
prefix_paths-add_rules ((prefix_path v, name) ∷ rules) set =
    prefix_paths-add_rules rules (add_rule (prefix_path v) name set)
    ∙ append_assoc set.prefix_paths (record { prefix = v; service_name = name } ∷ [])
        (prefixes_of rules)

All-weaken :
    {A : Type 0} {P Q : A → Type 0} (xs : List A) → ((x : A) → P x → Q x) → All P xs → All Q xs
All-weaken [] f h = tt
All-weaken (x ∷ xs) f h = (f x h.0, All-weaken xs f h.1)

pub some_inj : {A : Type 0} {a b : A} → some a ≡ some b → a ≡ b
some_inj h = cc

pub and_false : (a b : Bool) → b ≡ false → (a && b) ≡ false
and_false a b h = ground arith

not_longer : (m n : ℕ) → n ≤ m → ltb m n ≡ false
not_longer m n h = ground arith

-- What the scan finds is the first that applies.
pub scan_lem :
    (path name : Str) (rs : List PrefixRule)
    → LongestFirst rs
    → scan path rs ≡ some name
    → (r : PrefixRule) × Listed r rs
      × (starts_with path r.prefix ≡ true)
      × (r.service_name ≡ name)
      × All (λ q. (starts_with path q.prefix && ltb (length r.prefix) (length q.prefix)) ≡ false) rs
unfolding scan
scan_lem path name [] sorted found = cc
scan_lem path name (r ∷ rs) sorted found = elim (Bool-cases (starts_with path r.prefix)) [
  | inl here ↦ (
    r,
    first,
    here,
    some_inj (sym (rw here) ∙ found),
    (
      and_false (starts_with path r.prefix) _
          (not_longer (length r.prefix) (length r.prefix) (omega arith)),
      All-weaken rs (λ q shorter. and_false (starts_with path q.prefix) _ (not_longer _ _ shorter))
          sorted.0,
    ),
  )
  | inr there ↦
      let (q, listed, starts, named, best) = scan_lem path name rs sorted.1 (rw there at found) in
      (q, later listed, starts, named, (ground (arith, there), best))
]
