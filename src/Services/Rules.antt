-- ===== src/Services/Rules.antt =====
-- ServiceMatcher::PathRuleSet, the rules of paths for one authority. A string is the list of its
-- bytes.
use moq_testbed.Prelude.{
  ℕ, ◌≤◌, ◌≡◌, ◌↔◌, refl, sym, ap₂, Bool, true, false, ◌&&◌, Option, none, some, List, [], ◌∷◌,
  ◌++◌, lookup, length, take, leb, ite, if◌then◌else◌, ℕ_discrete,
}
use moq_testbed.Prelude.Assoc.{emplace}
use mathlib.Core.List.{cons≢nil, head-eq_of_cons-eq, tail-eq_of_cons-eq}

abbrev pub Str : Type 0
Str = List ℕ

abbrev both : {x y : ℕ} {s t : Str} → Dec (x ≡ y) → Dec (s ≡ t) → Dec (Path Str (x ∷ s) (y ∷ t))
both (no n) d = no (λ e. n (head-eq_of_cons-eq e))
both (yes p) (no n) = no (λ e. n (tail-eq_of_cons-eq e))
both (yes p) (yes q) = yes (ap₂ (λ (c : ℕ) (u : Str). c ∷ u) p q)

unfoldable pub str_discrete : Discrete Str
unfolding ℕ_discrete
str_discrete [] [] = yes refl
str_discrete [] (y ∷ t) = no (λ e. cons≢nil (sym e))
str_discrete (x ∷ s) [] = no (λ e. cons≢nil e)
str_discrete (x ∷ s) (y ∷ t) = both (ℕ_discrete x y) (str_discrete s t)

pub data PathMatcher : Type 0 where
  exact_path prefix_path : Str → PathMatcher

pub record PrefixRule : Type 0 where
  pub prefix : Str
  pub service_name : Str

pub data Listed {A : Type 0} (a : A) : List A → Type 0 where
  first : {xs : List A} → Listed a (a ∷ xs)
  later : {x : A} {xs : List A} → Listed a xs → Listed a (x ∷ xs)

abbrev pub All : {A : Type 0} → (A → Type 0) → List A → Type 0
All P [] = Unit {0}
All P (x ∷ xs) = P x × All P xs

abbrev pub LongestFirst : List PrefixRule → Type 0
LongestFirst [] = Unit {0}
LongestFirst (r ∷ rs) = All (λ q. length q.prefix ≤ length r.prefix) rs × LongestFirst rs

-- `std::sort` by descending length of the prefix: it says nothing of the order of prefixes of one
-- length.
pub record LengthSort : Type 0 where
  pub sort : List PrefixRule → List PrefixRule
  pub sorts : (rs : List PrefixRule) → LongestFirst (sort rs)
  pub keeps : (r : PrefixRule) (rs : List PrefixRule) → Listed r (sort rs) ↔ Listed r rs

pub record PathRuleSet : Type 0 where
  pub exact_paths : List (Str × Str)
  pub prefix_paths : List PrefixRule

abbrev pub no_rules : PathRuleSet
no_rules = record { exact_paths = []; prefix_paths = [] }

unfoldable pub add_rule : PathMatcher → Str → PathRuleSet → PathRuleSet
unfolding emplace
add_rule (exact_path val) name set = record set {
  exact_paths = emplace str_discrete val name set.exact_paths;
}
add_rule (prefix_path val) name set = record set {
  prefix_paths = set.prefix_paths ++ record { prefix = val; service_name = name } ∷ [];
}

unfoldable pub finalize : LengthSort → PathRuleSet → PathRuleSet
finalize by_length set = record set { prefix_paths = by_length.sort set.prefix_paths }

unfoldable pub starts_with : Str → Str → Bool
starts_with path prefix =
    leb (length prefix) (length path)
    && ite (str_discrete (take (length prefix) path) prefix) true false

-- The scan of the prefix rules.
unfoldable pub scan : Str → List PrefixRule → Option Str
unfolding starts_with
scan path [] = none
scan path (rule ∷ rules) =
    let rest = scan path rules in
    if starts_with path rule.prefix then some rule.service_name else rest

unfoldable pub match_path : PathRuleSet → Str → Option Str
unfolding lookup scan
match_path set path = elim (lookup str_discrete path set.exact_paths) [
  | some name ↦ some name
  | none ↦ scan path set.prefix_paths
]
