-- ===== src/Services/ExactPaths.antt =====
-- ServiceMatcher::allExactPaths. The set of the paths seen holds what the result holds, and is not
-- kept apart.
use moq_testbed.Prelude.{
  ◌≡◌, ◌≢◌, refl, sym, subst, if_pos, if_neg, ap, ◌∙◌, Bool, true, false, ◌||◌, List, [], ◌∷◌, ◌++◌,
  if◌then◌else◌, Bool-cases, inl, inr, arith,
}
use moq_testbed.Prelude.Assoc.{keys, contains}
use moq_testbed.Services.Rules.{Str, str_discrete, PathRuleSet}
use moq_testbed.Services.Matcher.{ServiceMatcher}

-- The lambda `collect`.
unfoldable pub collect : List Str → List Str → List Str
unfolding contains str_discrete
collect [] result = result
collect (path ∷ paths) result =
    let skip = collect paths result in
    let add = collect paths (result ++ path ∷ []) in
    if contains str_discrete path result then skip else add

unfoldable pub collect_each : List (Str × PathRuleSet) → List Str → List Str
unfolding collect
collect_each [] result = result
collect_each ((key, rules) ∷ rest) result =
    collect_each rest (collect (keys rules.exact_paths) result)

unfoldable pub all_exact_paths : ServiceMatcher → List Str
unfolding collect_each collect
all_exact_paths m =
    collect (keys m.any_authority_rules.exact_paths)
      (collect_each m.wildcard_authority_rules (collect_each m.exact_authority_rules []))

-- Has a table a rule for exactly this path?
abbrev pub has_exact : Str → List (Str × PathRuleSet) → Bool
has_exact path [] = false
has_exact path ((key, rules) ∷ rest) =
    contains str_discrete path (keys rules.exact_paths) || has_exact path rest

abbrev pub IsDistinct : List Str → Type 0
IsDistinct [] = Unit {0}
IsDistinct (p ∷ ps) = (contains str_discrete p ps ≡ false) × IsDistinct ps

contains-append :
    (p : Str) (xs ys : List Str)
    → contains str_discrete p (xs ++ ys)
      ≡ (contains str_discrete p xs || contains str_discrete p ys)
unfolding contains
contains-append p [] ys = refl
contains-append p (x ∷ xs) ys = ground (arith, contains-append p xs ys)

contains-collect :
    (p : Str) (paths result : List Str)
    → contains str_discrete p (collect paths result)
      ≡ (contains str_discrete p result || contains str_discrete p paths)
unfolding collect contains
contains-collect p [] result = ground arith
contains-collect p (x ∷ paths) result = elim (Bool-cases (contains str_discrete x result)) [
  | inl old ↦ elim (str_discrete x p) [
    | yes e ↦
        let hit : contains str_discrete p result ≡ true =
          subst (λ (q : Str). contains str_discrete q result ≡ true) e old in
        rw old (contains-collect p paths result ∙ rw hit)
    | no ne ↦ rw (old, if_neg (str_discrete x p) ne) (contains-collect p paths result)
  ]
  | inr new ↦ rw new (
      contains-collect p paths (result ++ x ∷ [])
      ∙ ground (arith, contains-append p result (x ∷ [])))
]

contains-collect_each :
    (p : Str) (table : List (Str × PathRuleSet)) (result : List Str)
    → contains str_discrete p (collect_each table result)
      ≡ (contains str_discrete p result || has_exact p table)
unfolding collect_each
contains-collect_each p [] result = ground arith
contains-collect_each p ((key, rules) ∷ rest) result =
    contains-collect_each p rest (collect (keys rules.exact_paths) result)
    ∙ ground (arith, contains-collect p (keys rules.exact_paths) result)

true-false : true ≢ false
true-false h = cc

append-IsDistinct :
    (p : Str) (xs : List Str)
    → contains str_discrete p xs ≡ false
    → IsDistinct xs
    → IsDistinct (xs ++ p ∷ [])
unfolding contains
append-IsDistinct p [] new d = (refl, tt)
append-IsDistinct p (x ∷ xs) new d = elim (str_discrete x p) [
  | yes e ↦ absurd (true-false (sym (rw (if_pos (str_discrete x p) e)) ∙ new))
  | no ne ↦ (
    contains-append x xs (p ∷ []) ∙ rw (d.0, if_neg (str_discrete p x) (λ e. ne (sym e))) refl,
    append-IsDistinct p xs (rw (if_neg (str_discrete x p) ne) at new) d.1,
  )
]

collect-IsDistinct :
    (paths result : List Str) → IsDistinct result → IsDistinct (collect paths result)
unfolding collect
collect-IsDistinct [] result d = d
collect-IsDistinct (x ∷ paths) result d = elim (Bool-cases (contains str_discrete x result)) [
  | inl old ↦ rw old (collect-IsDistinct paths result d)
  | inr new ↦
      rw new (collect-IsDistinct paths (result ++ x ∷ []) (append-IsDistinct x result new d))
]

collect_each-IsDistinct :
    (table : List (Str × PathRuleSet)) (result : List Str)
    → IsDistinct result
    → IsDistinct (collect_each table result)
unfolding collect_each
collect_each-IsDistinct [] result d = d
collect_each-IsDistinct ((key, rules) ∷ rest) result d =
    collect_each-IsDistinct rest (collect (keys rules.exact_paths) result)
      (collect-IsDistinct (keys rules.exact_paths) result d)

-- The result has no path twice, and it has a path exactly if one of the three tables has a rule for
-- exactly that path.
pub all_exact_paths_lem :
    (m : ServiceMatcher) (path : Str)
    → IsDistinct (all_exact_paths m)
      × (contains str_discrete path (all_exact_paths m) ≡ (
          (has_exact path m.exact_authority_rules || has_exact path m.wildcard_authority_rules)
          || contains str_discrete path (keys m.any_authority_rules.exact_paths)))
unfolding all_exact_paths contains
all_exact_paths_lem m path =
    let one = collect_each m.exact_authority_rules [] in
    let two = collect_each m.wildcard_authority_rules one in
    let any = keys m.any_authority_rules.exact_paths in
    (
      collect-IsDistinct any two (
          collect_each-IsDistinct m.wildcard_authority_rules one
            (collect_each-IsDistinct m.exact_authority_rules [] tt)),
      contains-collect path any two
          ∙ ap (λ b. b || contains str_discrete path any)
              (contains-collect_each path m.wildcard_authority_rules one
                ∙ ap (λ b. b || has_exact path m.wildcard_authority_rules)
                    (contains-collect_each path m.exact_authority_rules [])),
    )
