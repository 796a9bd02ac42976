-- ===== src/Prelude/Assoc.antt =====
-- Hash maps as association lists, with the library's `lookup`, and hash sets as lists. The order of
-- a list stands for an iteration order, which the source leaves open: nothing relies on it.
use mathlib.Core.Path.{◌≡◌}
use mathlib.Core.Logic.{ite, inl, inr, if_pos, if_neg}
use mathlib.Core.Bool.{Bool, true, false}
use mathlib.Core.Option.{Option, none, some}
use mathlib.Core.List.{List, [], ◌∷◌, map, lookup}
use native.Mathlib.Omega.{arith}
use moq_testbed.Prelude.Tests.{if◌then◌else◌, Bool-cases}

abbrev pub is_some {ℓ} : {A : Type ℓ} → Option A → Bool
is_some none = false
is_some (some a) = true

abbrev pub value_or {ℓ} : {A : Type ℓ} → Option A → A → A
value_or none d = d
value_or (some a) d = a

module _ {ℓ} {K V : Type ℓ} where
  abbrev pub keys : List (K × V) → List K
  keys = map (λ e. e.0)

  abbrev pub values : List (K × V) → List V
  values = map (λ e. e.1)

module _ {ℓ} {K V : Type ℓ} (dec : Discrete K) where
  -- `m[k] = v`, `insert_or_assign`.
  unfoldable pub assign : K → V → List (K × V) → List (K × V)
  assign k v [] = (k, v) ∷ []
  assign k v ((j, w) ∷ m) = ite (dec j k) ((k, v) ∷ m) ((j, w) ∷ assign k v m)

  -- `emplace`, `try_emplace`: an entry that is there stays.
  unfoldable pub emplace : K → V → List (K × V) → List (K × V)
  emplace k v [] = (k, v) ∷ []
  emplace k v ((j, w) ∷ m) = ite (dec j k) ((j, w) ∷ m) ((j, w) ∷ emplace k v m)

  -- `erase(k)`.
  unfoldable pub erase_key : K → List (K × V) → List (K × V)
  erase_key k [] = []
  erase_key k ((j, w) ∷ m) = ite (dec j k) (erase_key k m) ((j, w) ∷ erase_key k m)

  pub lookup-assign :
      (k j : K) (v : V) (m : List (K × V))
      → lookup dec j (assign k v m) ≡ ite (dec k j) (some v) (lookup dec j m)
  unfolding assign lookup
  lookup-assign k j v [] = ground arith
  lookup-assign k j v ((i, w) ∷ m) = ground (arith, lookup-assign k j v m)

  pub lookup-erase_key :
      (k j : K) (m : List (K × V))
      → lookup dec j (erase_key k m) ≡ ite (dec k j) none (lookup dec j m)
  unfolding erase_key lookup
  lookup-erase_key k j [] = ground arith
  lookup-erase_key k j ((i, w) ∷ m) = ground (arith, lookup-erase_key k j m)

module _ {ℓ} {A : Type ℓ} (dec : Discrete A) where
  unfoldable pub contains : A → List A → Bool
  contains a [] = false
  contains a (x ∷ xs) = ite (dec x a) true (contains a xs)

  -- `insert` into a set.
  unfoldable pub set_insert : A → List A → List A
  unfolding contains
  set_insert a xs = if contains a xs then xs else a ∷ xs

  pub contains-set_insert :
      (a b : A) (xs : List A) → contains b (set_insert a xs) ≡ ite (dec a b) true (contains b xs)
  unfolding set_insert
  contains-set_insert a b xs = elim (Bool-cases (contains a xs)) [
    | inl old ↦
        rw old (elim (dec a b) [ yes e ↦ rw (if_pos _ e, ← e) old | no ne ↦ rw (if_neg _ ne) ])
    | inr new ↦ rw new
  ]
