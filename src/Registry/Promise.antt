-- ===== src/Registry/Promise.antt =====
-- folly::coro::SharedPromise, which SubscriptionRegistry uses: fulfilled at most once, by a value or
-- an exception; a second time throws `PromiseAlreadySatisfied` (`none`).
use moq_testbed.Prelude.{◌≡◌, refl, Bool, true, false, Option, none, some}

pub record SharedPromise : Type 1 where
  pub Promise : Type 0
  pub make : Promise
  pub is_fulfilled : Promise → Bool
  pub set_value : Promise → Option Promise
  pub set_exception : Promise → Option Promise
  pub make_unfulfilled : is_fulfilled make ≡ false
  pub set_value_fulfils :
      (p : Promise)
      → is_fulfilled p ≡ false
      → (q : Promise) × (set_value p ≡ some q) × (is_fulfilled q ≡ true)
  pub set_exception_fulfils :
      (p : Promise)
      → is_fulfilled p ≡ false
      → (q : Promise) × (set_exception p ≡ some q) × (is_fulfilled q ≡ true)
  pub set_value_twice : (p : Promise) → is_fulfilled p ≡ true → set_value p ≡ none
  pub set_exception_twice : (p : Promise) → is_fulfilled p ≡ true → set_exception p ≡ none

-- A promise that only remembers whether it is fulfilled.
abbrev pub satisfy : Bool → Option Bool
satisfy true = none
satisfy false = some true

pub satisfy_once : (p : Bool) → p ≡ false → (q : Bool) × (satisfy p ≡ some q) × (q ≡ true)
satisfy_once p h = (true, rw h, refl)

pub satisfy_twice : (p : Bool) → p ≡ true → satisfy p ≡ none
satisfy_twice p h = rw h

abbrev pub flag_promise : SharedPromise
flag_promise = record {
  Promise = Bool;
  make = false;
  is_fulfilled = λ p. p;
  set_value = satisfy;
  set_exception = satisfy;
  make_unfulfilled = refl;
  set_value_fulfils = satisfy_once;
  set_exception_fulfils = satisfy_once;
  set_value_twice = satisfy_twice;
  set_exception_twice = satisfy_twice;
}
