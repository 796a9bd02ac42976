-- ===== src/Upstream/Backoff.antt =====
-- UpstreamProvider: the delays of `reconnectLoop`.
use moq_testbed.Prelude.{
  ℕ, zero, suc, ◌+◌, ◌*◌, ◌^◌, ◌≤◌, ◌<◌, ◌≡◌, sym, ◌∙◌, ap, min, Bool, false, some, List, ◌++◌,
  replicate, get_elem?, arith,
}
use native.Mathlib.Nat.{pow-suc}
use moq_testbed.Upstream.Connection.{next_backoff, reconnect_loop}

-- The delay before an attempt, by the number of failures before it.
abbrev pub delay : ℕ → ℕ
delay zero = 0
delay (suc n) = min (1000 * 2 ^ n) 60000

two_power : (n : ℕ) → 1 ≤ 2 ^ n
two_power zero = omega arith
two_power (suc n) = omega (arith, pow-suc 2 n, two_power n)

doubled : (a : ℕ) → 1 ≤ a → next_backoff (min (1000 * a) 60000) ≡ min (1000 * (a * 2)) 60000
doubled a h = ground (arith, h)

next_backoff-delay : (n : ℕ) → next_backoff (delay n) ≡ delay (suc n)
next_backoff-delay zero = ground arith
next_backoff-delay (suc n) =
    doubled (2 ^ n) (two_power n) ∙ ap (λ a. min (1000 * a) 60000) (sym (pow-suc 2 n))

-- A loop that starts with the delay after `start` failures waits, before its attempt after `i` more,
-- the delay after `start + i`: nothing, then 1 second, and twice as long each time, up to 60 seconds.
pub reconnect_loop-delay :
    (n i start : ℕ) (answers : List Bool)
    → i < n
    → get_elem? (reconnect_loop (replicate n false ++ answers) (delay start)) i
      ≡ some (delay (start + i))
unfolding reconnect_loop
reconnect_loop-delay zero i start answers h = absurd (omega arith)
reconnect_loop-delay (suc n) zero start answers h =
    let same : start ≡ start + 0 = omega arith in ap (λ k. some (delay k)) same
reconnect_loop-delay (suc n) (suc i) start answers h =
    let same : suc start + i ≡ start + suc i = omega arith in
    let next = reconnect_loop-delay n i (suc start) answers (omega arith) in
    ap (λ b. get_elem? (reconnect_loop (replicate n false ++ answers) b) i)
      (next_backoff-delay start)
    ∙ next
    ∙ ap (λ k. some (delay k)) same
