-- ===== src/Flagd/Backoff.antt =====
-- The retries and delays of providers/flagd/pkg/service/rpc/retryCounter.go.
use native.Mathlib.Nat.{pow-le-pow_right, pow-suc}
use go_sdk_contrib.Common.{ℕ, zero, suc, ◌+◌, ◌*◌, ◌^◌, ◌<◌, ◌≡◌, ◌↔◌, refl, true, arith}
use go_sdk_contrib.Flagd.RetryCounter.{
  RetryCounter, default_delay, new_retry_counter, reset, retry, sleep,
}

-- the counter after `n` calls of sleep
abbrev pub slept : ℕ → RetryCounter → RetryCounter
slept zero c = c
slept (suc n) c = (sleep (slept n c)).0

-- the counter after `n` calls of retry
abbrev pub retried : ℕ → RetryCounter → RetryCounter
retried zero c = c
retried (suc n) c = (retry (retried n c)).0

retried-current :
    (n : ℕ) (c : RetryCounter)
    → ((retried n c).current_retries ≡ c.current_retries + n)
      × ((retried n c).max_retries ≡ c.max_retries)
unfolding retry
retried-current zero c = (omega arith, refl)
retried-current (suc n) c = (omega (arith, retried-current n c), (retried-current n c).1)

-- After a reset, or from the start, exactly as many retries are allowed as the limit says: the call
-- after `n` others answers true exactly if `n` is less than the limit.
retry-limit :
    (n : ℕ) (c : RetryCounter)
    → (((retry (retried n (reset c))).1 ≡ true) ↔ (n < c.max_retries))
      × (((retry (retried n (new_retry_counter c.max_retries))).1 ≡ true) ↔ (n < c.max_retries))
unfolding retry reset new_retry_counter
retry-limit n c =
    let after_reset = retried-current n (reset c) in
    let from_start = retried-current n (new_retry_counter c.max_retries) in
    (
      (λ h. ground (arith, after_reset), λ h. ground (arith, after_reset)),
      (λ h. ground (arith, from_start), λ h. ground (arith, from_start)),
    )

-- A counter that was never reset returns the delay 0 at every call of sleep.
sleep-fresh : (n m : ℕ) → (sleep (slept n (new_retry_counter m))).1 ≡ 0
unfolding sleep new_retry_counter
sleep-fresh zero m = refl
sleep-fresh (suc n) m = omega (arith, sleep-fresh n m)

-- After a reset the delays double from one second, without overflow for the first 34 calls.
sleep-doubles :
    (n : ℕ) (c : RetryCounter) → n < 34 → (sleep (slept n (reset c))).1 ≡ default_delay * 2 ^ n
unfolding sleep reset
sleep-doubles zero c h = refl
sleep-doubles (suc n) c h = omega (
  arith,
  sleep-doubles n c (omega arith),
  pow-le-pow_right {n = 2} (omega arith) {i = n} {j = 32} (omega arith),
  pow-suc 2 n,
)
