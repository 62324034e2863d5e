-- ===== src/Flagd/RetryCounter.antt =====
-- providers/flagd/pkg/service/rpc/retryCounter.go. A delay is a 64-bit word of nanoseconds in two's
-- complement.
use go_sdk_contrib.Common.{ℕ, ◌+◌, ◌*◌, ◌%◌, ◌^◌, Bool, leb}

abbrev pub default_delay : ℕ
default_delay = 1000000000

abbrev pub factor : ℕ
factor = 2

-- The limit is not negative, and the counters stay far from 2 ^ 63.
pub record RetryCounter : Type 0 where
  pub base_retry_delay : ℕ
  pub max_retries : ℕ
  pub current_delay : ℕ
  pub current_retries : ℕ

unfoldable pub new_retry_counter : ℕ → RetryCounter
new_retry_counter max_retries = record {
  base_retry_delay = default_delay;
  max_retries = max_retries;
  current_delay = 0;
  current_retries = 0;
}

unfoldable pub reset : RetryCounter → RetryCounter
reset c = record c { current_delay = default_delay; current_retries = 0 }

unfoldable pub retry : RetryCounter → RetryCounter × Bool
retry c = (
  record c { current_retries = c.current_retries + 1 },
  leb (c.current_retries + 1) c.max_retries,
)

unfoldable pub sleep : RetryCounter → RetryCounter × ℕ
sleep c = (record c { current_delay = (factor * c.current_delay) % 2 ^ 64 }, c.current_delay)
