-- ===== src/Infra/RateLimit.antt =====
-- app/infra/rate_limit.py: the token bucket of RATE_LIMIT_LUA. The script counts tokens in the numbers
-- of Redis's Lua, whose rounded operations are a parameter: a number is written in units so small that
-- each is a multiple of them, `tonumber` multiplies by the units of one, and what is not rounded (>=,
-- math.min, math.floor, math.ceil, whole numbers) is that of ℕ. The expiry of an idle key (PEXPIRE,
-- after which the bucket is full anyway) is left out.
pub mod Bounds
use tenantflow_api.Prelude.{
  ℕ, ◌+◌, ◌-◌, ◌*◌, ◌/◌, min, Bool, true, false, Option, none, some, leb, ◌==◌, ◌||◌, if◌then◌else◌,
}
use tenantflow_api.Core.Errors.{Result, ok, err, Error}

pub record Bucket : Type 0 where
  pub tokens : ℕ
  pub updated_at_ms : ℕ

pub record RateLimitResult : Type 0 where
  pub allowed : Bool
  pub remaining : ℕ
  pub retry_after : ℕ

-- math.ceil(a / b)
abbrev pub ceil_div : ℕ → ℕ → ℕ
ceil_div a b = (a + b - 1) / b

-- The nonnegative numbers of Lua, in units of which `one` make 1. The operations round.
pub record LuaNumbers : Type 0 where
  pub one : ℕ
  pub add : ℕ → ℕ → ℕ
  pub subtract : ℕ → ℕ → ℕ
  pub multiply : ℕ → ℕ → ℕ
  pub divide : ℕ → ℕ → ℕ

module _ (lua : LuaNumbers) where
  -- tonumber(n)
  abbrev pub number : ℕ → ℕ
  number n = n * lua.one

  -- a key that Redis does not hold starts full
  unfoldable pub load_bucket : ℕ → ℕ → Option Bucket → Bucket
  load_bucket capacity now_ms none = record { tokens = number capacity; updated_at_ms = now_ms }
  load_bucket capacity now_ms (some b) = b

  -- refill_per_ms
  unfoldable pub refill_rate : ℕ → ℕ → ℕ
  refill_rate capacity window_ms = lua.divide (number capacity) (number window_ms)

  -- `-` on ℕ stops at 0, as `math.max(0, now_ms - updated_at_ms)` does
  unfoldable pub refill : ℕ → ℕ → ℕ → Bucket → ℕ
  refill capacity refill_per_ms now_ms b =
      min (number capacity)
        (lua.add b.tokens (lua.multiply (number (now_ms - b.updated_at_ms)) refill_per_ms))

  -- math.ceil((1 - tokens) / refill_per_ms / 1000)
  unfoldable pub wait_seconds : ℕ → ℕ → ℕ
  wait_seconds refill_per_ms tokens =
      ceil_div (lua.divide (lua.divide (lua.subtract lua.one tokens) refill_per_ms) (number 1000))
        lua.one

  -- the test `tokens >= 1`, and what the script writes and returns
  unfoldable pub take_token : ℕ → ℕ → ℕ → Bucket × RateLimitResult
  unfolding wait_seconds
  take_token refill_per_ms now_ms tokens =
      if leb lua.one tokens
      then (
        record { tokens = lua.subtract tokens lua.one; updated_at_ms = now_ms },
        record {
          allowed = true;
          remaining = lua.subtract tokens lua.one / lua.one;
          retry_after = 0;
        },
      )
      else (
        record { tokens = tokens; updated_at_ms = now_ms },
        record {
          allowed = false;
          remaining = tokens / lua.one;
          retry_after = wait_seconds refill_per_ms tokens;
        },
      )

  unfoldable pub run_script : ℕ → ℕ → ℕ → Option Bucket → Bucket × RateLimitResult
  unfolding load_bucket refill_rate refill take_token
  run_script capacity window_ms now_ms state =
      let refill_per_ms = refill_rate capacity window_ms in
      take_token refill_per_ms now_ms
        (refill capacity refill_per_ms now_ms (load_bucket capacity now_ms state))

  unfoldable pub check_rate_limit : ℕ → ℕ → ℕ → Option Bucket → Result (Bucket × RateLimitResult)
  unfolding run_script
  check_rate_limit limit window_seconds now_ms state =
      if limit == 0 || window_seconds == 0
      then err (Error.value_error "Rate-limit capacity and window must be positive")
      else ok (run_script limit (window_seconds * 1000) now_ms state)
