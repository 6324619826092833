-- ===== src/Infra/RateLimit/Bounds.antt =====
-- app/infra/rate_limit.py: what a run of requests can take from a bucket.
use tenantflow_api.Prelude.{
  ℕ, ◌+◌, ◌-◌, ◌*◌, ◌≤◌, ◌≡◌, refl, sym, subst, Bool-cases, inl, inr, some, List, [], ◌∷◌, leb,
  if◌then◌else◌, arith, ⊤, min, length,
}
use tenantflow_api.Infra.RateLimit.{
  LuaNumbers, Bucket, RateLimitResult, number, load_bucket, refill_rate, refill, take_token,
  run_script,
}

-- one for a request that is let through
abbrev pub admitted : RateLimitResult → ℕ
admitted r = if r.allowed then 1 else 0

-- the times do not go back, from `now_ms` on
abbrev pub Ascending : ℕ → List ℕ → Type 0
Ascending now_ms [] = ⊤
Ascending now_ms (t ∷ ts) = (now_ms ≤ t) × Ascending t ts

-- Rounding, of numbers up to `limit`: a result is at most by `error` above the exact one. A double
-- rounds to the nearest, so that of numbers up to `limit` is by at most 2 ^ -53 of the limit.
pub record IsRounded (lua : LuaNumbers) (limit error : ℕ) : Type 0 where
  pub add : (a b : ℕ) → a + b ≤ limit → lua.add a b ≤ a + b + error
  pub multiply : (k b : ℕ) → k * b ≤ limit → lua.multiply (k * lua.one) b ≤ k * b + error
  pub subtract : (a : ℕ) → lua.one ≤ a → a ≤ limit → lua.subtract a lua.one + lua.one ≤ a + error
  pub small : error ≤ lua.one

elapsed_lem : (u t c : ℕ) → u ≤ t → (t - u) * c + u * c ≡ t * c
elapsed_lem u t c h = grind arith

module _ (lua : LuaNumbers) where
  -- the requests of one key, at these times: how many are let through, and the bucket at the end
  unfoldable pub run_requests : ℕ → ℕ → List ℕ → Bucket → ℕ × Bucket
  unfolding run_script
  run_requests capacity window_ms [] b = (0, b)
  run_requests capacity window_ms (t ∷ ts) b =
      let (b1, r) = run_script lua capacity window_ms t (some b) in
      let (n, last) = run_requests capacity window_ms ts b1 in (admitted r + n, last)

  capped_lem :
      (limit a b s product e : ℕ)
      → (b ≤ limit → product ≤ b + e)
      → (a + product ≤ limit → s ≤ a + product + e)
      → min limit s ≤ a + b + 2 * e
  capped_lem limit a b s product e h k = elim (Bool-cases (leb b limit)) [
    | inl y ↦ elim (Bool-cases (leb (a + product) limit)) [
      | inl z ↦ ground arith
      | inr z ↦ ground arith
    ]
    | inr y ↦ ground arith
  ]

  refilled_lem :
      (c r t e : ℕ) (b : Bucket)
      → IsRounded lua (number lua c) e
      → (refill lua c r t b ≤ b.tokens + (t - b.updated_at_ms) * r + 2 * e)
        × (refill lua c r t b ≤ number lua c)
  unfolding refill
  refilled_lem c r t e b law = (
    capped_lem (number lua c) b.tokens ((t - b.updated_at_ms) * r) _ _ e
        (law.multiply (t - b.updated_at_ms) r) (law.add b.tokens _),
    omega arith,
  )

  taken_lem :
      (c r t e n : ℕ)
      → IsRounded lua (number lua c) e
      → n ≤ number lua c
      → let (b1, result) = take_token lua r t n in
        (admitted result * lua.one + b1.tokens ≤ n + e)
        × (b1.updated_at_ms ≡ t)
        × (b1.tokens ≤ number lua c)
  unfolding take_token
  taken_lem c r t e n law h = elim (Bool-cases (leb lua.one n)) [
    | inl y ↦
        let less = law.subtract n (ground arith) h in
        let small = law.small in rw y (ground arith, refl, ground arith)
    | inr y ↦ rw y (ground arith, refl, h)
  ]

  script_step :
      (c m t e : ℕ) (b : Bucket)
      → IsRounded lua (number lua c) e
      → b.updated_at_ms ≤ t
      → let rate = refill_rate lua c m in
        let (b1, r) = run_script lua c m t (some b) in
        (admitted r * lua.one + b1.tokens + b.updated_at_ms * rate ≤ b.tokens + t * rate + 3 * e)
        × (b1.updated_at_ms ≡ t)
        × (b1.tokens ≤ number lua c)
  unfolding run_script load_bucket
  script_step c m t e b law h =
      let rate = refill_rate lua c m in
      let elapsed = elapsed_lem b.updated_at_ms t rate h in
      let (refilled, full) = refilled_lem c rate t e b law in
      let (taken, time, left) = taken_lem c rate t e (refill lua c rate t b) law full in
      (omega arith, time, left)

  -- The requests of a key that are let through, each at the price of a token, take no more than the
  -- bucket holds at first and what it is refilled with until the last of the requests, at the rate
  -- that the script computes, and three roundings for each request, if the clock does not go back
  -- and no rounding of a number up to the capacity adds more than a given error, of a token at
  -- most; the bucket that is left is full at most if the first one was.
  pub run_requests-bound :
      (c m t e : ℕ) (ts : List ℕ) (b : Bucket)
      → IsRounded lua (number lua c) e
      → b.updated_at_ms ≡ t
      → Ascending t ts
      → let rate = refill_rate lua c m in
        let (n, last) = run_requests c m ts b in
        (n * lua.one + last.tokens + t * rate
          ≤ b.tokens + last.updated_at_ms * rate + length ts * (3 * e))
        × (b.tokens ≤ number lua c → last.tokens ≤ number lua c)
  unfolding run_requests
  run_requests-bound c m t e [] b law same h = ground arith
  run_requests-bound c m t e (s ∷ ts) b law same h =
      let x = run_script lua c m s (some b) in
      let one = script_step c m s e b law (subst (λ k. k ≤ s) (sym same) h.0) in
      let rest = run_requests-bound c m s e ts x.0 law one.1 h.1 in grind arith
