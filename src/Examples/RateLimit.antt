-- ===== src/Examples/RateLimit.antt =====
-- The token bucket at work: three requests a minute, and four at once.
use tenantflow_api.Prelude.{◌+◌, ◌*◌, ◌≤◌, ◌≡◌, refl, [], ◌∷◌, arith}
use tenantflow_api.Infra.RateLimit.{Bucket, number, refill_rate}
use tenantflow_api.Infra.RateLimit.Bounds.{IsRounded, run_requests, run_requests-bound}
use tenantflow_api.Examples.World.{lua}

abbrev full : Bucket
full = record { tokens = 180000; updated_at_ms = 1000 }

four_at_once : (run_requests lua 3 60000 (1000 ∷ 1000 ∷ 1000 ∷ 1000 ∷ 21000 ∷ []) full).0 ≡ 4
unfolding run_requests
four_at_once = refl

lua-IsRounded : IsRounded lua (number lua 3) 0
lua-IsRounded = record {
  add = λ a b h. omega arith;
  multiply = λ k b h. grind arith;
  subtract = λ a h k. omega arith;
  small = omega arith;
}

run_requests-bound_example :
    let (n, last) = run_requests lua 3 60000 (1000 ∷ 1000 ∷ 1000 ∷ 1000 ∷ 21000 ∷ []) full in
    (n * 60000 + last.tokens + 1000 * 3 ≤ 180000 + last.updated_at_ms * 3 + 5 * 0)
    × (180000 ≤ 3 * 60000 → last.tokens ≤ 3 * 60000)
unfolding refill_rate
run_requests-bound_example =
    run_requests-bound lua 3 60000 1000 0 (1000 ∷ 1000 ∷ 1000 ∷ 1000 ∷ 21000 ∷ []) full
      lua-IsRounded refl (ground arith)
