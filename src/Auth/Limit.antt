-- ===== src/Auth/Limit.antt =====
-- app/modules/auth/router.py: the rate limit in front of a login.
use tenantflow_api.Prelude.{
  ℕ, ◌≡◌, refl, String, false, some, List, [], ◌∷◌, str_eq, str_eq_refl, str_eq→eq, arith,
  Bool-cases, inl, inr,
}
use tenantflow_api.Core.Errors.{Error, err}
use tenantflow_api.Db.Session.{Platform, World, request, ◌>>=◌}
use tenantflow_api.Infra.RateLimit.{Bucket, run_script}
use tenantflow_api.Auth.Router.{find_bucket, put_bucket, limit_login, issue_login_tokens, login}

find-put :
    (k : String) (b : Bucket) (bs : List (String × Bucket))
    → find_bucket k (put_bucket k b bs) ≡ some b
unfolding find_bucket put_bucket
find-put k b [] = rw (str_eq_refl k) refl
find-put k b ((j, c) ∷ bs) = elim (Bool-cases (str_eq j k)) [
  | inl y ↦ rw y (rw (str_eq_refl k) refl)
  | inr n ↦ rw n (rw n (find-put k b bs))
]

find-put_other :
    (k o : String) (b : Bucket) (bs : List (String × Bucket))
    → str_eq k o ≡ false
    → find_bucket o (put_bucket k b bs) ≡ find_bucket o bs
unfolding find_bucket put_bucket
find-put_other k o b [] h = rw h refl
find-put_other k o b ((j, c) ∷ bs) h = elim (Bool-cases (str_eq j k)) [
  | inl y ↦ rw y (let e = str_eq→eq j k y in rw e (rw h refl))
  | inr n ↦ rw n (let t = find-put_other k o b bs h in ground arith)
]

-- A login from an address whose bucket is empty is refused with a 429 and the seconds to wait,
-- whatever the credentials; it writes nothing to the database, its bucket is kept although the
-- request is rolled back, and the bucket of another address is as it was.
pub login_refused :
    ⦃p : Platform⦄
    → (client_ip other : String) (now_ms : ℕ) (email password : String) (w : World)
    → (run_script p.lua 10 60000 now_ms (find_bucket client_ip w.buckets)).1.allowed ≡ false
    → str_eq client_ip other ≡ false
    → let (bucket, result) = run_script p.lua 10 60000 now_ms (find_bucket client_ip w.buckets) in
      let (r, v) = request (login client_ip now_ms email password) w in
      (r ≡ err (Error.http 429 "Too many login attempts" (some result.retry_after)))
      × (v.db ≡ w.db)
      × (find_bucket client_ip v.buckets ≡ some bucket)
      × (find_bucket other v.buckets ≡ find_bucket other w.buckets)
unfolding request login issue_login_tokens limit_login ◌>>=◌
login_refused ⦃p = p⦄ client_ip other now_ms email password w denied differs =
    let (bucket, result) = run_script p.lua 10 60000 now_ms (find_bucket client_ip w.buckets) in
    rw denied (
      refl,
      refl,
      find-put client_ip bucket w.buckets,
      find-put_other client_ip other bucket w.buckets differs,
    )
