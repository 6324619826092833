-- ===== src/Files/Bucket.antt =====
-- scripts/init_minio.py: the script that makes the bucket, which waits for the storage to come up. boto3
-- is the arguments: what head_bucket answers to each attempt, and what create_bucket answers.
use tenantflow_api.Prelude.{
  ℕ, zero, suc, ◌+◌, ◌≡◌, refl, ◌∙◌, sym, ap, ==→eq, ◌≤◌, ◌<◌, String, Bool, true, false, arith,
  subst, ◌⊎◌, inl, inr, Bool-cases, str_eq, ◌||◌, ◌==◌, if◌then◌else◌, ⊤,
}
use tenantflow_api.Core.Errors.{Error, Result, ok, err}

-- what head_bucket answers or raises; a ClientError has a code, or the empty text
pub data HeadBucket : Type 0 where
  found endpoint_connection_error : HeadBucket
  client_error : String → HeadBucket
  other : Error → HeadBucket

pub data BucketEnd : Type 0 where
  already_exists created fell_through : BucketEnd

abbrev pub is_missing : String → Bool
is_missing code = str_eq code "404" || str_eq code "NoSuchBucket" || str_eq code "NotFound"

abbrev pub connection_error : Error
connection_error = Error.runtime_error "EndpointConnectionError"

abbrev pub after_create : Result ⊤ → Result BucketEnd
after_create (ok u) = ok BucketEnd.created
after_create (err e) = err e

-- an answer that ends the loop; the connection error does so in the last attempt
unfoldable pub end_with : Result ⊤ → HeadBucket → Result BucketEnd
end_with create HeadBucket.found = ok BucketEnd.already_exists
end_with create HeadBucket.endpoint_connection_error = err connection_error
end_with create (HeadBucket.client_error code) =
    if is_missing code then after_create create else err (Error.runtime_error code)
end_with create (HeadBucket.other e) = err e

abbrev pub is_connection_error : HeadBucket → Bool
is_connection_error HeadBucket.endpoint_connection_error = true
is_connection_error _ = false

-- the loop from an attempt on, with so many attempts left; the second component is the seconds slept
unfoldable pub attempts_from : Result ⊤ → (ℕ → HeadBucket) → ℕ → ℕ → Result BucketEnd × ℕ
unfolding end_with
attempts_from create head attempt zero = (ok BucketEnd.fell_through, 0)
attempts_from create head attempt (suc left) =
    let rest = attempts_from create head (attempt + 1) left in
    if is_connection_error (head attempt)
    then if attempt == 30 then (err connection_error, 0) else (rest.0, rest.1 + 1)
    else (end_with create (head attempt), 0)

-- for attempt in range(1, 31)
unfoldable pub main : Result ⊤ → (ℕ → HeadBucket) → Result BucketEnd × ℕ
unfolding attempts_from
main create head = attempts_from create head 1 30

end_with_connection :
    (create : Result ⊤) (h : HeadBucket)
    → is_connection_error h ≡ true
    → end_with create h ≡ err connection_error
unfolding end_with
end_with_connection create HeadBucket.endpoint_connection_error e = refl
end_with_connection create HeadBucket.found e = absurd (ground arith)
end_with_connection create (HeadBucket.client_error code) e = absurd (ground arith)
end_with_connection create (HeadBucket.other x) e = absurd (ground arith)

-- `k` attempts were not answered, and the next one is answered or the last
abbrev pub EndsAt : (ℕ → HeadBucket) → ℕ → Type 0
EndsAt head n = (is_connection_error (head n) ≡ false) ⊎ (n ≡ 30)

attempts_here :
    (create : Result ⊤) (head : ℕ → HeadBucket) (n left : ℕ)
    → EndsAt head n
    → attempts_from create head n (suc left) ≡ (end_with create (head n), 0)
unfolding attempts_from
attempts_here create head n left (inl answered) = rw answered refl
attempts_here create head n left (inr last) = elim (Bool-cases (is_connection_error (head n))) [
  | inr answered ↦ rw answered refl
  | inl lost ↦
      let at_last : (n == 30) ≡ true = ap (λ k. k == 30) last in
      rw lost (rw at_last (ap (λ r. (r, 0)) (sym (end_with_connection create (head n) lost))))
]

further :
    (create : Result ⊤) (head : ℕ → HeadBucket) (n left : ℕ) (r : Result BucketEnd) (k : ℕ)
    → is_connection_error (head n) ≡ true
    → n < 30
    → attempts_from create head (n + 1) left ≡ (r, k)
    → attempts_from create head n (suc left) ≡ (r, suc k)
unfolding attempts_from
further create head n left r k missed early rest =
    let not_last : (n == 30) ≡ false = ground arith in
    rw missed (rw not_last (rw rest (ap (λ m. (r, m)) (omega arith))))

-- `k` attempts from `n` on are not answered, and `m` is the next one
attempts_lem :
    (create : Result ⊤) (head : ℕ → HeadBucket) (n left k m : ℕ)
    → n + left ≡ 31
    → k < left
    → m ≡ k + n
    → ((j : ℕ) → n ≤ j → j < m → is_connection_error (head j) ≡ true)
    → EndsAt head m
    → attempts_from create head n left ≡ (end_with create (head m), k)
attempts_lem create head n zero k m e within at_m lost ends = absurd (omega arith)
attempts_lem create head n (suc left) zero m e within at_m lost ends =
    let same : m ≡ n = omega arith in
    attempts_here create head n left (subst (EndsAt head) same ends)
    ∙ ap (λ j. (end_with create (head j), 0)) (sym same)
attempts_lem create head n (suc left) (suc k) m e within at_m lost ends =
    further create head n left (end_with create (head m)) k (lost n (omega arith) (omega arith))
      (omega arith)
      (attempts_lem create head (n + 1) left k m (omega arith) (omega arith) (omega arith)
        (λ j a b. lost j (omega arith) b) ends)

-- the attempt that ends the loop: the first one that is answered, or the last
abbrev pub Ending : (ℕ → HeadBucket) → ℕ → ℕ → Type 0
Ending head n m = ((j : ℕ) → n ≤ j → j < m → is_connection_error (head j) ≡ true) × EndsAt head m

find-Ending :
    (head : ℕ → HeadBucket) (n left : ℕ)
    → n + left ≡ 30
    → (k : ℕ) × (k ≤ left) × Ending head n (k + n)
find-Ending head n zero e = (0, omega arith, (λ j a b. absurd (omega arith), inr (omega arith)))
find-Ending head n (suc left) e = elim (Bool-cases (is_connection_error (head n))) [
  | inr answered ↦
      let same : n ≡ 0 + n = omega arith in
      (0, omega arith, (λ j a b. absurd (omega arith), subst (EndsAt head) same (inl answered)))
  | inl missed ↦
      let (k, small, (lost, ends)) = find-Ending head (n + 1) left (omega arith) in
      let same : k + (n + 1) ≡ suc k + n = omega arith in
      (
        suc k,
        omega arith,
        (
          λ j a b. elim (Bool-cases (n == j)) [
            | inl e ↦ subst (λ i. is_connection_error (head i) ≡ true) (==→eq n j e) missed
            | inr e ↦ lost j (ground arith) (ground arith)
          ],
          subst (EndsAt head) same ends,
        ),
      )
]

-- The script ends, within thirty attempts: by the answer to its first attempt that is answered, having
-- waited a second for each one before, or with the connection error of the thirtieth.
pub main_ends :
    (create : Result ⊤) (head : ℕ → HeadBucket)
    → (k : ℕ) × (k < 30)
      × Ending head 1 (k + 1)
      × (main create head ≡ (end_with create (head (k + 1)), k))
unfolding main
main_ends create head =
    let (k, small, (lost, ends)) = find-Ending head 1 29 refl in
    (
      k,
      omega arith,
      (lost, ends),
      attempts_lem create head 1 30 k (k + 1) refl (omega arith) refl lost ends,
    )
