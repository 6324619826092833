-- ===== src/Http/Answers.antt =====
-- app/main.py and the middlewares: what every answer carries.
use Prim.Native.Char.{code}
use Prim.Native.String.{count}
use tenantflow_api.Core.Texts.{chars}
use tenantflow_api.Prelude.{
  ℕ, ◌≤◌, ◌⊎◌, leb, and_both, ◌≡◌, refl, ◌∙◌, ap, sym, subst, String, Bool, true, false, ◌||◌, ◌&&◌,
  Option, none, some, List, [], ◌∷◌, ◌++◌, All, str_eq, present, Bool-cases, inl, inr, arith,
}
use tenantflow_api.Core.Errors.{Error, Result, ok, err, ErrorResponse}
use tenantflow_api.Core.Config.{Settings, is_production}
use tenantflow_api.Http.Middleware.{
  Headers, HttpRequest, HttpResponse, Telemetry, App, normalize_request_id, is_request_id,
  is_id_char, all_id_chars, is_handled, answer_error, with_handlers, secure, secured,
  security_headers, logged, request_context, counted, count_request, route_path, stack, with_header,
  ErrorPayload,
}

-- the names of the headers that the program sets
abbrev pub is_ours : String → Bool
is_ours n =
    str_eq n "X-Request-ID"
    || str_eq n "X-Content-Type-Options"
    || str_eq n "X-Frame-Options"
    || str_eq n "Referrer-Policy"
    || str_eq n "Permissions-Policy"
    || str_eq n "Strict-Transport-Security"

-- A header that is set is found, and one that is set by default unless it is there; setting one of the
-- program's headers leaves the others.
pub record IsHeaders (H : Headers) : Type 0 where
  pub get-set : (n v : String) (h : H.carrier) → H.get n (H.set n v h) ≡ some v
  pub kept-set :
      (m n v : String) (h : H.carrier)
      → (is_ours m && is_ours n) ≡ true
      → str_eq m n ≡ false
      → H.get m (H.set n v h) ≡ H.get m h
  pub get-setdefault :
      (n v : String) (h : H.carrier) → present (H.get n (H.setdefault n v h)) ≡ true
  pub kept-setdefault :
      (m n v : String) (h : H.carrier)
      → present (H.get m h) ≡ true
      → H.get m (H.setdefault n v h) ≡ H.get m h

abbrev pub security_names : List String
security_names =
    "X-Content-Type-Options" ∷ "X-Frame-Options" ∷ "Referrer-Policy" ∷ "Permissions-Policy" ∷ []

abbrev pub request_id_of : Option ErrorPayload → Option String
request_id_of none = none
request_id_of (some e) = e.request_id

-- [A-Za-z0-9._:-]
abbrev pub IsIdChar : ℕ → Type 0
IsIdChar c =
    ((65 ≤ c) × (c ≤ 90))
    ⊎ ((97 ≤ c) × (c ≤ 122))
    ⊎ ((48 ≤ c) × (c ≤ 57))
    ⊎ (c ≡ 46)
    ⊎ (c ≡ 95)
    ⊎ (c ≡ 58)
    ⊎ (c ≡ 45)

-- one to 64 of these characters
abbrev pub IsRequestId : String → Type 0
IsRequestId s = (1 ≤ count s) × (count s ≤ 64) × All IsIdChar (chars s)

-- The id of a request: the one that the client sent if it is well formed, and a fresh one otherwise.
pub data Identified (fresh : String) : Option String → String → Type 0 where
  sent : (candidate : String) → IsRequestId candidate → Identified fresh (some candidate) candidate
  malformed :
      (candidate : String) → (IsRequestId candidate → ⊥) → Identified fresh (some candidate) fresh
  missing : Identified fresh none fresh

IsIdChar-of : (c : ℕ) → is_id_char c ≡ true → IsIdChar c
IsIdChar-of c h = ground arith

id_char-IsIdChar : (c : ℕ) → IsIdChar c → is_id_char c ≡ true
id_char-IsIdChar c h = ground arith

all_id_chars_of : (s : String) → all_id_chars s ≡ true → All IsIdChar (chars s)
unfolding all_id_chars chars
all_id_chars_of String.[] h = tt
all_id_chars_of (String.◌∷◌ c s) h =
    let k = and_both (is_id_char (code c)) (all_id_chars s) h in
    (IsIdChar-of (code c) k.0, all_id_chars_of s k.1)

all_id_chars-All : (s : String) → All IsIdChar (chars s) → all_id_chars s ≡ true
unfolding all_id_chars chars
all_id_chars-All String.[] h = refl
all_id_chars-All (String.◌∷◌ c s) h =
    rw (id_char-IsIdChar (code c) h.0) (rw (all_id_chars-All s h.1) refl)

false-true : false ≡ true → ⊥
false-true h = cc

normalize-Identified :
    (candidate : Option String) (fresh : String)
    → Identified fresh candidate (normalize_request_id candidate fresh)
unfolding normalize_request_id is_request_id
normalize-Identified none fresh = Identified.missing
normalize-Identified (some c) fresh = elim (Bool-cases (is_request_id c)) [
  | inl y ↦
      let (bounds, all) = and_both (leb 1 (count c) && leb (count c) 64) (all_id_chars c) y in
      let (low, high) = and_both (leb 1 (count c)) (leb (count c) 64) bounds in
      rw y (Identified.sent c (ground arith, ground arith, all_id_chars_of c all))
  | inr n ↦ rw n (
      Identified.malformed c λ h. false-true (
        sym n
        ∙ (let a : leb 1 (count c) ≡ true = let k = h.0 in ground arith in
            let b : leb (count c) 64 ≡ true = let k = h.1 in ground arith in
            rw a (rw b (all_id_chars-All c h.2)))))
]

-- the request as the endpoint sees it
abbrev pub stamped : HttpRequest → String → HttpRequest
stamped request fresh = record request {
  state_request_id = some (normalize_request_id request.x_request_id fresh);
}

module _ (H : Headers) (laws : IsHeaders H) (headers_of : ErrorResponse → H.carrier) (s : Settings)
    (fresh : String) where
  abbrev pub Has : String → H.carrier → Type 0
  Has n h = present (H.get n h) ≡ true

  kept : (m n v : String) (h : H.carrier) → Has m h → Has m (H.setdefault n v h)
  kept m n v h k = ap present (laws.kept-setdefault m n v h k) ∙ k

  secure-Has :
      (r : HttpResponse H)
      → All (λ n. Has n (secure H s r).headers) security_names
        × (is_production s ≡ true → Has "Strict-Transport-Security" (secure H s r).headers)
  secure-Has r =
      let d = laws.get-setdefault in
      let h1 = H.setdefault "X-Content-Type-Options" "nosniff" r.headers in
      let h2 = H.setdefault "X-Frame-Options" "DENY" h1 in
      let h3 = H.setdefault "Referrer-Policy" "no-referrer" h2 in
      let h4 = H.setdefault "Permissions-Policy" "camera=(), microphone=(), geolocation=()" h3 in
      let a1 = kept "X-Content-Type-Options" _ _ h3 (
        kept "X-Content-Type-Options" _ _ h2
          (kept "X-Content-Type-Options" _ _ h1 (d _ _ r.headers))) in
      let a2 = kept "X-Frame-Options" _ _ h3 (kept "X-Frame-Options" _ _ h2 (d _ _ h1)) in
      let a3 = kept "Referrer-Policy" _ _ h3 (d _ _ h2) in
      let a4 = d "Permissions-Policy" "camera=(), microphone=(), geolocation=()" h3 in
      elim (Bool-cases (is_production s)) [
        | inl e ↦ rw e (
          (kept _ _ _ h4 a1, (kept _ _ _ h4 a2, (kept _ _ _ h4 a3, (kept _ _ _ h4 a4, tt)))),
          λ _. d _ _ h4,
        )
        | inr e ↦ rw e ((a1, (a2, (a3, (a4, tt)))), λ k. absurd (ground arith))
      ]

  -- setting the request id leaves the security headers
  marked-Has :
      (id : String) (r : HttpResponse H)
      → let h = H.set "X-Request-ID" id (secure H s r).headers in
        All (λ n. Has n h) security_names
        × (is_production s ≡ true → Has "Strict-Transport-Security" h)
  marked-Has id r =
      let ((a1, (a2, (a3, (a4, u)))), strict) = secure-Has r in
      (
        (
          leave "X-Content-Type-Options" refl refl a1,
          (
            leave "X-Frame-Options" refl refl a2,
            (leave "Referrer-Policy" refl refl a3, (leave "Permissions-Policy" refl refl a4, tt)),
          ),
        ),
        λ k. leave "Strict-Transport-Security" refl refl (strict k),
      )
    where
      leave :
          (m : String)
          → (is_ours m && is_ours "X-Request-ID") ≡ true
          → str_eq m "X-Request-ID" ≡ false
          → Has m (secure H s r).headers
          → Has m (H.set "X-Request-ID" id (secure H s r).headers)
      leave m ours other k =
          ap present (laws.kept-set m "X-Request-ID" id (secure H s r).headers ours other) ∙ k

  -- What an answer to the request carries: the request id, in its header and in the payload of an
  -- error; the security headers; one log line and one count with its status.
  pub record IsStamped (request : HttpRequest) (before after : Telemetry) (r : HttpResponse H)
      : Type 0 where
    pub request_id :
        H.get "X-Request-ID" r.headers ≡ some (normalize_request_id request.x_request_id fresh)
    pub secured : All (λ n. Has n r.headers) security_names
    pub strict : is_production s ≡ true → Has "Strict-Transport-Security" r.headers
    pub line :
        after.lines
        ≡ before.lines
          ++ record {
            request_id = normalize_request_id request.x_request_id fresh;
            method = request.method;
            path = request.path;
            status = r.status_code;
          }
            ∷ []
    pub count :
        after.requests
        ≡ before.requests ++ (request.method, route_path H request.route, r.status_code) ∷ []

  -- the answer that the middlewares make of a response
  abbrev pub finished : HttpRequest → HttpResponse H → HttpResponse H
  finished request r =
      with_header H "X-Request-ID" (normalize_request_id request.x_request_id fresh) (secure H s r)

  finished-IsStamped :
      (app : App H) (request : HttpRequest) (t u : Telemetry) (r : HttpResponse H)
      → with_handlers H headers_of app (stamped request fresh) t ≡ (ok r, u)
      → let (answer, v) = stack H headers_of s fresh app request t in
        (answer ≡ ok (finished request r)) × IsStamped request u v (finished request r)
  unfolding stack count_request request_context security_headers
  finished-IsStamped app request t u r e =
      let id = normalize_request_id request.x_request_id fresh in
      let (names, strict) = marked-Has id r in
      let outer : Result (HttpResponse H) × Telemetry → Result (HttpResponse H) × Telemetry = λ q.
        let (answer, v) = logged H request id (secured H s q.0) q.1 in counted H request answer v in
      subst (λ q. (q.0 ≡ ok (finished request r)) × IsStamped request u q.1 (finished request r))
        (sym (ap outer e))
        (
          refl,
          record {
            request_id = laws.get-set "X-Request-ID" id (secure H s r).headers;
            secured = names;
            strict = strict;
            line = refl;
            count = refl;
          },
        )

  -- A response of an endpoint comes out of the middlewares with the request id in its header, which is
  -- the one that the client sent if that is well formed and a fresh one otherwise, and with the security
  -- headers, the strict transport one in production; one log line and one count have its status.
  pub response-IsStamped :
      (app : App H) (request : HttpRequest) (t u : Telemetry) (r : HttpResponse H)
      → app (stamped request fresh) t ≡ (ok r, u)
      → let (answer, v) = stack H headers_of s fresh app request t in
        (id : String) × Identified fresh request.x_request_id id
        × (H.get "X-Request-ID" (finished request r).headers ≡ some id)
        × (answer ≡ ok (finished request r))
        × IsStamped request u v (finished request r)
  unfolding with_handlers
  response-IsStamped app request t u r e =
      let (answered, marks) =
        finished-IsStamped app request t u r
          (ap (λ q. (answer_error H headers_of (stamped request fresh) q.0, q.1)) e) in
      (
        normalize_request_id request.x_request_id fresh,
        normalize-Identified request.x_request_id fresh,
        marks.request_id,
        answered,
        marks,
      )

  -- Any exception that no handler inside the middlewares knows passes by them: it comes out as it
  -- was raised, with no log line and no count, so that the answer that is made of it has neither
  -- the request id nor the security headers from them.
  pub unhandled_lem :
      (app : App H) (request : HttpRequest) (t u : Telemetry) (e : Error)
      → app (stamped request fresh) t ≡ (err e, u)
      → is_handled H e ≡ false
      → stack H headers_of s fresh app request t ≡ (err e, u)
  unfolding stack count_request request_context security_headers with_handlers
  unhandled_lem app request t u e raised unhandled =
      let id = normalize_request_id request.x_request_id fresh in
      let outer : Result (HttpResponse H) × Telemetry → Result (HttpResponse H) × Telemetry = λ q.
        let (answer, v) =
          logged H request id (secured H s (answer_error H headers_of (stamped request fresh) q.0))
            q.1 in
        counted H request answer v in
      ap outer raised ∙ rw unhandled refl
