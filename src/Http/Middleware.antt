-- ===== src/Http/Middleware.antt =====
-- app/core/middleware.py and app/observability/middleware.py, in the order in which app/main.py adds
-- them, and the exception handlers of app/main.py that answer inside them. The headers of a response
-- are Starlette's MutableHeaders, the record `Headers`; the durations are left out.
use Prim.Native.Char.{code}
use Prim.Native.String.{count}
use tenantflow_api.Prelude.{
  ℕ, String, Bool, true, false, ◌&&◌, ◌||◌, Option, none, some, List, [], ◌∷◌, ◌++◌, leb, ◌==◌,
  if◌then◌else◌,
}
use tenantflow_api.Core.Errors.{Error, Result, ok, err, ErrorCode, ErrorResponse, error_response}
use tenantflow_api.Core.Config.{Settings, is_production}

-- `get` of a name that is absent is `none`; a name is written without regard to case
pub record Headers : Type 1 where
  pub carrier : Type 0
  pub get : String → carrier → Option String
  pub set : String → String → carrier → carrier
  pub setdefault : String → String → carrier → carrier

pub record HttpRequest : Type 0 where
  pub method : String
  pub path : String
  pub route : Option String
  pub x_request_id : Option String
  pub state_request_id : Option String

-- `_error_payload`: `request_id` is that of request.state
pub record ErrorPayload : Type 0 where
  pub code : ErrorCode
  pub message : String
  pub request_id : Option String

-- what the middlewares leave behind: the lines "request_complete", and HTTP_REQUESTS
pub record LogLine : Type 0 where
  pub request_id : String
  pub method : String
  pub path : String
  pub status : ℕ

pub record Telemetry : Type 0 where
  pub lines : List LogLine
  pub requests : List (String × String × ℕ)

-- the characters of [A-Za-z0-9._:-]
abbrev pub is_id_char : ℕ → Bool
is_id_char c =
    (leb b'A' c && leb c b'Z')
    || (leb b'a' c && leb c b'z')
    || (leb b'0' c && leb c b'9')
    || c == b'.'
    || c == b'_'
    || c == b':'
    || c == b'-'

unfoldable pub all_id_chars : String → Bool
all_id_chars String.[] = true
all_id_chars (String.◌∷◌ c s) = let rest = all_id_chars s in is_id_char (code c) && rest

-- _REQUEST_ID_RE.fullmatch
unfoldable pub is_request_id : String → Bool
unfolding all_id_chars
is_request_id s = leb 1 (count s) && leb (count s) 64 && all_id_chars s

-- `fresh` is str(uuid4())
unfoldable pub normalize_request_id : Option String → String → String
unfolding is_request_id
normalize_request_id none fresh = fresh
normalize_request_id (some candidate) fresh = if is_request_id candidate then candidate else fresh

module _ (H : Headers) where
  pub record HttpResponse : Type 0 where
    pub status_code : ℕ
    pub headers : H.carrier
    pub error : Option ErrorPayload

  -- an application: an exception passes through it
  abbrev pub App : Type 0
  App = HttpRequest → Telemetry → Result HttpResponse × Telemetry

  abbrev pub with_header : String → String → HttpResponse → HttpResponse
  with_header name value r = record r { headers = H.set name value r.headers }

  abbrev pub with_default : String → String → HttpResponse → HttpResponse
  with_default name value r = record r { headers = H.setdefault name value r.headers }

  -- the handlers of AppError, HTTPException, IntegrityError and RequestValidationError answer inside
  -- the middlewares; any other exception goes on
  abbrev pub is_handled : Error → Bool
  is_handled (Error.value_error message) = false
  is_handled (Error.runtime_error message) = false
  is_handled _ = true

  -- `headers_of` are those of the JSONResponse, with the headers of an HTTPException
  module _ (headers_of : ErrorResponse → H.carrier) where
    abbrev pub error_answer : HttpRequest → ErrorResponse → HttpResponse
    error_answer request e = record {
      status_code = e.status_code;
      headers = headers_of e;
      error =
          some
            (record { code = e.code; message = e.message; request_id = request.state_request_id });
    }

    abbrev pub answer_error : HttpRequest → Result HttpResponse → Result HttpResponse
    answer_error request (ok r) = ok r
    answer_error request (err e) =
        if is_handled e then ok (error_answer request (error_response e)) else err e

    unfoldable pub with_handlers : App → App
    unfolding error_response
    with_handlers app request t = let (r, u) = app request t in (answer_error request r, u)

  abbrev pub secure : Settings → HttpResponse → HttpResponse
  secure s r =
      let always = with_default "Permissions-Policy" "camera=(), microphone=(), geolocation=()" (
        with_default "Referrer-Policy" "no-referrer" (
          with_default "X-Frame-Options" "DENY"
            (with_default "X-Content-Type-Options" "nosniff" r))) in
      if is_production s
      then with_default "Strict-Transport-Security" "max-age=31536000; includeSubDomains" always
      else always

  abbrev pub secured : Settings → Result HttpResponse → Result HttpResponse
  secured s (ok r) = ok (secure s r)
  secured s (err e) = err e

  -- SecurityHeadersMiddleware.dispatch
  unfoldable pub security_headers : Settings → App → App
  unfolding is_production
  security_headers s call_next request t = let (r, u) = call_next request t in (secured s r, u)

  abbrev pub logged :
      HttpRequest → String → Result HttpResponse → Telemetry → Result HttpResponse × Telemetry
  logged request request_id (err e) t = (err e, t)
  logged request request_id (ok r) t = (
    ok (with_header "X-Request-ID" request_id r),
    record t {
      lines =
          t.lines
          ++ record {
            request_id = request_id;
            method = request.method;
            path = request.path;
            status = r.status_code;
          }
            ∷ [];
    },
  )

  -- RequestContextMiddleware.dispatch, with the str(uuid4()) that it may draw
  unfoldable pub request_context : String → App → App
  unfolding normalize_request_id
  request_context fresh call_next request t =
      let request_id = normalize_request_id request.x_request_id fresh in
      let (r, u) = call_next (record request { state_request_id = some request_id }) t in
      logged request request_id r u

  -- getattr(route, "path", "unmatched")
  abbrev pub route_path : Option String → String
  route_path none = "unmatched"
  route_path (some path) = path

  abbrev pub counted :
      HttpRequest → Result HttpResponse → Telemetry → Result HttpResponse × Telemetry
  counted request (err e) t = (err e, t)
  counted request (ok r) t = (
    ok r,
    record t {
      requests = t.requests ++ (request.method, route_path request.route, r.status_code) ∷ [];
    },
  )

  -- MetricsMiddleware.dispatch
  unfoldable pub count_request : App → App
  count_request call_next request t = let (r, u) = call_next request t in counted request r u

  -- the middleware that is added last is the outermost one
  unfoldable pub stack : (ErrorResponse → H.carrier) → Settings → String → App → App
  unfolding count_request request_context security_headers with_handlers
  stack headers_of s fresh app =
      count_request (request_context fresh (security_headers s (with_handlers headers_of app)))
