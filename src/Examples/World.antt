-- ===== src/Examples/World.antt =====
-- A concrete platform, and a database of two organizations with their users and rows.
use Prim.Native.String.{◌++◌ as str_append}
use tenantflow_api.Prelude.{
  ℕ, zero, suc, ◌+◌, ◌-◌, ◌*◌, ◌/◌, String, true, false, Option, none, some, [], ◌∷◌, str_eq,
  if◌then◌else◌,
}
use tenantflow_api.Core.Config.{Settings, AppEnv}
use tenantflow_api.Core.Claims.{Claims}
use tenantflow_api.Core.Permissions.{owner, member}
use tenantflow_api.Db.Json.{Fields, Json, end, field}
use tenantflow_api.Db.Models.{User, Organization, OrganizationMembership, Database}
use tenantflow_api.Infra.RateLimit.{LuaNumbers}
use tenantflow_api.Db.Session.{Platform, World}

unfoldable pub tokens : ℕ → String
tokens zero = "token"
tokens (suc n) = str_append "t" (tokens n)

-- the bearer tokens of the example are the names of the users
abbrev pub subject : String → Option ℕ
subject token =
    if str_eq token "alice"
    then some 1
    else if str_eq token "bob"
    then some 2
    else if str_eq token "carol"
    then some 3
    else none

abbrev pub claims_of : Option ℕ → Option Claims
claims_of none = none
claims_of (some k) = some (record {
  sub = k;
  type = "access";
  iat = 0;
  exp = 100;
  jti = "j";
  iss = "tenantflow";
  aud = "api";
})

abbrev pub settings : Settings
settings = record {
  app_env = AppEnv.test;
  jwt_secret = "secret";
  jwt_issuer = "tenantflow";
  jwt_audience = "api";
  webhook_encryption_key = "";
  webhook_allow_private_targets = false;
  access_token_minutes = 15;
  refresh_token_days = 30;
  mail_from = "no-reply@tenantflow.local";
  stripe_secret_key = "sk_test";
  stripe_webhook_secret = "whsec_test";
  stripe_price_pro = "price_pro";
  stripe_price_business = "price_business";
}

abbrev pub first_text : Fields → String
first_text end = ""
first_text (field name (Json.str s) rest) = s
first_text (field name v rest) = name

-- numbers in units of 1/60000, rounded down
abbrev pub lua : LuaNumbers
lua = record {
  one = 60000;
  add = λ a b. a + b;
  subtract = λ a b. a - b;
  multiply = λ a b. a / 60000 * b;
  divide = λ a b. a * 60000 / b;
}

abbrev pub demo : Platform
demo = record {
  settings = settings;
  clock = λ n. 1000 + n;
  uuid4 = λ n. 100 + n;
  token_urlsafe = tokens;
  token_fingerprint = λ s. str_append "sha:" s;
  sha256_json = first_text;
  hash_password = λ s. str_append "argon:" s;
  verify_password = λ s h. str_eq (str_append "argon:" s) h;
  jwt_encode = λ c s. "jwt";
  jwt_decode = λ t s n i a. claims_of (subject t);
  lower = λ s. s;
  strip = λ s. s;
  cursor_json = record { dumps = λ t k. t ∷ k ∷ []; loads = λ bytes. none };
  collate = λ a b. true;
  broker_accepts = λ n. true;
  lua = lua;
}

abbrev user : ℕ → String → User
user k name = record {
  id = k;
  created_at = 0;
  email = str_append name "@example.com";
  password_hash = "argon:correct horse";
  full_name = name;
  is_active = true;
}

abbrev pub alice : User
alice = user 1 "alice"

abbrev pub bob : User
bob = user 2 "bob"

abbrev pub carol : User
carol = user 3 "carol"

abbrev organization : ℕ → String → Organization
organization k slug = record { id = k; created_at = 0; name = slug; slug = slug; created_by = 1 }

abbrev pub owner_of_acme : OrganizationMembership
owner_of_acme = record { id = 20; created_at = 0; organization_id = 10; user_id = 1; role = owner }

abbrev pub member_of_acme : OrganizationMembership
member_of_acme = record {
  id = 21;
  created_at = 0;
  organization_id = 10;
  user_id = 2;
  role = member;
}

-- alice owns the organization 10 and bob is a member of it; carol has no membership
abbrev pub db : Database
db = record {
  users = alice ∷ bob ∷ carol ∷ [];
  organizations = organization 10 "acme" ∷ organization 11 "globex" ∷ [];
  memberships = owner_of_acme ∷ member_of_acme ∷ [];
  invitations = [];
  projects = [];
  tasks = [];
  attachments = [];
  refresh_tokens = [];
  idempotency_records = [];
  webhook_endpoints = [];
  webhook_deliveries = [];
  subscriptions = [];
  stripe_events = [];
  audit_logs = [];
}

abbrev pub at : ℕ → Database → World
at n d = record { db = d; ticks = n; jobs = []; buckets = []; metrics = [] }

abbrev pub start : World
start = at 0 db
