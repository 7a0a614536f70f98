-- ===== src/Server/Config.antt =====
-- server/src/config.rs: the configuration from the environment variables, and what server/src/main.rs
-- switches on from it. `vars` is `std::env::var`, with nothing for a variable that is not set.
pub mod Services
use little_love.Prelude.{
  ℕ, ◌+◌, ◌-◌, ◌*◌, ◌^◌, String, Bool, true, false, not, ◌&&◌, Option, none, some, List, [], ◌∷◌,
  ltb, leb, ◌==◌, nat_Eq, string_Eq, is_empty, if◌then◌else◌,
}
use Prim.Native.String.{◌++◌ as str_append}
use little_love.Crypto.Wordlist.{codes}
use little_love.Server.HashMap
use little_love.Server.World.{World}
use little_love.Server.Db.{Db}

pub record R2Config : Type 0 where
  pub account_id : String
  pub bucket : String
  pub access_key_id : String
  pub secret_access_key : String
  pub endpoint : Option String

pub record ApnsConfig : Type 0 where
  pub key_p8 : String
  pub key_id : String
  pub team_id : String
  pub topic : String
  pub voip_topic : String
  pub environment : String

pub record TurnConfig : Type 0 where
  pub key_id : String
  pub api_token : String
  pub ttl_secs : ℕ
  pub ice_override : Option String

pub record SentryConfig : Type 0 where
  pub dsn : String
  pub environment : String

pub record ServerConfig : Type 0 where
  pub port : ℕ
  pub database_url : Option String
  pub r2 : Option R2Config
  pub apns : Option ApnsConfig
  pub turn : Option TurnConfig
  pub sentry : Option SentryConfig

-- The digits of a number below `bound`, after the ones that made `n`.
unfoldable pub parse_digits : ℕ → ℕ → List ℕ → Option ℕ
parse_digits bound n [] = some n
parse_digits bound n (c ∷ cs) =
    let next = n * 10 + (c - b'0') in
    let rest = parse_digits bound next cs in
    if leb b'0' c && leb c b'9' && ltb next bound then rest else none

-- `str::parse` of an unsigned integer: one `+` may stand in front, and there is at least one digit.
unfoldable pub parse_uint : ℕ → List ℕ → Option ℕ
unfolding parse_digits
parse_uint bound [] = none
parse_uint bound (c ∷ cs) =
    if c == b'+'
    then (if is_empty cs then none else parse_digits bound 0 cs)
    else parse_digits bound 0 (c ∷ cs)

-- `?`, and `and_then`.
abbrev pub and_then : {A B : Type 0} → Option A → (A → Option B) → Option B
and_then none f = none
and_then (some a) f = f a

abbrev pub unwrap_or : {A : Type 0} → A → Option A → A
unwrap_or default none = default
unwrap_or default (some a) = a

-- `.filter(|s| !s.is_empty())`
abbrev pub filled : Option String → Option String
filled none = none
filled (some s) = if s == "" then none else some s

module _ (vars : String → Option String) where
  abbrev pub get : String → Option String
  get k = filled (vars k)

  unfoldable pub sentry_from_env : Option SentryConfig
  sentry_from_env = and_then (get "SENTRY_DSN") (λ dsn.
      some (record { dsn = dsn; environment = unwrap_or "production" (get "SENTRY_ENVIRONMENT") }))

  unfoldable pub turn_from_env : Option TurnConfig
  unfolding parse_uint
  turn_from_env = and_then (get "TURN_KEY_ID") (λ key_id.
      and_then (get "TURN_API_TOKEN") (λ api_token. some (record {
        key_id = key_id;
        api_token = api_token;
        ttl_secs =
            unwrap_or 7200 (and_then (get "TURN_TTL_SECS") (λ s. parse_uint (2 ^ 64) (codes s)));
        ice_override = get "TURN_ICE_OVERRIDE";
      })))

  unfoldable pub apns_from_env : Option ApnsConfig
  apns_from_env = and_then (get "APNS_TOPIC") (λ topic.
      let voip_topic = unwrap_or (str_append topic ".voip") (get "APNS_VOIP_TOPIC") in
      and_then (get "APNS_KEY_P8") (λ key_p8. and_then (get "APNS_KEY_ID") (λ key_id.
        and_then (get "APNS_TEAM_ID") (λ team_id. some (record {
          key_p8 = key_p8;
          key_id = key_id;
          team_id = team_id;
          topic = topic;
          voip_topic = voip_topic;
          environment = unwrap_or "sandbox" (get "APNS_ENV");
        })))))

  unfoldable pub r2_from_env : Option R2Config
  r2_from_env = and_then (get "R2_ACCOUNT_ID") (λ account_id. and_then (get "R2_BUCKET") (λ bucket.
      and_then (get "R2_ACCESS_KEY_ID") (λ access_key_id.
        and_then (get "R2_SECRET_ACCESS_KEY") (λ secret_access_key. some (record {
          account_id = account_id;
          bucket = bucket;
          access_key_id = access_key_id;
          secret_access_key = secret_access_key;
          endpoint = get "R2_ENDPOINT";
        })))))

  unfoldable pub from_env : ServerConfig
  unfolding parse_uint sentry_from_env turn_from_env apns_from_env r2_from_env
  from_env = record {
    port = unwrap_or 7707 (and_then (vars "PORT") (λ s. parse_uint (2 ^ 16) (codes s)));
    database_url = get "DATABASE_URL";
    r2 = r2_from_env;
    apns = apns_from_env;
    turn = turn_from_env;
    sentry = sentry_from_env;
  }

-- What starting the services comes to: `Store::connect`, `R2Presigner::new` and `ApnsSender::new`.
pub record Outcomes : Type 0 where
  pub connects : String → Bool
  pub presigner : R2Config → Bool
  pub sender : ApnsConfig → Bool

abbrev pub is_some : {A : Type 0} → Option A → Bool
is_some none = false
is_some (some a) = true

-- A service that is configured and that starts.
abbrev pub started : {A : Type 0} → (A → Bool) → Option A → Bool
started starts none = false
started starts (some cfg) = starts cfg

-- `main` up to the state that the handlers share; nothing when `Store::connect` fails and `main`
-- returns. `w` is the outside world: the tables behind the URL and the clock.
unfoldable pub start : Outcomes → ServerConfig → World → Option World
start outcomes cfg w =
    let store = started outcomes.connects cfg.database_url in
    if is_some cfg.database_url && not store
    then none
    else some (record w {
      store = store;
      r2 = started outcomes.presigner cfg.r2;
      push = started outcomes.sender cfg.apns;
      turn = is_some cfg.turn;
      routing = HashMap.empty;
      pending_calls = HashMap.empty;
    })
