-- ===== src/Server/Scrub.antt =====
-- server/src/scrub.rs: what is taken out of what goes to the error monitor. `replace_all` is the regex
-- crate's, from a pattern and a replacement. What else the sentry crate's types hold (for example a log
-- entry's parameters, an exception's type and stack trace, an event's contexts, user and request) is a
-- parameter of each record: the code leaves it as it is.
pub mod Redacted
use little_love.Prelude.{
  ℕ, ◌+◌, String, Bool, ◌&&◌, Option, none, some, List, [], ◌∷◌, map, ◌==◌, nat_Eq, list_Eq, any,
  leb, if◌then◌else◌,
}
use little_love.Crypto.Wordlist.{codes}

-- serde_json's values; a number stays the text that it is printed as.
mutual
  pub data Value : Type 0 where
    null : Value
    bool : Bool → Value
    number : String → Value
    text : String → Value
    array : Elements → Value
    object : Entries → Value

  pub data Elements : Type 0 where
    stop : Elements
    element : Value → Elements → Elements

  pub data Entries : Type 0 where
    done : Entries
    entry : String → Value → Entries → Entries

-- The patterns and their replacements, in the order of the passes.
abbrev pub passes : List (String × String)
passes =
    ("(?i)\\b[a-z][a-z0-9+.\\-]*://[^\\s/@]+@\\S+", "[uri]")
    ∷ ("(?i)\\b[a-z0-9._%+\\-]+@[a-z0-9.\\-]+\\.[a-z]{2,}\\b", "[email]")
    ∷ ("\\([^()]*\\)=\\([^()]*\\)", "([redacted])=([redacted])")
    ∷ ("(?i)\\b[0-9a-f]{8}-[0-9a-f]{4}-[0-9a-f]{4}-[0-9a-f]{4}-[0-9a-f]{12}\\b", "[id]")
    ∷ ("\\b[0-9A-HJKMNP-TV-Z]{26}\\b", "[id]")
    ∷ ("(?i)\\b(?:sk|rk|pk|key|tok|bearer)[-_][a-z0-9]{12,}\\b", "[redacted]")
    ∷ ("(?i)\\b[0-9a-f]{32,}\\b", "[redacted]")
    ∷ ("\\b[A-Za-z0-9+/]{32,}={0,2}\\b", "[redacted]")
    ∷ []

abbrev pub sensitive_keys : List String
sensitive_keys =
    "username" ∷ "user" ∷ "handle" ∷ "sender" ∷ "recipient" ∷ "partner" ∷ "account" ∷ "account_id"
    ∷ "accountid" ∷ "email" ∷ "token" ∷ "dsn" ∷ "auth" ∷ "authorization" ∷ "password" ∷ "secret"
    ∷ "apikey" ∷ "api_key" ∷ []

abbrev pub to_ascii_lowercase : ℕ → ℕ
to_ascii_lowercase c = if leb b'A' c && leb c b'Z' then c + 32 else c

unfoldable pub is_sensitive_key : String → Bool
is_sensitive_key key = any (λ s. map to_ascii_lowercase (codes key) == codes s) sensitive_keys

pub record LogEntry (L : Type 0) : Type 0 where
  pub message : String
  pub other : L

pub record Exception (X : Type 0) : Type 0 where
  pub value : Option String
  pub other : X

pub record Breadcrumb (B : Type 0) : Type 0 where
  pub message : Option String
  pub entries : Entries
  pub other : B

pub record Event (L X B E : Type 0) : Type 0 where
  pub message : Option String
  pub logentry : Option (LogEntry L)
  pub transaction : Option String
  pub exception : List (Exception X)
  pub breadcrumbs : List (Breadcrumb B)
  pub extra : Entries
  pub tags : List (String × String)
  pub server_name : Option String
  pub other : E

-- `replace_all(pattern, replacement, text)`
module _ (replace_all : String → String → String → String) where
  -- The loop over the passes.
  unfoldable pub redact_by : List (String × String) → String → String
  redact_by [] out = out
  redact_by ((pattern_, replacement) ∷ later) out =
      redact_by later (replace_all pattern_ replacement out)

  unfoldable pub redact : String → String
  unfolding redact_by
  redact input = redact_by passes input

  unfoldable mutual
    unfolding redact is_sensitive_key

    pub scrub_value : Value → Value
    scrub_value null = null
    scrub_value (bool b) = bool b
    scrub_value (number n) = number n
    scrub_value (text s) = text (redact s)
    scrub_value (array a) = array (scrub_elements a)
    scrub_value (object o) = object (scrub_entries o)

    pub scrub_elements : Elements → Elements
    scrub_elements stop = stop
    scrub_elements (element v vs) = element (scrub_value v) (scrub_elements vs)

    pub scrub_entries : Entries → Entries
    scrub_entries done = done
    scrub_entries (entry k v rest) =
        entry k (if is_sensitive_key k then text "[redacted]" else scrub_value v)
          (scrub_entries rest)

  abbrev pub redact_option : Option String → Option String
  redact_option none = none
  redact_option (some s) = some (redact s)

  unfoldable pub scrub_breadcrumb : {B : Type 0} → Breadcrumb B → Breadcrumb B
  unfolding redact scrub_value
  scrub_breadcrumb b = record b {
    message = redact_option b.message;
    entries = scrub_entries b.entries;
  }

  abbrev pub scrub_logentry : {L : Type 0} → Option (LogEntry L) → Option (LogEntry L)
  scrub_logentry none = none
  scrub_logentry (some le) = some (record le { message = redact le.message })

  abbrev pub scrub_exception : {X : Type 0} → Exception X → Exception X
  scrub_exception ex = record ex { value = redact_option ex.value }

  unfoldable pub scrub_tag : String × String → String × String
  unfolding redact is_sensitive_key
  scrub_tag (k, v) = (k, if is_sensitive_key k then "[redacted]" else redact v)

  unfoldable pub scrub_event : {L X B E : Type 0} → Event L X B E → Event L X B E
  unfolding redact scrub_value scrub_breadcrumb scrub_tag
  scrub_event e = record e {
    message = redact_option e.message;
    logentry = scrub_logentry e.logentry;
    transaction = redact_option e.transaction;
    exception = map scrub_exception e.exception;
    breadcrumbs = map scrub_breadcrumb e.breadcrumbs;
    extra = scrub_entries e.extra;
    tags = map scrub_tag e.tags;
    server_name = none;
  }
