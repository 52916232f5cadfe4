-- ===== src/Telemetry/LogRecord.antt =====
-- `apps/api/src/telemetry/log-record.ts`: redaction, sanitised errors and reserved keys.
pub mod Laws
use scos.Prelude.{
  ℕ, zero, suc, Bool, true, false, not, ◌&&◌, ◌||◌, Option, some, none, List, [], ◌∷◌, ◌++◌, map,
  all, length, leb, ltb, ◌==◌, if◌then◌else◌, Text, codes, text_eq,
}
use scos.Shipping.Allocation.{contains}
use scos.Ordering.Key.{trim, trim_start}

-- A value of unknown type. `object plain` is a plain object or another one; `primitive` holds what
-- `typeof` gives; an error has its name, its stack and its other properties.
mutual
  pub data Datum : Type 0 where
    string : Text → Datum
    primitive : (type_of : Text) → Datum
    null : Datum
    lines : List Text → Datum
    object : (plain : Bool) → Properties → Datum
    error : (name : Text) → (stack : Option Text) → Properties → Datum

  pub data Properties : Type 0 where
    no_properties : Properties
    property : Text → Datum → Properties → Properties

-- REDACTED_KEYS
unfoldable pub redacted_keys : List Text
redacted_keys =
    codes "authorization"
    ∷ codes "cookie"
    ∷ codes "password"
    ∷ codes "token"
    ∷ codes "secret"
    ∷ codes "databaseUrl"
    ∷ codes "DATABASE_URL"
    ∷ codes "connectionString"
    ∷ codes "body"
    ∷ codes "latitude"
    ∷ codes "longitude"
    ∷ codes "destination"
    ∷ []

-- REDACTION_CENSOR
abbrev pub redaction_censor : Text
redaction_censor = codes "[REDACTED]"

-- `REDACTED.has(key)`
abbrev pub is_redacted : Text → Bool
is_redacted key = contains key redacted_keys

-- `censorKeys`
unfoldable pub censor_keys : Properties → Properties
censor_keys no_properties = no_properties
censor_keys (property key item rest) =
    property key (if is_redacted key then string redaction_censor else item) (censor_keys rest)

-- The value of a key that is not redacted.
abbrev pub censor_inside : Datum → Datum
censor_inside (object true ps) = object true (censor_keys ps)
censor_inside v = v

-- `redact`
unfoldable pub redact : Properties → Properties
unfolding censor_keys
redact no_properties = no_properties
redact (property key value rest) =
    property key (if is_redacted key then string redaction_censor else censor_inside value)
      (redact rest)

abbrev pub is_upper : ℕ → Bool
is_upper c = leb b'A' c && leb c b'Z'

abbrev pub is_decimal : ℕ → Bool
is_decimal c = leb b'0' c && leb c b'9'

-- [A-Za-z_$]
abbrev pub is_name_start : ℕ → Bool
is_name_start c = is_upper c || (leb b'a' c && leb c b'z') || c == b'_' || c == b'$'

-- [A-Za-z0-9_$.]
abbrev pub is_name_part : ℕ → Bool
is_name_part c = is_name_start c || is_decimal c || c == b'.'

-- `SAFE_NAME.test(name)`: /^[A-Za-z_$][A-Za-z0-9_$.]{0,99}$/
unfoldable pub is_safe_name : Text → Bool
is_safe_name [] = false
is_safe_name (c ∷ t) = is_name_start c && leb (length t) 99 && all is_name_part t

-- `SQLSTATE.test(code)`: /^[0-9A-Z]{5}$/
unfoldable pub is_sql_state : Text → Bool
is_sql_state t = length t == 5 && all (λ c. is_decimal c || is_upper c) t

-- `P\d{4}`
abbrev pub is_prisma_code : Text → Bool
is_prisma_code [] = false
is_prisma_code (c ∷ t) = c == b'P' && length t == 4 && all is_decimal t

-- `SAFE_CODE.test(code)`
unfoldable pub is_safe_code : Text → Bool
unfolding is_sql_state
is_safe_code t = is_sql_state t || is_prisma_code t

pub record SanitizedError : Type 0 where
  pub error_type : Text
  pub code : Option Text
  pub sql_state : Option Text

abbrev pub lookup : Text → Properties → Option Datum
lookup key no_properties = none
lookup key (property k v rest) = if text_eq k key then some v else lookup key rest

-- `field`, of a value that may be missing
abbrev pub field : Option Datum → Text → Option Datum
field (some (object plain ps)) key = lookup key ps
field (some (error name stack ps)) key = lookup key ps
field _ key = none

-- A text that passes a test.
abbrev pub tested : (Text → Bool) → Option Datum → Option Text
tested test (some (string t)) = if test t then some t else none
tested test _ = none

-- `safeCode`
abbrev pub safe_code : Option Datum → Option Text
safe_code value = tested is_safe_code (field value (codes "code"))

-- `asSqlState`
abbrev pub as_sql_state : Option Datum → Option Text
as_sql_state = tested is_sql_state

infixr 20 ◌or_else◌
-- `a ?? b`
abbrev pub ◌or_else◌ : Option Text → Option Text → Option Text
none or_else b = b
some a or_else b = some a

abbrev pub is_text : Option Datum → Bool
is_text (some (string t)) = true
is_text _ = false

-- `isPostgresErrorResponse`
abbrev pub is_postgres_error_response : Option Datum → Bool
is_postgres_error_response value = is_text (field value (codes "severity"))

-- `sqlStateOf`
unfoldable pub sql_state_of : Option Datum → Option Text
sql_state_of value =
    let meta = field value (codes "meta") in
    as_sql_state (field meta (codes "code"))
    or_else as_sql_state (
        field (field (field meta (codes "driverAdapterError")) (codes "cause"))
          (codes "originalCode"))
    or_else (if is_postgres_error_response value
        then as_sql_state (field value (codes "code"))
        else none)

-- `sanitizeError`
unfoldable pub sanitize_error : Datum → SanitizedError
unfolding sql_state_of
sanitize_error (error name stack ps) =
    let value = some (error name stack ps) in
    let cause = lookup (codes "cause") ps in
    let sql_state = sql_state_of value or_else sql_state_of cause in
    record {
      error_type = if is_safe_name name then name else codes "Error";
      code = sql_state or_else safe_code value or_else safe_code cause;
      sql_state = sql_state;
    }
sanitize_error (object plain ps) = record {
  error_type = codes "Object";
  code = none;
  sql_state = none;
}
sanitize_error (lines ts) = record { error_type = codes "Object"; code = none; sql_state = none }
sanitize_error (string t) = record { error_type = codes "string"; code = none; sql_state = none }
sanitize_error null = record { error_type = codes "object"; code = none; sql_state = none }
sanitize_error (primitive t) = record { error_type = t; code = none; sql_state = none }

abbrev pub extend_first : ℕ → List Text → List Text
extend_first c [] = (c ∷ []) ∷ []
extend_first c (t ∷ ts) = (c ∷ t) ∷ ts

-- `text.split("\n")`
unfoldable pub split_lines : Text → List Text
split_lines [] = [] ∷ []
split_lines (c ∷ t) =
    let rest = split_lines t in if c == b'\n' then [] ∷ rest else extend_first c rest

abbrev pub starts_with : Text → Text → Bool
starts_with t [] = true
starts_with [] (c ∷ prefix) = false
starts_with (a ∷ t) (c ∷ prefix) = a == c && starts_with t prefix

-- /^\s+at /
abbrev pub is_frame : Text → Bool
is_frame line =
    let rest = trim_start line in ltb (length rest) (length line) && starts_with rest (codes "at ")

abbrev pub keep_frames : List Text → List Text
keep_frames [] = []
keep_frames (line ∷ rest) =
    let kept = keep_frames rest in if is_frame line then trim line ∷ kept else kept

abbrev pub stack_or_empty : Option Text → Text
stack_or_empty none = []
stack_or_empty (some t) = t

-- `stackFrames`
unfoldable pub stack_frames : Option Text → List Text
unfolding split_lines
stack_frames stack = keep_frames (split_lines (stack_or_empty stack))

-- RESERVED_LOG_KEYS
unfoldable pub reserved_log_keys : List Text
reserved_log_keys =
    codes "level"
    ∷ codes "severity_number"
    ∷ codes "severity_text"
    ∷ codes "time"
    ∷ codes "msg"
    ∷ codes "trace_id"
    ∷ codes "span_id"
    ∷ codes "trace_flags"
    ∷ codes "deployment.environment.name"
    ∷ []

-- RESERVED_KEY_PREFIX
abbrev pub reserved_key_prefix : Text
reserved_key_prefix = codes "detail."

-- `isReservedLogKey`
unfoldable pub is_reserved_log_key : Text → Bool
unfolding reserved_log_keys
is_reserved_log_key key = contains key reserved_log_keys || starts_with key (codes "service.")

-- `object[key] = value`, for a key that is not `__proto__`
unfoldable pub assign : Text → Datum → Properties → Properties
assign key value no_properties = property key value no_properties
assign key value (property k v rest) =
    let after = assign key value rest in
    if text_eq k key then property k value rest else property k v after

-- The same for any key: `__proto__` sets the prototype, which is no property of the object.
abbrev pub set_property : Text → Datum → Properties → Properties
set_property key value ps = if text_eq key (codes "__proto__") then ps else assign key value ps

abbrev pub optional : Text → Option Text → Properties → Properties
optional key none rest = rest
optional key (some t) rest = property key (string t) rest

-- The object of a sanitised error with its stack.
abbrev pub error_object : SanitizedError → List Text → Datum
error_object e stack = object true (
    property (codes "type") (string e.error_type) (
      optional (codes "code") e.code (
        optional (codes "sqlState") e.sql_state
          (property (codes "stack") (lines stack) no_properties))))

abbrev pub sanitize_value : Datum → Datum
sanitize_value (error name stack ps) =
    error_object (sanitize_error (error name stack ps)) (stack_frames stack)
sanitize_value v = v

abbrev pub safe_key : Text → Text
safe_key key = if is_reserved_log_key key then reserved_key_prefix ++ key else key

-- The loop of `sanitizeDetails`, with the object so far.
unfoldable pub sanitize_onto : Properties → Properties → Properties
unfolding sanitize_error stack_frames is_reserved_log_key assign
sanitize_onto safe no_properties = safe
sanitize_onto safe (property key value rest) =
    sanitize_onto (set_property (safe_key key) (sanitize_value value) safe) rest

-- `sanitizeDetails`
unfoldable pub sanitize_details : Option Properties → Properties
unfolding sanitize_onto
sanitize_details none = no_properties
sanitize_details (some details) = sanitize_onto no_properties details
