-- ===== src/Telemetry/LogRecord/Laws.antt =====
-- What no log record shows.
use scos.Prelude.{
  ◌≡◌, refl, Bool, true, false, false≢true, Option, some, none, ◌++◌, Bool-cases, inl, inr, Text,
  codes, text_eq, if◌then◌else◌, arith,
}
use scos.Telemetry.LogRecord.{
  Datum, string, primitive, null, lines, object, error, Properties, no_properties, property,
  redaction_censor, is_redacted, censor_keys, censor_inside, redact, is_safe_name, is_sql_state,
  is_safe_code, SanitizedError, tested, sql_state_of, sanitize_error, ◌or_else◌, safe_code, lookup,
  field, as_sql_state, is_postgres_error_response, is_reserved_log_key, reserved_log_keys,
  reserved_key_prefix, assign, set_property, sanitize_value, safe_key, sanitize_onto,
  sanitize_details,
}

-- Every property has a key and a value that are related.
abbrev pub Each : (Text → Datum → Type 0) → Properties → Type 0
Each P no_properties = Unit
Each P (property key value rest) = P key value × Each P rest

-- A redacted key has the censor.
abbrev pub Censored : Text → Datum → Type 0
Censored key value = is_redacted key ≡ true → value ≡ string redaction_censor

-- The same one level down, in a plain object.
abbrev pub CensoredInside : Datum → Type 0
CensoredInside (object true ps) = Each Censored ps
CensoredInside _ = Unit

Each-censor_keys : (ps : Properties) → Each Censored (censor_keys ps)
unfolding censor_keys
Each-censor_keys no_properties = tt
Each-censor_keys (property key value rest) = (λ h. rw h refl, Each-censor_keys rest)

inside-censor_inside : (v : Datum) → CensoredInside (censor_inside v)
inside-censor_inside (object true ps) = Each-censor_keys ps
inside-censor_inside (object false ps) = tt
inside-censor_inside (string t) = tt
inside-censor_inside (primitive t) = tt
inside-censor_inside null = tt
inside-censor_inside (lines ts) = tt
inside-censor_inside (error n s ps) = tt

-- In redacted details, every redacted key has the censor as its value, at the top level and in every
-- plain object one level down.
pub redact-Censored :
    (details : Properties)
    → Each (λ key value. Censored key value × CensoredInside value) (redact details)
unfolding redact
redact-Censored no_properties = tt
redact-Censored (property key value rest) = elim (Bool-cases (is_redacted key)) [
  | inl secret ↦ rw secret ((λ h. refl, tt), redact-Censored rest)
  | inr other ↦
      rw other ((λ h. absurd (false≢true h), inside-censor_inside value), redact-Censored rest)
]

-- A text that is present passes the test.
abbrev pub Passes : (Text → Bool) → Option Text → Type 0
Passes test o = (t : Text) → o ≡ some t → test t ≡ true

Passes-tested : (test : Text → Bool) (o : Option Datum) → Passes test (tested test o)
Passes-tested test (some (string t)) u h = elim (Bool-cases (test t)) [
  | inl passed ↦ let same : t ≡ u = ground arith in rw (← same) passed
  | inr failed ↦ absurd (ground arith)
]
Passes-tested test (some (primitive t)) u h = cc
Passes-tested test (some null) u h = cc
Passes-tested test (some (lines ts)) u h = cc
Passes-tested test (some (object b ps)) u h = cc
Passes-tested test (some (error n s ps)) u h = cc
Passes-tested test none u h = cc

Passes-or_else :
    (test : Text → Bool) (a b : Option Text)
    → Passes test a
    → Passes test b
    → Passes test (a or_else b)
Passes-or_else test none b p q = q
Passes-or_else test (some t) b p q = p

Passes-if :
    (test : Text → Bool) (b : Bool) (o : Option Text)
    → Passes test o
    → Passes test (if b then o else none)
Passes-if test true o p u h = p u h
Passes-if test false o p u h = cc

Passes-sql_state_of : (value : Option Datum) → Passes is_sql_state (sql_state_of value)
unfolding sql_state_of
Passes-sql_state_of value =
    let meta = field value (codes "meta") in
    let cause = field (field meta (codes "driverAdapterError")) (codes "cause") in
    let own = field value (codes "code") in
    let of_pg = is_postgres_error_response value in
    Passes-or_else is_sql_state (as_sql_state (field meta (codes "code"))) _
      (Passes-tested is_sql_state (field meta (codes "code")))
      (Passes-or_else is_sql_state (as_sql_state (field cause (codes "originalCode")))
        (if of_pg then as_sql_state own else none)
        (Passes-tested is_sql_state (field cause (codes "originalCode")))
        (Passes-if is_sql_state of_pg (as_sql_state own) (Passes-tested is_sql_state own)))

safe-of_sql_state : (o : Option Text) → Passes is_sql_state o → Passes is_safe_code o
unfolding is_safe_code
safe-of_sql_state o p u h = rw (p u h) refl

-- What a record of an error may hold: a class name that looks like one, and codes of the database.
pub record IsSafe (e : SanitizedError) : Type 0 where
  pub type_safe : is_safe_name e.error_type ≡ true
  pub code_safe : Passes is_safe_code e.code
  pub state_safe : Passes is_sql_state e.sql_state

-- Whatever an error's message, name, stack, cause and properties are, its sanitised form has a class
-- name that passes SAFE_NAME, a code, if there is one, that passes SAFE_CODE, and an SQLSTATE, if
-- there is one, that passes SQLSTATE.
pub sanitize_error-IsSafe :
    (name : Text) (stack : Option Text) (ps : Properties)
    → IsSafe (sanitize_error (error name stack ps))
unfolding sanitize_error is_safe_name
sanitize_error-IsSafe name stack ps =
    let value : Option Datum = some (error name stack ps) in
    let cause = lookup (codes "cause") ps in
    let state =
      Passes-or_else is_sql_state (sql_state_of (some (error name stack ps))) (sql_state_of cause)
        (Passes-sql_state_of value) (Passes-sql_state_of cause) in
    record {
      type_safe = elim (Bool-cases (is_safe_name name)) [
        | inl safe ↦ rw safe safe
        | inr unsafe ↦ rw unsafe refl
      ];
      code_safe =
          Passes-or_else is_safe_code _ (safe_code value or_else safe_code cause)
            (safe-of_sql_state _ state)
            (Passes-or_else is_safe_code (safe_code value) (safe_code cause)
              (Passes-tested is_safe_code (field value (codes "code")))
              (Passes-tested is_safe_code (field cause (codes "code"))));
      state_safe = state;
    }

prefixed-unreserved : (key : Text) → is_reserved_log_key (reserved_key_prefix ++ key) ≡ false
unfolding is_reserved_log_key reserved_log_keys
prefixed-unreserved key = refl

safe_key-unreserved : (key : Text) → is_reserved_log_key (safe_key key) ≡ false
safe_key-unreserved key = elim (Bool-cases (is_reserved_log_key key)) [
  | inl reserved ↦ rw reserved (prefixed-unreserved key)
  | inr free ↦ rw free free
]

-- Not an Error itself.
abbrev pub is_error : Datum → Bool
is_error (error name stack ps) = true
is_error _ = false

sanitize_value-plain : (v : Datum) → is_error (sanitize_value v) ≡ false
sanitize_value-plain (string t) = refl
sanitize_value-plain (primitive t) = refl
sanitize_value-plain null = refl
sanitize_value-plain (lines ts) = refl
sanitize_value-plain (object b ps) = refl
sanitize_value-plain (error n s ps) = refl

-- A detail that a record may have.
abbrev pub Recordable : Text → Datum → Type 0
Recordable key value = (is_reserved_log_key key ≡ false) × (is_error value ≡ false)

Each-assign :
    (key : Text) (value : Datum) (ps : Properties)
    → Recordable key value
    → Each Recordable ps
    → Each Recordable (assign key value ps)
unfolding assign
Each-assign key value no_properties r h = (r, tt)
Each-assign key value (property k v rest) r (p, h) = elim (Bool-cases (text_eq k key)) [
  | inl same ↦ rw same ((p.0, r.1), h)
  | inr other ↦ rw other (p, Each-assign key value rest r h)
]

Each-set_property :
    (key : Text) (value : Datum) (ps : Properties)
    → Recordable key value
    → Each Recordable ps
    → Each Recordable (set_property key value ps)
Each-set_property key value ps r h = elim (Bool-cases (text_eq key (codes "__proto__"))) [
  | inl proto ↦ rw proto h
  | inr other ↦ rw other (Each-assign key value ps r h)
]

Each-sanitize_onto :
    (safe details : Properties)
    → Each Recordable safe
    → Each Recordable (sanitize_onto safe details)
unfolding sanitize_onto
Each-sanitize_onto safe no_properties h = h
Each-sanitize_onto safe (property key value rest) h =
    Each-sanitize_onto (set_property (safe_key key) (sanitize_value value) safe) rest (
      Each-set_property (safe_key key) (sanitize_value value) safe
        (safe_key-unreserved key, sanitize_value-plain value) h)

-- Whatever details a caller logs, no key of the sanitised details is one of the logger's own, and no
-- value of them is an Error.
pub sanitize_details-Recordable :
    (details : Option Properties) → Each Recordable (sanitize_details details)
unfolding sanitize_details
sanitize_details-Recordable none = tt
sanitize_details-Recordable (some details) = Each-sanitize_onto no_properties details tt
