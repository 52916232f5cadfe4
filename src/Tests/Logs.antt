-- ===== src/Tests/Logs.antt =====
-- Log details with credentials, an error of the database and a key of the logger.
use scos.Prelude.{◌≡◌, refl, true, Option, some, none, [], ◌∷◌, codes}
use scos.Telemetry.LogRecord.{
  string, object, error, lines, Properties, no_properties, property, redact, sanitize_details,
  sanitize_error, redacted_keys, censor_keys, is_safe_name, is_sql_state, is_safe_code,
  sql_state_of,
}
use scos.Ordering.Key.{trim, trim_start, is_white_space}
use scos.Telemetry.LogRecord.Laws.{
  Each, Censored, CensoredInside, Recordable, IsSafe, redact-Censored, sanitize_error-IsSafe,
  sanitize_details-Recordable,
}

abbrev details : Properties
details =
    property (codes "headers")
      (object true (property (codes "cookie") (string (codes "id=1")) no_properties))
      (property (codes "token") (string (codes "abc")) no_properties)

redacts_headers :
    redact details
    ≡ property
        (codes "headers")
        (object true (property (codes "cookie") (string (codes "[REDACTED]")) no_properties))
        (property (codes "token") (string (codes "[REDACTED]")) no_properties)
unfolding redact censor_keys redacted_keys
redacts_headers = refl

redact-Censored_example :
    Each (λ key value. Censored key value × CensoredInside value) (redact details)
redact-Censored_example = redact-Censored details

abbrev lock_timeout : Properties
lock_timeout = property (codes "code") (string (codes "P2010")) (
    property (codes "meta")
      (object true (property (codes "code") (string (codes "55P03")) no_properties)) no_properties)

sanitizes_lock_timeout : sanitize_error (error (codes "a b") none lock_timeout) ≡ record {
  error_type = codes "Error";
  code = some (codes "55P03");
  sql_state = some (codes "55P03");
}
unfolding sanitize_error is_safe_name is_sql_state is_safe_code sql_state_of
sanitizes_lock_timeout = refl

sanitize_error-IsSafe_example : IsSafe (sanitize_error (error (codes "a b") none lock_timeout))
sanitize_error-IsSafe_example = sanitize_error-IsSafe (codes "a b") none lock_timeout

abbrev posing : Option Properties
posing = some (
    property (codes "level") (string (codes "info")) (
      property (codes "error")
        (error (codes "TypeError") (some (codes "TypeError: x\n    at f (a.js:1:2)")) no_properties)
        no_properties))

sanitizes_level :
    sanitize_details posing
    ≡ property (codes "detail.level") (string (codes "info")) (
        property
          (codes "error")
          (object true (
            property
              (codes "type")
              (string (codes "TypeError"))
              (property (codes "stack") (lines (codes "at f (a.js:1:2)" ∷ [])) no_properties)))
          no_properties)
unfolding sanitize_details is_safe_name trim_start is_white_space trim
sanitizes_level = refl

sanitize_details-Recordable_example : Each Recordable (sanitize_details posing)
sanitize_details-Recordable_example = sanitize_details-Recordable posing
