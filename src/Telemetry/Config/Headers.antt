-- ===== src/Telemetry/Config/Headers.antt =====
-- `apps/api/src/telemetry/config.ts`: OTEL_EXPORTER_OTLP_HEADERS, and the Worker's configuration.
pub mod Laws
use scos.Prelude.{
  ℕ, ◌+◌, Bool, true, false, not, ◌&&◌, ◌||◌, Option, some, none, List, [], ◌∷◌, all, length, leb,
  ltb, ◌==◌, if◌then◌else◌, Text, codes, text_eq,
}
use scos.Shipping.Allocation.{contains}
use scos.Ordering.Key.{trim}
use scos.Telemetry.Config.{TelemetryData, TelemetryConfig, TelemetryResource, to_telemetry_config}

-- `decodeURIComponent`; `none` is the URIError.
pub record UriDecoder : Type 0 where
  pub decode : Text → Option Text

-- HEADER_NAME: /^[!#$%&'*+.^_`|~0-9A-Za-z-]+$/
abbrev pub is_token_char : ℕ → Bool
is_token_char c =
    (leb b'0' c && leb c b'9')
    || (leb b'A' c && leb c b'Z')
    || (leb b'a' c && leb c b'z')
    || contains (c ∷ []) (
        codes "!"
        ∷ codes "#"
        ∷ codes "$"
        ∷ codes "%"
        ∷ codes "&"
        ∷ codes "'"
        ∷ codes "*"
        ∷ codes "+"
        ∷ codes "."
        ∷ codes "^"
        ∷ codes "_"
        ∷ codes "`"
        ∷ codes "|"
        ∷ codes "~"
        ∷ codes "-"
        ∷ [])

unfoldable pub is_header_name : Text → Bool
is_header_name name = ltb 0 (length name) && all is_token_char name

-- Neither of [\r\n\0]
abbrev pub is_value_char : ℕ → Bool
is_value_char c = not (c == b'\r' || c == b'\n' || c == 0)

abbrev pub extend_first : ℕ → List Text → List Text
extend_first c [] = (c ∷ []) ∷ []
extend_first c (t ∷ ts) = (c ∷ t) ∷ ts

-- `value.split(",")`
unfoldable pub split_commas : Text → List Text
split_commas [] = [] ∷ []
split_commas (c ∷ t) =
    let rest = split_commas t in if c == b',' then [] ∷ rest else extend_first c rest

-- The text before the first `=`, and what follows it, if there is one.
unfoldable pub split_pair : Text → Text × Option Text
split_pair [] = ([], none)
split_pair (c ∷ t) =
    let rest = split_pair t in if c == b'=' then ([], some t) else (c ∷ rest.0, rest.1)

-- `name.toLowerCase()` of an ASCII name
abbrev pub lower_char : ℕ → ℕ
lower_char c = if leb b'A' c && leb c b'Z' then c + 32 else c

abbrev pub to_lower : Text → Text
to_lower [] = []
to_lower (c ∷ t) = lower_char c ∷ to_lower t

-- `headers[name] = value`, for a name that is not `__proto__`
unfoldable pub assign_header : Text → Text → List (Text × Text) → List (Text × Text)
assign_header name value [] = (name, value) ∷ []
assign_header name value ((n, v) ∷ rest) =
    let after = assign_header name value rest in
    if text_eq n name then (n, value) ∷ rest else (n, v) ∷ after

-- The same for any name: `__proto__` sets the prototype, which is no header.
abbrev pub set_header : Text → Text → List (Text × Text) → List (Text × Text)
set_header name value headers =
    if text_eq name (codes "__proto__") then headers else assign_header name value headers

pub record WorkersTelemetryConfig (N : Type 0) : Type 0 where
  pub enabled : Bool
  pub resource : TelemetryResource
  pub log_level : Text
  pub otlp_protocol : Text
  pub otlp_timeout_ms : ℕ
  pub headers : List (Text × Text)
  pub traces_exporter : Text
  pub traces_endpoint : Option Text
  pub sampler_ratio : N
  pub metrics_exporter : Text
  pub metrics_endpoint : Option Text

module _ ⦃uri : UriDecoder⦄ where
  -- The tests of a decoded header.
  abbrev pub header_of : Text → Option Text → Option (Text × Text)
  header_of name none = none
  header_of name (some decoded) =
      if not (is_header_name name) || length decoded == 0 || not (all is_value_char decoded)
      then none
      else some (to_lower name, decoded)

  -- A pair that is not blank.
  abbrev pub parse_pair : Text × Option Text → Option (Text × Text)
  parse_pair (before, none) = none
  parse_pair (before, some after) =
      if length before == 0 then none else header_of (trim before) (uri.decode (trim after))

  -- The loop, with the headers so far; `none` is undefined.
  unfoldable pub parse_pairs : List (Text × Text) → List Text → Option (List (Text × Text))
  unfolding split_pair is_header_name assign_header
  parse_pairs headers [] = some headers
  parse_pairs headers (pair ∷ rest) =
      if length (trim pair) == 0
      then parse_pairs headers rest
      else elim (parse_pair (split_pair pair)) [
        | none ↦ none
        | some (name, value) ↦ parse_pairs (set_header name value headers) rest
      ]

  abbrev pub some_headers : Option (List (Text × Text)) → Option (List (Text × Text))
  some_headers none = none
  some_headers (some []) = none
  some_headers (some (h ∷ hs)) = some (h ∷ hs)

  -- `parseOtlpHeaders`
  unfoldable pub parse_otlp_headers : Text → Option (List (Text × Text))
  unfolding parse_pairs split_commas
  parse_otlp_headers value = some_headers (parse_pairs [] (split_commas value))

  abbrev pub headers_or_none : Option Text → List (Text × Text)
  headers_or_none none = []
  headers_or_none (some value) = elim (parse_otlp_headers value) [ some hs ↦ hs | none ↦ [] ]

  -- `toWorkersTelemetryConfig`, of the parsed variables; the metric interval and its timeout are not
  -- read on Workers.
  unfoldable pub to_workers_telemetry_config :
      {N : Type 0} → TelemetryData N → Option Text → WorkersTelemetryConfig N
  unfolding parse_otlp_headers to_telemetry_config
  to_workers_telemetry_config data_of otlp_headers =
      let shared = to_telemetry_config data_of in
      record {
        enabled = shared.enabled;
        resource = shared.resource;
        log_level = shared.log_level;
        otlp_protocol = shared.otlp_protocol;
        otlp_timeout_ms = shared.otlp_timeout_ms;
        headers = headers_or_none otlp_headers;
        traces_exporter = shared.traces_exporter;
        traces_endpoint = shared.traces_endpoint;
        sampler_ratio = shared.sampler_ratio;
        metrics_exporter = shared.metrics_exporter;
        metrics_endpoint = shared.metrics_endpoint;
      }
