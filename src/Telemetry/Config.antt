-- ===== src/Telemetry/Config.antt =====
-- `apps/api/src/telemetry/config.ts`: the rules across the telemetry variables, and the typed
-- configurations. `URL` and `decodeURIComponent` are parameters.
pub mod Headers
pub mod Laws
use scos.Prelude.{
  ℕ, zero, suc, Bool, true, false, not, ◌&&◌, ◌||◌, Option, some, none, List, [], ◌∷◌, ◌++◌, length,
  ltb, if◌then◌else◌, Text, codes, text_eq,
}
use scos.Persistence.Failures.{ends_with}

-- What `URL` says of a text that it can parse.
pub record ParsedUrl : Type 0 where
  pub protocol : Text
  pub hostname : Text
  pub username : Text
  pub password : Text

pub record Urls : Type 0 where
  pub parse : Text → Option ParsedUrl

-- A raw value of a variable; `missing` is undefined.
pub data RawValue : Type 0 where
  raw_text : Text → RawValue
  raw_number : ℕ → RawValue
  missing : RawValue

-- The raw values that the rules read.
pub record RawTelemetry : Type 0 where
  pub otel_sdk_disabled : RawValue
  pub otel_traces_exporter : RawValue
  pub otel_metrics_exporter : RawValue
  pub otel_exporter_otlp_endpoint : RawValue
  pub otel_exporter_otlp_traces_endpoint : RawValue
  pub otel_exporter_otlp_metrics_endpoint : RawValue
  pub otel_metric_export_interval : RawValue
  pub otel_metric_export_timeout : RawValue

-- An issue that a rule adds: the variable and the message.
pub record EnvironmentIssue : Type 0 where
  pub variable : Text
  pub message : Text

-- The parsed variables; `N` is the type of the ratio.
pub record TelemetryData (N : Type 0) : Type 0 where
  pub otel_sdk_disabled : Text
  pub otel_service_name : Text
  pub service_version : Option Text
  pub deployment_environment : Text
  pub log_level : Text
  pub otel_traces_exporter : Text
  pub otel_metrics_exporter : Text
  pub otel_traces_sampler_arg : N
  pub otel_exporter_otlp_protocol : Text
  pub otel_exporter_otlp_endpoint : Option Text
  pub otel_exporter_otlp_traces_endpoint : Option Text
  pub otel_exporter_otlp_metrics_endpoint : Option Text
  pub otel_exporter_otlp_timeout : ℕ
  pub otel_metric_export_interval : ℕ
  pub otel_metric_export_timeout : ℕ

pub record TelemetryResource : Type 0 where
  pub service_name : Text
  pub service_version : Text
  pub deployment_environment : Text

pub record TelemetryConfig (N : Type 0) : Type 0 where
  pub enabled : Bool
  pub resource : TelemetryResource
  pub log_level : Text
  pub otlp_protocol : Text
  pub otlp_timeout_ms : ℕ
  pub traces_exporter : Text
  pub traces_endpoint : Option Text
  pub sampler_ratio : N
  pub metrics_exporter : Text
  pub metrics_endpoint : Option Text
  pub export_interval_ms : ℕ
  pub export_timeout_ms : ℕ

-- PACKAGE_VERSION
abbrev pub package_version : Text
package_version = codes "0.0.0"

-- DEFAULT_OTLP_ENDPOINT
abbrev pub default_otlp_endpoint : Text
default_otlp_endpoint = codes "http://localhost:4318"

abbrev pub endpoint_error : Text
endpoint_error = codes "must be an http:// or https:// URL with a host and no credentials"

abbrev pub is_raw : RawValue → Text → Bool
is_raw (raw_text t) u = text_eq t u
is_raw v u = false

abbrev pub is_string : RawValue → Bool
is_string (raw_text t) = true
is_string v = false

abbrev pub is_otlp : RawValue → Bool
is_otlp v = is_raw v (codes "otlp")

-- Whether a signal has no endpoint of its own.
abbrev pub needs_common : RawTelemetry → Bool
needs_common value =
    is_otlp value.otel_traces_exporter && not (is_string value.otel_exporter_otlp_traces_endpoint)
    || is_otlp value.otel_metrics_exporter
      && not (is_string value.otel_exporter_otlp_metrics_endpoint)

abbrev pub only_if : Bool → List EnvironmentIssue → List EnvironmentIssue
only_if b issues = if b then issues else []

abbrev pub exceeds_interval : RawValue → RawValue → Bool
exceeds_interval (raw_number timeout) (raw_number interval) = ltb interval timeout
exceeds_interval _ _ = false

module _ ⦃urls : Urls⦄ where
  abbrev pub is_plain_url : Option ParsedUrl → Bool
  is_plain_url none = false
  is_plain_url (some url) =
      (text_eq url.protocol (codes "http:") || text_eq url.protocol (codes "https:"))
      && ltb 0 (length url.hostname)
      && text_eq url.username []
      && text_eq url.password []

  -- `isOtlpEndpoint`
  unfoldable pub is_otlp_endpoint : Text → Bool
  is_otlp_endpoint value = is_plain_url (urls.parse value)

  -- `check`: the issue of an endpoint, if it has one.
  unfoldable pub check : Text → RawValue → List EnvironmentIssue
  unfolding is_otlp_endpoint
  check variable (raw_text endpoint) =
      if not (is_otlp_endpoint endpoint)
      then record { variable = variable; message = endpoint_error } ∷ []
      else []
  check variable (raw_number n) = []
  check variable missing = []

  -- The rules: the common endpoint, the endpoints of the signals, and the timeout of an export.
  abbrev pub common_issues : RawTelemetry → List EnvironmentIssue
  common_issues value =
      only_if (needs_common value)
        (check (codes "OTEL_EXPORTER_OTLP_ENDPOINT") value.otel_exporter_otlp_endpoint)

  abbrev pub traces_issues : RawTelemetry → List EnvironmentIssue
  traces_issues value =
      only_if (is_otlp value.otel_traces_exporter) (
        check (codes "OTEL_EXPORTER_OTLP_TRACES_ENDPOINT") value.otel_exporter_otlp_traces_endpoint)

  abbrev pub metrics_issues : RawTelemetry → List EnvironmentIssue
  metrics_issues value = only_if (is_otlp value.otel_metrics_exporter) (
      check (codes "OTEL_EXPORTER_OTLP_METRICS_ENDPOINT") value.otel_exporter_otlp_metrics_endpoint)

  abbrev pub timeout_issues : RawTelemetry → List EnvironmentIssue
  timeout_issues value =
      only_if
        (not (is_raw value.otel_metrics_exporter (codes "none"))
          && exceeds_interval value.otel_metric_export_timeout value.otel_metric_export_interval)
        (record {
          variable = codes "OTEL_METRIC_EXPORT_TIMEOUT";
          message = codes "must not exceed OTEL_METRIC_EXPORT_INTERVAL";
        }
          ∷ [])

  -- `refineTelemetry`; the issues in the order that they are added.
  unfoldable pub refine_telemetry : RawTelemetry → List EnvironmentIssue
  unfolding check
  refine_telemetry value =
      if is_raw value.otel_sdk_disabled (codes "true")
      then []
      else common_issues value
        ++ traces_issues value
        ++ metrics_issues value
        ++ timeout_issues value

abbrev pub or_default : {A : Type 0} → Option A → A → A
or_default none fallback = fallback
or_default (some a) fallback = a

-- `signalUrl`
unfoldable pub signal_url : Text → Text → Text
signal_url base path = (if ends_with base (codes "/") then base else base ++ codes "/") ++ path

abbrev pub endpoint_if_otlp : Text → Text → Option Text
endpoint_if_otlp exporter endpoint = if text_eq exporter (codes "otlp") then some endpoint else none

-- `toTelemetryConfig`
unfoldable pub to_telemetry_config : {N : Type 0} → TelemetryData N → TelemetryConfig N
unfolding signal_url
to_telemetry_config data_of =
    let base = or_default data_of.otel_exporter_otlp_endpoint default_otlp_endpoint in
    record {
      enabled = not (text_eq data_of.otel_sdk_disabled (codes "true"));
      resource = record {
        service_name = data_of.otel_service_name;
        service_version = or_default data_of.service_version package_version;
        deployment_environment = data_of.deployment_environment;
      };
      log_level = data_of.log_level;
      otlp_protocol = data_of.otel_exporter_otlp_protocol;
      otlp_timeout_ms = data_of.otel_exporter_otlp_timeout;
      traces_exporter = data_of.otel_traces_exporter;
      traces_endpoint = endpoint_if_otlp data_of.otel_traces_exporter (
          or_default data_of.otel_exporter_otlp_traces_endpoint
            (signal_url base (codes "v1/traces")));
      sampler_ratio = data_of.otel_traces_sampler_arg;
      metrics_exporter = data_of.otel_metrics_exporter;
      metrics_endpoint = endpoint_if_otlp data_of.otel_metrics_exporter (
          or_default data_of.otel_exporter_otlp_metrics_endpoint
            (signal_url base (codes "v1/metrics")));
      export_interval_ms = data_of.otel_metric_export_interval;
      export_timeout_ms = data_of.otel_metric_export_timeout;
    }
