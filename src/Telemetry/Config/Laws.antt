-- ===== src/Telemetry/Config/Laws.antt =====
-- What an accepted telemetry configuration is.
use scos.Prelude.{
  ◌≤◌, ◌≡◌, refl, Bool, true, false, Option, some, none, List, [], ◌∷◌, ◌++◌, Text, codes, text_eq,
  arith,
}
use scos.Telemetry.Config.{
  Urls, RawValue, raw_text, raw_number, missing, RawTelemetry, EnvironmentIssue, TelemetryData,
  TelemetryConfig, is_otlp_endpoint, check, only_if, is_string, common_issues, traces_issues,
  metrics_issues, timeout_issues, needs_common, refine_telemetry, or_default, default_otlp_endpoint,
  signal_url, to_telemetry_config,
}

-- The raw values of parsed variables.
abbrev pub raw_option : Option Text → RawValue
raw_option none = missing
raw_option (some t) = raw_text t

abbrev pub raw_of : {N : Type 0} → TelemetryData N → RawTelemetry
raw_of v = record {
  otel_sdk_disabled = raw_text v.otel_sdk_disabled;
  otel_traces_exporter = raw_text v.otel_traces_exporter;
  otel_metrics_exporter = raw_text v.otel_metrics_exporter;
  otel_exporter_otlp_endpoint = raw_option v.otel_exporter_otlp_endpoint;
  otel_exporter_otlp_traces_endpoint = raw_option v.otel_exporter_otlp_traces_endpoint;
  otel_exporter_otlp_metrics_endpoint = raw_option v.otel_exporter_otlp_metrics_endpoint;
  otel_metric_export_interval = raw_number v.otel_metric_export_interval;
  otel_metric_export_timeout = raw_number v.otel_metric_export_timeout;
}

++-empty : (xs ys : List EnvironmentIssue) → xs ++ ys ≡ [] → (xs ≡ []) × (ys ≡ [])
++-empty [] ys h = (refl, h)
++-empty (x ∷ xs) ys h = cc

only_if-empty : (b : Bool) (xs : List EnvironmentIssue) → only_if b xs ≡ [] → b ≡ true → xs ≡ []
only_if-empty true xs h k = h
only_if-empty false xs h k = cc

module _ ⦃urls : Urls⦄ where
  -- Where an endpoint of a signal comes from: the variable of the signal, or the common one, or the
  -- default; a variable has an endpoint that is one.
  pub data IsEndpoint (specific common : Option Text) (path : Text) : Text → Type 0 where
    of_signal :
        (e : Text)
        → specific ≡ some e
        → is_otlp_endpoint e ≡ true
        → IsEndpoint specific common path e
    of_common :
        (base : Text)
        → specific ≡ none
        → common ≡ some base
        → is_otlp_endpoint base ≡ true
        → IsEndpoint specific common path (signal_url base path)
    of_default :
        specific ≡ none
        → common ≡ none
        → IsEndpoint specific common path (signal_url default_otlp_endpoint path)

  check-empty : (variable e : Text) → check variable (raw_text e) ≡ [] → is_otlp_endpoint e ≡ true
  unfolding check
  check-empty variable e h = ground arith

  IsEndpoint-of_checks :
      (specific common : Option Text) (path u v : Text)
      → check u (raw_option specific) ≡ []
      → (is_string (raw_option specific) ≡ false → check v (raw_option common) ≡ [])
      → IsEndpoint specific common path
          (or_default specific (signal_url (or_default common default_otlp_endpoint) path))
  IsEndpoint-of_checks (some e) common path u v h k = of_signal e refl (check-empty u e h)
  IsEndpoint-of_checks none (some base) path u v h k =
      of_common base refl refl (check-empty v base (k refl))
  IsEndpoint-of_checks none none path u v h k = of_default refl refl

  -- A configuration that the SDK can be started with.
  pub record IsUsable {N : Type 0} (v : TelemetryData N) (c : TelemetryConfig N) : Type 0 where
    pub traces_usable :
        text_eq c.traces_exporter (codes "otlp") ≡ true
        → (e : Text) × (c.traces_endpoint ≡ some e)
          × IsEndpoint v.otel_exporter_otlp_traces_endpoint v.otel_exporter_otlp_endpoint
              (codes "v1/traces")
              e
    pub metrics_usable :
        text_eq c.metrics_exporter (codes "otlp") ≡ true
        → (e : Text) × (c.metrics_endpoint ≡ some e)
          × IsEndpoint v.otel_exporter_otlp_metrics_endpoint v.otel_exporter_otlp_endpoint
              (codes "v1/metrics")
              e
    pub timeout_within :
        text_eq c.metrics_exporter (codes "none") ≡ false
        → c.export_timeout_ms ≤ c.export_interval_ms

  -- If the SDK is enabled and the rules add no issue, every exporter that is `otlp` has an endpoint,
  -- which comes from a variable that is checked or from the default, and the timeout of an export of
  -- metrics is at most their interval, unless they are not exported.
  pub to_telemetry_config-IsUsable :
      {N : Type 0} (v : TelemetryData N)
      → (to_telemetry_config v).enabled ≡ true
      → refine_telemetry (raw_of v) ≡ []
      → IsUsable v (to_telemetry_config v)
  unfolding to_telemetry_config refine_telemetry
  to_telemetry_config-IsUsable v on h =
      let enabled : text_eq v.otel_sdk_disabled (codes "true") ≡ false = ground arith in
      let raw = raw_of v in
      let issues : common_issues raw
            ++ traces_issues raw
            ++ metrics_issues raw
            ++ timeout_issues raw
          ≡ [] =
        rw enabled at h in
      let (rest, late) = ++-empty _ (timeout_issues raw) issues in
      let (rest', metrics) = ++-empty _ (metrics_issues raw) rest in
      let (common, traces) = ++-empty (common_issues raw) (traces_issues raw) rest' in
      record {
        traces_usable = λ otlp. (
          _,
          rw otlp refl,
          IsEndpoint-of_checks v.otel_exporter_otlp_traces_endpoint v.otel_exporter_otlp_endpoint
              (codes "v1/traces") _ (codes "OTEL_EXPORTER_OTLP_ENDPOINT")
              (only_if-empty _ _ traces otlp)
              (λ s. only_if-empty (needs_common raw) _ common (rw (otlp, s) refl)),
        );
        metrics_usable = λ otlp. (
          _,
          rw otlp refl,
          IsEndpoint-of_checks v.otel_exporter_otlp_metrics_endpoint v.otel_exporter_otlp_endpoint
              (codes "v1/metrics") _ (codes "OTEL_EXPORTER_OTLP_ENDPOINT")
              (only_if-empty _ _ metrics otlp)
              (λ s. only_if-empty (needs_common raw) _ common (ground (arith, otlp, s))),
        );
        timeout_within = λ exported. ground (arith, late, exported);
      }
