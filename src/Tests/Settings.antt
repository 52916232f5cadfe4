-- ===== src/Tests/Settings.antt =====
-- Telemetry variables of a service that exports its traces, and a secret with two headers.
use scos.Prelude.{ℕ, ◌≡◌, ◌≢◌, refl, true, some, none, List, [], ◌∷◌, All, length, codes, Text}
use scos.Telemetry.Config.{
  Urls, TelemetryData, to_telemetry_config, refine_telemetry, check, is_otlp_endpoint,
}
use scos.Telemetry.Config.Laws.{raw_of, IsUsable, to_telemetry_config-IsUsable}
use scos.Telemetry.Config.Headers.{
  UriDecoder, parse_otlp_headers, parse_pairs, split_commas, split_pair, is_header_name,
  assign_header,
}
use scos.Telemetry.Config.Headers.Laws.{IsHeader, parse_otlp_headers-IsHeader}
use scos.Ordering.Key.{trim, trim_start, reverse_onto, is_white_space}

-- Every text is a URL of the same host.
instance abbrev one_host : Urls
one_host = record {
  parse = λ t. some (record {
    protocol = codes "https:";
    hostname = codes "collector";
    username = [];
    password = [];
  });
}

-- Nothing is encoded.
instance abbrev plain_uri : UriDecoder
plain_uri = record { decode = some }

abbrev variables : TelemetryData ℕ
variables = record {
  otel_sdk_disabled = codes "false";
  otel_service_name = codes "scos-api";
  service_version = none;
  deployment_environment = codes "local";
  log_level = codes "info";
  otel_traces_exporter = codes "otlp";
  otel_metrics_exporter = codes "console";
  otel_traces_sampler_arg = 1;
  otel_exporter_otlp_protocol = codes "http/protobuf";
  otel_exporter_otlp_endpoint = some (codes "https://collector/");
  otel_exporter_otlp_traces_endpoint = none;
  otel_exporter_otlp_metrics_endpoint = none;
  otel_exporter_otlp_timeout = 10_000;
  otel_metric_export_interval = 60_000;
  otel_metric_export_timeout = 30_000;
}

is_enabled : (to_telemetry_config variables).enabled ≡ true
unfolding to_telemetry_config
is_enabled = refl

has_no_issue : refine_telemetry (raw_of variables) ≡ []
unfolding refine_telemetry check is_otlp_endpoint
has_no_issue = refl

to_telemetry_config-IsUsable_example : IsUsable variables (to_telemetry_config variables)
to_telemetry_config-IsUsable_example =
    to_telemetry_config-IsUsable variables is_enabled has_no_issue

abbrev secret : Text
secret = codes "Authorization=Basic abc, ,X-Team=scos"

abbrev two_headers : List (Text × Text)
two_headers = (codes "authorization", codes "Basic abc") ∷ (codes "x-team", codes "scos") ∷ []

parses_secret : parse_otlp_headers secret ≡ some two_headers
unfolding parse_otlp_headers parse_pairs split_commas split_pair is_header_name assign_header trim
    trim_start reverse_onto is_white_space
parses_secret = refl

parse_otlp_headers-IsHeader_example : (length two_headers ≢ 0) × All IsHeader two_headers
parse_otlp_headers-IsHeader_example = parse_otlp_headers-IsHeader secret two_headers parses_secret
