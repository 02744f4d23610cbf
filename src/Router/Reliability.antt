-- ===== src/Router/Reliability.antt =====
-- `extractReliabilityMetadata` of services/impl/router_service_impl.go.
use tas_agent_builder.Base.{
  ◌-◌, if◌then◌else◌, ◌&&◌, ltb, Bool, false, Str, codes, str_eq, List, [], ◌∷◌, Option, none, some,
  length, drop, ℤ, pos, ◌-ℤ◌, quot_ℤ,
}
use tas_agent_builder.Floats.{Float, FloatOps}
use tas_agent_builder.Json.{
  Fields, Value, Items, nil, cons, text, array, number, get_field, as_text, as_boolean,
}

pub record ReliabilityMetadata : Type 0 where
  pub retry_attempts : ℤ
  pub fallback_used : Bool
  pub failed_providers : List Str
  pub total_retry_time : ℤ
  pub provider_latency : ℤ
  pub routing_reason : List Str

-- `v.(float64)` and `v.([]interface{})`.
unfoldable pub as_number : Option Value → Option Float
as_number (some (number x)) = some x
as_number _ = none

unfoldable pub texts_of_items : Items → List Str
texts_of_items nil = []
texts_of_items (cons (text s) rest) = s ∷ texts_of_items rest
texts_of_items (cons _ rest) = texts_of_items rest

unfoldable pub texts_of : Option Value → List Str
unfolding texts_of_items
texts_of (some (array items)) = texts_of_items items
texts_of _ = []

-- Milliseconds of a text like "180ms"; 0 without that ending or where it does not parse.
unfoldable pub latency_of : (Str → Option ℤ) → Option Str → ℤ
latency_of parse_duration none = pos 0
latency_of parse_duration (some s) =
    if ltb 2 (length s) && str_eq (drop (length s - 2) s) (codes "ms")
    then elim (parse_duration s) [ some d ↦ quot_ℤ d 1_000_000 | none ↦ pos 0 ]
    else pos 0

unfoldable pub extract_reliability_metadata :
    FloatOps → (Str → Option ℤ) → Option Fields → ReliabilityMetadata
extract_reliability_metadata f parse_duration none = record {
  retry_attempts = pos 0;
  fallback_used = false;
  failed_providers = [];
  total_retry_time = pos 0;
  provider_latency = pos 0;
  routing_reason = [];
}
extract_reliability_metadata f parse_duration (some m) = record {
  retry_attempts = elim (as_number (get_field (codes "attempt_count") m)) [
    | some x ↦ f.to_int x -ℤ pos 1
    | none ↦ pos 0
  ];
  fallback_used = elim (as_boolean (get_field (codes "fallback_used") m)) [
    | some b ↦ b
    | none ↦ false
  ];
  failed_providers = texts_of (get_field (codes "failed_providers") m);
  total_retry_time = elim (as_number (get_field (codes "total_retry_time") m)) [
    | some x ↦ f.to_int x
    | none ↦ pos 0
  ];
  provider_latency = latency_of parse_duration (as_text (get_field (codes "provider_latency") m));
  routing_reason = texts_of (get_field (codes "routing_reason") m);
}
