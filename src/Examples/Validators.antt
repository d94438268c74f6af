-- ===== src/Examples/Validators.antt =====
-- internal/validator: a configuration for a collector.
use cadenza.Prelude.{◌≡◌, refl, ◌↔◌, true, false, [], List, Bytes, bytes, bytes_eq}
use cadenza.Agent.Subset.{mapping, Fields, no_fields, field}
use cadenza.Validator.{Document, document, Outcome, exit_error, validate}
use cadenza.Validator.Verdict.{HasPipelines, blocks, validate_iff}

abbrev sample : Fields
sample = field "service" (mapping (field "pipelines" (mapping no_fields) no_fields)) no_fields

abbrev parse : Bytes → Document
parse content = document sample

abbrev refusing : Bytes → List Bytes → Bytes → Outcome
refusing bin args content = exit_error

validate_iff_example :
    let r = validate refusing parse (bytes "service:") (bytes "otelcol") true in
    ((r.valid ≡ true) ↔ (
      HasPipelines (parse (bytes "service:"))
      × (blocks refusing (bytes "otelcol") (bytes "service:") true ≡ false)))
    × ((r.valid ≡ true) ↔ (r.errors ≡ []))
validate_iff_example = validate_iff refusing (bytes "otelcol") (bytes "service:") true parse

blocked : (validate refusing parse (bytes "service:") (bytes "otelcol") true).valid ≡ false
unfolding validate bytes_eq
blocked = refl
