-- ===== src/Validator/Verdict.antt =====
-- internal/validator/validator.go: which configurations are accepted.
use cadenza.Prelude.{
  ◌≡◌, refl, ◌↔◌, Bool, true, false, not, ◌&&◌, List, [], Option, none, some, Bytes, bytes_eq,
  if◌then◌else◌, arith, subst,
}
use cadenza.Agent.Subset.{Value, text, plain, sequence, mapping, Fields, field_of}
use cadenza.Validator.{
  Document, syntax_error, empty_document, document, Outcome, no_temporary_file, no_binary,
  exit_error, no_run, accepted, Result, validate_yaml, validate, validate_with_otelcol,
  otelcol_args, as_mapping, with_service, with_sections, deepen, warn, not_configured, deep_result,
}

-- A mapping with a mapping `service` that has a mapping `pipelines`.
pub HasPipelines : Document → Type 0
HasPipelines d =
    (doc service pipelines : Fields) × (d ≡ document doc)
    × (field_of "service" doc ≡ some (mapping service))
    × (field_of "pipelines" service ≡ some (mapping pipelines))

as_mapping_iff : (o : Option Value) (f : Fields) → (as_mapping o ≡ some f) ↔ (o ≡ some (mapping f))
as_mapping_iff none f = (λ h. cc, λ h. cc)
as_mapping_iff (some (text s)) f = (λ h. cc, λ h. cc)
as_mapping_iff (some (plain s)) f = (λ h. cc, λ h. cc)
as_mapping_iff (some (sequence s)) f = (λ h. cc, λ h. cc)
as_mapping_iff (some (mapping g)) f = (λ h. cc, λ h. cc)

with_sections-valid :
    (doc : Fields) (o : Option Fields)
    → (with_sections doc o).valid ≡ true
    → (f : Fields) × (o ≡ some f)
with_sections-valid doc none h = cc
with_sections-valid doc (some f) h = (f, refl)

with_service-valid :
    (doc : Fields) (o : Option Fields)
    → (with_service doc o).valid ≡ true
    → (service pipelines : Fields) × (o ≡ some service)
      × (field_of "pipelines" service ≡ some (mapping pipelines))
with_service-valid doc none h = cc
with_service-valid doc (some service) h =
    let (p, found) = with_sections-valid doc (as_mapping (field_of "pipelines" service)) h in
    (service, p, refl, (as_mapping_iff (field_of "pipelines" service) p).0 found)

validate_yaml_iff : (d : Document) → ((validate_yaml d).valid ≡ true) ↔ HasPipelines d
unfolding validate_yaml HasPipelines
validate_yaml_iff d = (there d, back)
  where
    there : (d : Document) → (validate_yaml d).valid ≡ true → HasPipelines d
    there syntax_error h = cc
    there empty_document h = cc
    there (document doc) h =
        let (service, p, found, has) =
          with_service-valid doc (as_mapping (field_of "service" doc)) h in
        (doc, service, p, refl, (as_mapping_iff (field_of "service" doc) service).0 found, has)

    back : HasPipelines d → (validate_yaml d).valid ≡ true
    back (doc, service, p, is_doc, has_service, has_pipelines) =
        rw (is_doc, validate_yaml, has_service, has_pipelines) refl

-- A result is valid exactly where it has no errors.
abbrev pub IsSettled : Result → Type 0
IsSettled r = (r.valid ≡ true) ↔ (r.errors ≡ [])

validate_yaml-IsSettled : (d : Document) → IsSettled (validate_yaml d)
unfolding validate_yaml
validate_yaml-IsSettled syntax_error = (λ h. cc, λ h. cc)
validate_yaml-IsSettled empty_document = (λ h. cc, λ h. cc)
validate_yaml-IsSettled (document doc) = by_service (as_mapping (field_of "service" doc))
  where
    by_pipelines : (o : Option Fields) → IsSettled (with_sections doc o)
    by_pipelines none = (λ h. cc, λ h. cc)
    by_pipelines (some p) = (λ h. refl, λ h. refl)

    by_service : (o : Option Fields) → IsSettled (with_service doc o)
    by_service none = (λ h. cc, λ h. cc)
    by_service (some s) = by_pipelines (as_mapping (field_of "pipelines" s))

abbrev pub reports_error : Outcome → Bool
reports_error exit_error = true
reports_error _ = false

-- The verdict, and whether it agrees with the errors.
abbrev Fits : Bool → Result → Type 0
Fits blocked r = ((r.valid ≡ true) ↔ (blocked ≡ false)) × IsSettled r

deepen-Fits :
    (strict : Bool) (outcome : Outcome) (res : Result)
    → res.valid ≡ true
    → res.errors ≡ []
    → Fits (strict && reports_error outcome) (deepen strict (deep_result outcome) res)
deepen-Fits true accepted res v e = ground arith
deepen-Fits false accepted res v e = ground arith
deepen-Fits true exit_error res v e = ground arith
deepen-Fits false exit_error res v e = ground arith
deepen-Fits true no_run res v e = ground arith
deepen-Fits false no_run res v e = ground arith
deepen-Fits true no_binary res v e = ground arith
deepen-Fits false no_binary res v e = ground arith
deepen-Fits true no_temporary_file res v e = ground arith
deepen-Fits false no_temporary_file res v e = ground arith

module _ (otelcol : Bytes → List Bytes → Bytes → Outcome) (bin content : Bytes)
    (strict : Bool) where
  -- The second level blocks: it is to, there is a binary, and the binary reports an error.
  abbrev pub blocks : Bool
  blocks =
      strict && not (bytes_eq bin []) && reports_error (otelcol bin (otelcol_args content) content)

  module _ (parse : Bytes → Document) where
    abbrev Wanted : Result → Type 0
    Wanted r = ((r.valid ≡ true) ↔ (HasPipelines (parse content) × (blocks ≡ false))) × IsSettled r

    from_Fits : (r : Result) → HasPipelines (parse content) → Fits blocks r → Wanted r
    from_Fits r has ((a, b), settled) = ((λ v. (has, a v), λ h. b h.1), settled)

    verdict :
        (valid empty : Bool)
        → (validate_yaml (parse content)).valid ≡ valid
        → bytes_eq bin [] ≡ empty
        → let res = validate_yaml (parse content) in
          Wanted (
            if not valid
            then res
            else if empty
            then warn not_configured res
            else deepen strict (validate_with_otelcol otelcol bin content) res)
    unfolding validate_with_otelcol
    verdict false empty v e =
        let has = validate_yaml_iff (parse content) in
        (
          (λ h. absurd (cc (h, v)), λ h. absurd (cc (has.1 h.0, v))),
          validate_yaml-IsSettled (parse content),
        )
    verdict true true v e =
        let res = validate_yaml (parse content) in
        from_Fits (warn not_configured res) ((validate_yaml_iff (parse content)).0 v)
          ((λ h. ground arith, λ h. v), validate_yaml-IsSettled (parse content))
    verdict true false v e =
        let res = validate_yaml (parse content) in
        let outcome = otelcol bin (otelcol_args content) content in
        let same : strict && reports_error outcome ≡ blocks = ground arith in
        from_Fits (deepen strict (deep_result outcome) res)
          ((validate_yaml_iff (parse content)).0 v)
          (subst (λ b. Fits b (deepen strict (deep_result outcome) res)) same
            (deepen-Fits strict outcome res v ((validate_yaml-IsSettled (parse content)).0 v)))

    -- A configuration is accepted exactly where it is a mapping with a mapping `service` that has a
    -- mapping `pipelines`, and the second level does not block it, which takes the strict setting,
    -- a binary, and an error that the binary reports. It is accepted exactly where no error is
    -- listed.
    pub validate_iff :
        let r = validate otelcol parse content bin strict in
        ((r.valid ≡ true) ↔ (HasPipelines (parse content) × (blocks ≡ false)))
        × ((r.valid ≡ true) ↔ (r.errors ≡ []))
    unfolding validate
    validate_iff = verdict (validate_yaml (parse content)).valid (bytes_eq bin []) refl refl
