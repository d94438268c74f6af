-- ===== src/Validator.antt =====
-- internal/validator/validator.go: the two levels of checks of a configuration. What the parser of
-- YAML makes of a text is a parameter, over the values of Agent/Subset, and so is what comes of
-- the collector's binary with its arguments, in which the temporary file is called `config_file`.
pub mod Verdict
use cadenza.Prelude.{
  Bool, true, false, not, ◌&&◌, ◌||◌, ◌==◌, List, [], ◌∷◌, ◌++◌, Option, none, some, String, Bytes,
  bytes, bytes_eq, if◌then◌else◌,
}
use cadenza.Agent.Subset.{Value, text, plain, sequence, mapping, Fields, field_of}

-- What a text is to the parser: no mapping with texts as keys, nothing, or a mapping.
pub data Document : Type 0 where
  syntax_error empty_document : Document
  document : Fields → Document

-- What comes of a run of the binary: the temporary file could not be written, there is no binary,
-- it reports an error, it could not be run, or it accepts the file.
pub data Outcome : Type 0 where
  no_temporary_file no_binary exit_error no_run accepted : Outcome

pub data Problem : Type 0 where
  not_yaml empty_config no_service no_pipelines otelcol_failed : Problem

pub data Warning : Type 0 where
  section_missing : String → Warning
  not_configured unavailable : Warning
  failed_anyway : List Problem → Warning

pub data Method : Type 0 where
  by_yaml by_otelcol : Method

pub record Result : Type 0 where
  pub valid : Bool
  pub errors : List Problem
  pub warnings : List Warning
  pub method : Method

abbrev pub rejected_as : Problem → Result
rejected_as p = record { valid = false; errors = p ∷ []; warnings = []; method = by_yaml }

abbrev pub as_mapping : Option Value → Option Fields
as_mapping (some (mapping fields)) = some fields
as_mapping _ = none

abbrev pub missing_section : Fields → String → List Warning
missing_section doc section = elim (field_of section doc) [
  | none ↦ section_missing section ∷ []
  | some v ↦ []
]

abbrev pub with_sections : Fields → Option Fields → Result
with_sections doc none = rejected_as no_pipelines
with_sections doc (some pipelines) = record {
  valid = true;
  errors = [];
  warnings = missing_section doc "receivers" ++ missing_section doc "exporters";
  method = by_yaml;
}

abbrev pub with_service : Fields → Option Fields → Result
with_service doc none = rejected_as no_service
with_service doc (some service) = with_sections doc (as_mapping (field_of "pipelines" service))

unfoldable pub validate_yaml : Document → Result
unfolding field_of
validate_yaml syntax_error = rejected_as not_yaml
validate_yaml empty_document = rejected_as empty_config
validate_yaml (document doc) = with_service doc (as_mapping (field_of "service" doc))

abbrev pub starts_with : Bytes → Bytes → Bool
starts_with [] s = true
starts_with (p ∷ ps) [] = false
starts_with (p ∷ ps) (c ∷ s) = p == c && starts_with ps s

-- strings.Contains
unfoldable pub contains : Bytes → Bytes → Bool
contains [] part = starts_with part []
contains (c ∷ s) part = starts_with part (c ∷ s) || contains s part

abbrev pub config_file : Bytes
config_file = bytes "config_file"

-- The arguments of the binary.
unfoldable pub otelcol_args : Bytes → List Bytes
unfolding contains
otelcol_args content =
    bytes "validate"
    ∷ bytes "--config"
    ∷ config_file
    ∷ (if contains content (bytes "opamp")
        then bytes "--feature-gates" ∷ bytes "extension.opampextension.RemoteRestarts" ∷ []
        else [])

-- What is learned of the configuration; nothing where the run failed for another reason.
abbrev pub deep_result : Outcome → Option (Bool × List Problem)
deep_result accepted = some (true, [])
deep_result exit_error = some (false, otelcol_failed ∷ [])
deep_result _ = none

abbrev pub warn : Warning → Result → Result
warn w res = record res { warnings = res.warnings ++ w ∷ [] }

-- The verdict of the second level, by whether it blocks.
abbrev pub deepen : Bool → Option (Bool × List Problem) → Result → Result
deepen strict none res = warn unavailable res
deepen true (some (valid, errors)) res = record res {
  valid = valid;
  errors = res.errors ++ errors;
  method = by_otelcol;
}
deepen false (some (true, errors)) res = record res { method = by_otelcol }
deepen false (some (false, errors)) res =
    warn (failed_anyway errors) (record res { method = by_otelcol })

module _ (otelcol : Bytes → List Bytes → Bytes → Outcome) where
  unfoldable pub validate_with_otelcol : Bytes → Bytes → Option (Bool × List Problem)
  unfolding otelcol_args
  validate_with_otelcol bin content = deep_result (otelcol bin (otelcol_args content) content)

  unfoldable pub validate : (Bytes → Document) → Bytes → Bytes → Bool → Result
  unfolding validate_yaml validate_with_otelcol
  validate parse content bin strict =
      let res = validate_yaml (parse content) in
      if not res.valid
      then res
      else if bytes_eq bin []
      then warn not_configured res
      else deepen strict (validate_with_otelcol bin content) res
