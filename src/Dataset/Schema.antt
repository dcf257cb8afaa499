-- ===== src/Dataset/Schema.antt =====
-- ml/domain/dataset_schema.py, lines 30 to 168: cells, their metadata, and targets. The floats are a
-- parameter `F`, with the tests that the code applies to them. A datetime is its microseconds and
-- whether it is timezone-aware.
use slope_monitoring.Common.{ℕ, String, Bool, true, false, not, ◌&&◌, Option, none, some, str_eq}
use slope_monitoring.Errors.{Result, ok, err, value_error, require, ◌>>◌}

pub data SourceKind : Type 0 where
  device external derived missing : SourceKind

pub data ValidationStatus : Type 0 where
  unverified provisional validated not_applicable unvalidated missing : ValidationStatus

pub record Datetime : Type 0 where
  pub at : ℕ
  pub is_aware : Bool

pub record FeatureDefinition : Type 0 where
  pub name : String
  pub unit : String

pub record FeatureMetadata : Type 0 where
  pub source_kind : SourceKind
  pub validation_status : ValidationStatus
  pub quality_flag : Option String
  pub source_file : Option String

unfoldable pub source_is_missing : SourceKind → Bool
source_is_missing SourceKind.missing = true
source_is_missing _ = false

unfoldable pub source_is_external : SourceKind → Bool
source_is_external SourceKind.external = true
source_is_external _ = false

unfoldable pub status_is_missing : ValidationStatus → Bool
status_is_missing ValidationStatus.missing = true
status_is_missing _ = false

-- FeatureDefinition.__post_init__
unfoldable pub new_definition : String → String → Result FeatureDefinition
new_definition name unit = do
  require (not (str_eq name "")) value_error
  require (not (str_eq unit "")) value_error
  ok (record { name = name; unit = unit })

-- FeatureMetadata.__post_init__
unfoldable pub new_metadata : FeatureMetadata → Result FeatureMetadata
unfolding source_is_missing status_is_missing
new_metadata m = do
  require (not (source_is_missing m.source_kind && not (status_is_missing m.validation_status)))
      value_error
  require (not (status_is_missing m.validation_status && not (source_is_missing m.source_kind)))
      value_error
  ok m

abbrev pub missing_metadata : FeatureMetadata
missing_metadata = record {
  source_kind = SourceKind.missing;
  validation_status = ValidationStatus.missing;
  quality_flag = some "missing";
  source_file = none;
}

unfoldable pub same_option : Option String → Option String → Bool
same_option none none = true
same_option none (some b) = false
same_option (some a) none = false
same_option (some a) (some b) = str_eq a b

-- metadata == MISSING_METADATA
unfoldable pub is_missing_metadata : FeatureMetadata → Bool
unfolding source_is_missing status_is_missing same_option
is_missing_metadata m =
    source_is_missing m.source_kind
    && status_is_missing m.validation_status
    && same_option m.quality_flag (some "missing")
    && same_option m.source_file none

pub record FeatureCell (F : Type 0) : Type 0 where
  pub value : Option F
  pub metadata : FeatureMetadata

pub record RegressionTarget (F : Type 0) : Type 0 where
  pub device_id : String
  pub quantity : String
  pub unit : String
  pub horizon_s : F
  pub target_timestamp_utc : Datetime
  pub value : Option F
  pub available : Bool
  pub source_kind : SourceKind
  pub validation_status : ValidationStatus
  pub provenance_ref : Option String

module _ (F : Type 0) (is_finite is_positive : F → Bool) where
  -- FeatureCell.__post_init__
  unfoldable pub new_cell : FeatureCell F → Result (FeatureCell F)
  unfolding is_missing_metadata
  new_cell c = elim c.value [
    | none ↦ do require (is_missing_metadata c.metadata) value_error; ok c
    | some v ↦ do
      require (is_finite v) value_error
      require (not (is_missing_metadata c.metadata)) value_error
      ok c
  ]

  unfoldable pub check_value : Bool → Option F → Result (Unit {0})
  check_value true none = err value_error
  check_value true (some v) = require (is_finite v) value_error
  check_value false none = ok tt
  check_value false (some v) = err value_error

  -- RegressionTarget.__post_init__
  unfoldable pub new_target : RegressionTarget F → Result (RegressionTarget F)
  unfolding check_value source_is_missing status_is_missing
  new_target t = do
    require (not (str_eq t.device_id "")) value_error
    require (not (str_eq t.quantity "")) value_error
    require (not (str_eq t.unit "")) value_error
    require t.target_timestamp_utc.is_aware value_error
    require (is_finite t.horizon_s) value_error
    require (is_positive t.horizon_s) value_error
    check_value t.available t.value
    require (not (source_is_missing t.source_kind)) value_error
    require (not (status_is_missing t.validation_status)) value_error
    ok t
