-- ===== src/Packs.antt =====
-- The pack model (internal/packs/model.go) and the registry's lookups (internal/packs/registry.go).
-- A named string type with a closed set of constants is a data type of those constants.
pub mod Registry
pub mod Lookup
pub mod Validation
use cliharbor.Prelude.{ℕ, Bool, true, false, Option, List}
use cliharbor.Prelude.Int.{ℤ}
use cliharbor.Prelude.Text.{Text}
use cliharbor.Prelude.Dict.{Dict}

pub data Risk : Type 0 where
  read change destructive credential_sensitive interactive : Risk

-- `unset` is the empty string of an absent field.
pub data AuthMode : Type 0 where
  unset vendor_session : AuthMode

pub data InputType : Type 0 where
  string_input integer_input boolean_input enum_input multiselect_input secret_input : InputType
  other_input : Text → InputType

abbrev pub is_enum : InputType → Bool
is_enum enum_input = true
is_enum _ = false

pub data OutputMode : Type 0 where
  raw_output json_output ndjson_output delimited_output : OutputMode

pub data ImpactScope : Type 0 where
  single multiple : ImpactScope
  other_scope : Text → ImpactScope

-- An impact as the pack author writes it.
pub record Impact : Type 0 where
  pub target_input : Text
  pub target_label : Text
  pub effect : Text
  pub scope : ImpactScope

pub record Stdin : Type 0 where
  pub input : Text
  pub yaml_template : Text

pub record Requirements : Type 0 where
  pub requires_auth : Bool
  pub auth_mode : AuthMode

pub record InputValidation : Type 0 where
  pub min : Option ℤ
  pub max : Option ℤ
  pub min_length : Option ℤ
  pub max_length : Option ℤ
  pub pattern : Text
  pub allowed : List Text
  pub disallow_leading_dash : Bool

pub record Input : Type 0 where
  pub id : Text
  pub kind : InputType
  pub label : Text
  pub required : Bool
  pub validation : InputValidation

pub record FlagArgument : Type 0 where
  pub name : Text
  pub value_from : Text
  pub omit_when_empty : Bool

pub record SwitchArgument : Type 0 where
  pub name : Text
  pub enabled_from : Text

pub record MapArgument : Type 0 where
  pub value_from : Text
  pub values : Dict Text

pub record PositionalArgument : Type 0 where
  pub value_from : Text
  pub omit_when_empty : Bool

-- At most one of the five is set in a validated pack; the planner tries them in this order.
pub record Argument : Type 0 where
  pub literal : Text
  pub flag : Option FlagArgument
  pub positional : Option PositionalArgument
  pub switch : Option SwitchArgument
  pub mapped : Option MapArgument

pub data StructuredFieldType : Type 0 where
  structured_string structured_integer structured_boolean : StructuredFieldType

pub record StructuredField : Type 0 where
  pub key : Text
  pub label : Text
  pub kind : StructuredFieldType
  pub required : Bool
  pub sensitive : Bool

pub record StructuredOutput : Type 0 where
  pub fields : List StructuredField

pub record Sensitivity : Type 0 where
  pub contains_secrets : Bool
  pub persist_raw_output : Bool
  pub reveal_by_default : Bool

pub record Output : Type 0 where
  pub mode : OutputMode
  pub renderer : Text
  pub structured : Option StructuredOutput
  pub sensitivity : Sensitivity

pub record Command : Type 0 where
  pub name : Text
  pub description : Text
  pub tool : Text
  pub risk : Risk
  pub impact : Option Impact
  pub stdin : Option Stdin
  pub inputs : List Input
  pub argv : List Argument
  pub output : Output
  pub requirements : Requirements

pub record Metadata : Type 0 where
  pub id : Text
  pub name : Text
  pub version : Text
  pub description : Text

pub data InstallFormat : Type 0 where
  executable_format zip_format other_format : InstallFormat

pub record InstallArtifact : Type 0 where
  pub url : Text
  pub sha256 : Text
  pub size_bytes : ℤ
  pub format : InstallFormat
  pub executable_name : Text
  pub archive_path : Text
  pub executable_sha256 : Text
  pub executable_size_bytes : ℤ
  pub redirect_hosts : List Text

pub record ToolInstall : Type 0 where
  pub version : Text
  pub artifacts : Dict InstallArtifact

pub record SessionCheck : Type 0 where
  pub command_id : Text
  pub unauthenticated_stderr_contains : Text

pub record VersionProbe : Type 0 where
  pub args : List Text
  pub parser : Text
  pub prefix : Text
  pub timeout_millis : ℤ

pub record HelpProbe : Type 0 where
  pub args : List Text
  pub timeout_millis : ℤ

pub record Tool : Type 0 where
  pub executable_names : List Text
  pub version_probe : Option VersionProbe
  pub help_probes : Dict HelpProbe
  pub version_constraint : Text
  pub session_check : Option SessionCheck
  pub install : Option ToolInstall

pub record Runtime : Type 0 where
  pub platforms : List Text
  pub tools : Dict Tool

pub record Pack : Type 0 where
  pub metadata : Metadata
  pub runtime : Runtime
  pub commands : Dict Command

pub record LoadedPack : Type 0 where
  pub source_name : Text
  pub pack : Pack
