-- ===== src/Packs/Validation.antt =====
-- internal/packs/validation.go: the errors of validation. The message is a fixed sentence for each
-- place and is left out.
pub mod Inputs
pub mod Arguments
pub mod Impacts
pub mod Templates
pub mod Executables
pub mod Installs
pub mod Sessions
pub mod Semantics
pub mod Tools
pub mod Yaml
pub mod Trees
pub mod Probes
use cliharbor.Prelude.{ℕ, ◌++◌, List, [], ◌∷◌}
use cliharbor.Prelude.Int.{pos}
use cliharbor.Prelude.Result.{Result}
use cliharbor.Prelude.Text.{Text, lit}
use cliharbor.Go.{Go}

pub data ErrorCode : Type 0 where
  invalid_encoding input_too_large yaml_invalid yaml_feature duplicate_key : ErrorCode
  unsupported_version schema_invalid semantic duplicate_pack unsafe_executable : ErrorCode
  unsupported_local_entry : ErrorCode

pub record ValidationError : Type 0 where
  pub code : ErrorCode
  pub path : Text

-- An outcome of validation.
abbrev pub Checked : Type 0
Checked = Result ValidationError (Unit {0})

abbrev pub semantic_at : Text → ValidationError
semantic_at path = record { code = semantic; path = path }

abbrev pub unsafe_at : Text → ValidationError
unsafe_at path = record { code = unsafe_executable; path = path }

-- `fmt.Sprintf("%s[%d]", path, index)`
abbrev pub indexed : Go → Text → ℕ → Text
indexed go path index = path ++ (lit "[" ++ (go.format_int (pos index) ++ lit "]"))
