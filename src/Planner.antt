-- ===== src/Planner.antt =====
-- The planner (internal/planner/planner.go): its requests, values, plans and errors. An error keeps
-- its code and path; the message is a fixed sentence for each place and is left out.
pub mod Values
pub mod Argv
pub mod Build
pub mod Policy
pub mod Agreement
pub mod Mappings
pub mod Rendering
pub mod Faults
pub mod Validated
pub mod Injection
use cliharbor.Prelude.{Bool, Option, List}
use cliharbor.Prelude.Text.{Text}
use cliharbor.Prelude.Dict.{Dict}
use cliharbor.Packs.{Risk, ImpactScope, Output, Requirements}
use cliharbor.Discovery.{ExecutableIdentity}

pub data ErrorCode : Type 0 where
  unknown_pack unknown_command tool_unavailable stale_discovery unknown_input : ErrorCode
  missing_input invalid_input risk_policy auth_policy output_policy invalid_plan_state : ErrorCode

pub record PlanError : Type 0 where
  pub code : ErrorCode
  pub path : Text

pub record Request : Type 0 where
  pub pack_id : Text
  pub command_id : Text
  pub values : Dict Text

pub record MutationImpact : Type 0 where
  pub target_label : Text
  pub target : Text
  pub effect : Text
  pub scope : ImpactScope

pub record Plan : Type 0 where
  pub pack_id : Text
  pub pack_version : Text
  pub command_id : Text
  pub tool_id : Text
  pub executable_path : Text
  pub executable_name : Text
  pub identity : ExecutableIdentity
  pub tool_version : Text
  pub args : List Text
  pub stdin : Text
  pub stdin_sensitive : Bool
  pub risk : Risk
  pub impact : Option MutationImpact
  pub output : Output
  pub requirements : Requirements

-- One parsed input.
pub record Value : Type 0 where
  pub present : Bool
  pub text : Text
  pub argument : Text
  pub boolean : Bool
  pub many : List Text
