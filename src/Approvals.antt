-- ===== src/Approvals.antt =====
-- internal/runs/approval.go: what an approval is, which plans need one, and the checks of the
-- operator's context. SHA-256 over JSON is a parameter, a function of the payload.
pub mod Table
pub mod Bound
pub mod Eviction
pub mod Consumption
use cliharbor.Prelude.{
  ℕ, Bool, true, false, not, ◌&&◌, ◌||◌, Option, none, some, List, [], ◌∷◌, ◌++◌, length, ltb, leb,
  ◌==◌, if◌then◌else◌,
}
use cliharbor.Prelude.Text.{Text, lit, is_empty}
use cliharbor.Go.{Go, safe_runes, is_trimmed}
use cliharbor.Packs.{
  Risk, read, change, destructive, credential_sensitive, interactive, ImpactScope, single, multiple,
}
use cliharbor.Planner.{Plan, MutationImpact}
use cliharbor.Prelude.Sort.{mem_text}

-- `no_mode` is the empty string of a plan that needs no approval.
pub data ApprovalMode : Type 0 where
  no_mode explicit typed : ApprovalMode

pub record ContextField : Type 0 where
  pub label : Text
  pub value : Text

pub record ExecutionContext : Type 0 where
  pub fields : List ContextField

pub record ApprovalChallenge : Type 0 where
  pub id : Text
  pub expires_at : ℕ
  pub mode : ApprovalMode
  pub required_text : Text

pub record ApprovalSubmission : Type 0 where
  pub id : Text
  pub confirmation : Text

pub record ApprovalRecord : Type 0 where
  pub fingerprint : Text
  pub expires_at : ℕ
  pub issued_at : ℕ
  pub mode : ApprovalMode
  pub required_text : Text

abbrev pub is_mutation : Risk → Bool
is_mutation read = false
is_mutation change = true
is_mutation destructive = true
is_mutation credential_sensitive = false
is_mutation interactive = false

unfoldable pub requires_approval : Plan → Bool
requires_approval plan = is_mutation plan.risk

abbrev is_destructive : Risk → Bool
is_destructive destructive = true
is_destructive _ = false

requirement_of : Risk → MutationImpact → ApprovalMode × Text
requirement_of risk impact = elim impact.scope [
  | multiple ↦
      if is_destructive risk
      then (typed, lit "DELETE MULTIPLE: " ++ impact.target)
      else (typed, lit "APPROVE MULTIPLE: " ++ impact.target)
  | _ ↦ if is_destructive risk then (typed, lit "DELETE: " ++ impact.target) else (explicit, [])
]

-- `none` is the error of a mutation plan with no impact.
unfoldable pub approval_requirement : Plan → Option (ApprovalMode × Text)
unfolding requires_approval requirement_of
approval_requirement plan =
    if not (requires_approval plan)
    then some (no_mode, [])
    else elim plan.impact [ none ↦ none | some impact ↦ some (requirement_of plan.risk impact) ]

-- The struct that is encoded and hashed.
pub record Payload : Type 0 where
  pub pack_id : Text
  pub pack_version : Text
  pub command_id : Text
  pub tool_id : Text
  pub tool_version : Text
  pub executable_path : Text
  pub executable_name : Text
  pub args : List Text
  pub stdin : Text
  pub risk : Risk
  pub impact : Option MutationImpact
  pub context : ExecutionContext

unfoldable pub payload : Plan → ExecutionContext → Payload
payload plan context = record {
  pack_id = plan.pack_id;
  pack_version = plan.pack_version;
  command_id = plan.command_id;
  tool_id = plan.tool_id;
  tool_version = plan.tool_version;
  executable_path = plan.executable_path;
  executable_name = plan.executable_name;
  args = plan.args;
  stdin = plan.stdin;
  risk = plan.risk;
  impact = plan.impact;
  context = context;
}

-- The digest of a payload; `none` is an encoding error.
abbrev pub Digest : Type 0
Digest = Payload → Option Text

unfoldable pub approval_fingerprint : Digest → Plan → ExecutionContext → Option Text
approval_fingerprint digest plan context = digest (payload plan context)

unfoldable pub safe_context_text : Go → Text → ℕ → Bool
safe_context_text go value max =
    if is_empty value
      || (ltb max (length value) || (not (go.valid_utf8 value) || not (is_trimmed go value)))
    then false
    else safe_runes go value

check_fields : Go → List Text → List ContextField → Bool
unfolding safe_context_text
check_fields go seen [] = true
check_fields go seen (f ∷ rest) =
    let next = check_fields go (f.label ∷ seen) rest in
    if not (safe_context_text go f.label 80) || not (safe_context_text go f.value 2048)
    then false
    else if mem_text f.label seen
    then false
    else next

unfoldable pub validate_execution_context : Go → ExecutionContext → Bool
unfolding check_fields
validate_execution_context go context =
    if length context.fields == 0 || ltb 8 (length context.fields)
    then false
    else check_fields go [] context.fields

is_hex : ℕ → Bool
is_hex c = (leb b'0' c && leb c b'9') || ((leb b'a' c && leb c b'f') || (leb b'A' c && leb c b'F'))

all_hex : Text → Bool
unfolding is_hex
all_hex [] = true
all_hex (c ∷ cs) = is_hex c && all_hex cs

-- internal/runs/manager.go: 32 hexadecimal digits.
unfoldable pub valid_run_id : Text → Bool
unfolding all_hex
valid_run_id value = length value == 32 && all_hex value
