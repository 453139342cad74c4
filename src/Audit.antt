-- ===== src/Audit.antt =====
-- internal/runs/manager.go: the mutation metadata that the run manager sends to its audit sink, and
-- the sink's interface. `recorded` is what the sink durably holds, newest first; its two laws are
-- what the manager may rely on, and the journal of internal/audittrail keeps them.

pub mod Entry
pub mod Journal
pub mod Lines
pub mod Chain
pub mod Sink
use cliharbor.Prelude.{◌≡◌, Bool, true, false, Option, List, [], ◌∷◌}
use cliharbor.Prelude.Int.{ℤ}
use cliharbor.Prelude.Text.{Text, lit}
use cliharbor.Packs.{Risk, ImpactScope}

pub record AuditEvent : Type 0 where
  pub run_id : Text
  pub action : Text
  pub pack_id : Text
  pub command_id : Text
  pub risk : Text
  pub target_label : Text
  pub target : Text
  pub effect : Text
  pub scope : Text
  pub status : Text
  pub exit_code : Option ℤ

pub record AuditSink (J : Type 0) : Type 0 where
  pub append : J → AuditEvent → J × Bool
  pub recorded : J → List AuditEvent
  pub append_success :
      (j : J) (e : AuditEvent) → (append j e).1 ≡ true → recorded (append j e).0 ≡ e ∷ recorded j
  pub append_failure :
      (j : J) (e : AuditEvent) → (append j e).1 ≡ false → recorded (append j e).0 ≡ recorded j

unfoldable pub risk_text : Risk → Text
risk_text Risk.read = lit "read"
risk_text Risk.change = lit "change"
risk_text Risk.destructive = lit "destructive"
risk_text Risk.credential_sensitive = lit "credential-sensitive"
risk_text Risk.interactive = lit "interactive"

unfoldable pub scope_text : ImpactScope → Text
scope_text ImpactScope.single = lit "single"
scope_text ImpactScope.multiple = lit "multiple"
scope_text (ImpactScope.other_scope t) = t
