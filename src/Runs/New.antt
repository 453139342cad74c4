-- ===== src/Runs/New.antt =====
-- internal/runs/manager.go: `NewManager`. An option that is not positive takes its default.
use cliharbor.Prelude.{ℕ, ◌*◌, ◌%◌, ◌^◌, Bool, false, not, Option, [], ltb, if◌then◌else◌}
use cliharbor.Prelude.Int.{ℤ, positive_or}
use cliharbor.Prelude.Result.{Result, ok, ◌>>=◌, ◌>>◌, fail_if, or_fail}
use cliharbor.Packs.Registry.{Registry}
use cliharbor.Discovery.{Snapshot}
use cliharbor.Planner.{Plan}
use cliharbor.Approvals.{ExecutionContext}
use cliharbor.Runs.{
  Manager, Config, Guard, Error, internal, parent_required, registry_required,
  retained_below_active, event_bytes_below_output,
}

-- Durations are in nanoseconds.
pub record Options : Type 0 where
  pub max_active : ℤ
  pub max_retained : ℤ
  pub timeout : ℤ
  pub wait_delay : ℤ
  pub chunk_bytes : ℤ
  pub max_output_bytes_per_stream : ℤ
  pub max_event_bytes_per_run : ℤ
  pub approval_ttl : ℤ
  pub max_approvals : ℤ
  pub resolve_execution_context : Option (Plan → Option ExecutionContext)
  pub output_guard : Option (Plan → Option Guard)

unfoldable pub with_defaults : Options → Config
with_defaults o = record {
  max_active = positive_or o.max_active 4;
  max_retained = positive_or o.max_retained 32;
  timeout = positive_or o.timeout 30000000000;
  wait_delay = positive_or o.wait_delay 2000000000;
  chunk_bytes = positive_or o.chunk_bytes 16384;
  max_output_bytes_per_stream = positive_or o.max_output_bytes_per_stream 262144;
  max_event_bytes_per_run = positive_or o.max_event_bytes_per_run 2097152;
  approval_ttl = positive_or o.approval_ttl 120000000000;
  max_approvals = positive_or o.max_approvals 64;
  resolve_execution_context = o.resolve_execution_context;
  output_guard = o.output_guard;
}

-- `MaxOutputBytesPerStream * 2` in int64; a product that wraps to a negative number is below every
-- event budget, as 0 is.
abbrev pub min_event_bytes : ℕ → ℕ
min_event_bytes n = let m = (n * 2) % 2 ^ 64 in if ltb m (2 ^ 63) then m else 0

-- The manager that the constructor returns.
unfoldable pub fresh_manager :
    {J : Type 0} → Registry → Bool → Snapshot → Config → Option J → Manager J
fresh_manager reg done snapshot c audit = record {
  registry = reg;
  discovery = snapshot;
  config = c;
  context_done = done;
  runs = [];
  order = [];
  approvals = [];
  active = 0;
  audit_failed = false;
  is_closed = false;
  waiting = 0;
  audit = audit;
}

-- `parent` says whether the context is not nil, `done` whether it is already cancelled.
unfoldable pub new_manager :
    {J : Type 0}
    → Bool
    → Bool
    → Option Registry
    → Snapshot
    → Options
    → Option J
    → Result Error (Manager J)
new_manager parent done registry snapshot o audit = do
  fail_if (not parent) (internal parent_required)
  reg ← or_fail registry (internal registry_required)
  let c = with_defaults o
  fail_if (ltb c.max_retained c.max_active) (internal retained_below_active)
  fail_if (ltb c.max_event_bytes_per_run (min_event_bytes c.max_output_bytes_per_stream))
      (internal event_bytes_below_output)
  ok (fresh_manager reg done snapshot c audit)
