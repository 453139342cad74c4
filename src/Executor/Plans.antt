-- ===== src/Executor/Plans.antt =====
-- internal/executor/executor.go: `validatePlan` and `revalidateExecutable`.
use cliharbor.Prelude.{
  ◌≡◌, refl, subst, ap, sym, ◌∙◌, Bool, true, false, not, ◌&&◌, ◌||◌, Option, none, some,
  if◌then◌else◌, is_some, is_none, all, arith,
}
use cliharbor.Prelude.Result.{Result, ok, err, ◌>>◌, fail_if}
use cliharbor.Prelude.Text.{Text, text_eq, is_empty}
use cliharbor.Prelude.Strings.{no_nul}
use cliharbor.Go.{Go}
use cliharbor.Host.{Host}
use cliharbor.Packs.{
  Risk, Requirements, Output, Command, read, change, destructive, credential_sensitive, interactive,
}
use cliharbor.Packs.Registry.{Registry}
use cliharbor.Discovery.{is_valid, Snapshot}
use cliharbor.Discovery.Files.{Files, FileInfo, is_windows, still_holds}
use cliharbor.Planner.{Plan, Request}
use cliharbor.Planner.Build.{is_vendor_session, build}
use cliharbor.Planner.Policy.{Runnable, reads, changes, destroys, Sound, build-Sound}
use cliharbor.Executor.{ErrorCode, invalid_plan, executable_changed}

unfoldable pub check_plan_risk : Risk → Bool → Result ErrorCode (Unit {0})
check_plan_risk read has_impact = ok tt
check_plan_risk change has_impact = fail_if (not has_impact) invalid_plan
check_plan_risk destructive has_impact = fail_if (not has_impact) invalid_plan
check_plan_risk credential_sensitive has_impact = err invalid_plan
check_plan_risk interactive has_impact = err invalid_plan

unfoldable pub validate_plan : Host → Plan → Result ErrorCode (Unit {0})
validate_plan host plan = do
  check_plan_risk plan.risk (is_some plan.impact)
  fail_if (plan.requirements.requires_auth && not (is_vendor_session plan.requirements.auth_mode))
      invalid_plan
  fail_if plan.output.sensitivity.contains_secrets invalid_plan
  fail_if
      (is_empty plan.executable_path
        || (not (host.is_abs plan.executable_path)
            || (is_empty plan.executable_name || not (is_valid plan.identity))))
      invalid_plan
  fail_if (not (all no_nul plan.args)) invalid_plan

abbrev is_plain_file : Option FileInfo → Bool
is_plain_file none = false
is_plain_file (some info) = not info.symlink && info.regular

abbrev may_execute : Option FileInfo → Bool
may_execute none = false
may_execute (some info) = info.executable

abbrev same_name : Host → Text → Text → Text → Bool
same_name host goos a b = if is_windows goos then host.equal_fold a b else text_eq a b

unfoldable pub revalidate_executable : Host → Text → Files → Plan → Result ErrorCode (Unit {0})
revalidate_executable host goos files plan = do
  let clean = host.clean plan.executable_path
  fail_if (not (still_holds files plan.identity clean)) executable_changed
  fail_if (not (is_plain_file (files.lstat clean))) executable_changed
  fail_if (not (is_windows goos) && not (may_execute (files.lstat clean))) executable_changed
  fail_if (is_none (files.eval_symlinks clean)) executable_changed
  fail_if (not (same_name host goos (host.base clean) plan.executable_name)) executable_changed

Runnable-check_plan_risk :
    (r : Risk) (has_impact : Bool) → Runnable r has_impact → check_plan_risk r has_impact ≡ ok tt
unfolding check_plan_risk
Runnable-check_plan_risk r has_impact (reads b) = refl
Runnable-check_plan_risk r has_impact changes = refl
Runnable-check_plan_risk r has_impact destroys = refl

-- The executor accepts a plan of `Build` whose path is absolute, whose executable has a name and whose
-- arguments have no NUL: the other checks of `validatePlan` are those that `Build` has made.
pub build-validate_plan :
    (host : Host) (go : Go) (registry : Option Registry) (snapshot : Snapshot) (request : Request)
    {plan : Plan}
    → build go registry snapshot request ≡ ok plan
    → host.is_abs plan.executable_path ≡ true
    → is_empty plan.executable_name ≡ false
    → all no_nul plan.args ≡ true
    → validate_plan host plan ≡ ok tt
unfolding validate_plan
build-validate_plan host go registry snapshot request {plan} h absolute named clean =
    let s : Sound go registry snapshot request plan = build-Sound go registry snapshot request h in
    let c : Command = s.command in
    let risk : check_plan_risk plan.risk (is_some plan.impact) ≡ ok tt =
      subst (λ r. check_plan_risk r (is_some plan.impact) ≡ ok tt) (sym s.same_risk)
        (subst (λ b. check_plan_risk c.risk b ≡ ok tt) (sym s.has_impact)
          (Runnable-check_plan_risk c.risk (is_some c.impact) s.permitted.runnable)) in
    let auth : (plan.requirements.requires_auth
          && not (is_vendor_session plan.requirements.auth_mode))
        ≡ false =
      subst (λ (q : Requirements). (q.requires_auth && not (is_vendor_session q.auth_mode)) ≡ false)
        (sym s.same_requirements) (ground (arith, s.permitted.authenticated)) in
    let secrets : plan.output.sensitivity.contains_secrets ≡ false =
      ap (λ (o : Output). o.sensitivity.contains_secrets) s.same_output ∙ s.permitted.no_secrets in
    let path : is_empty plan.executable_path ≡ false =
      ap is_empty s.same_path ∙ s.available.has_path in
    let identity : is_valid plan.identity ≡ true =
      ap is_valid s.same_identity ∙ s.available.identified in
    ground (arith, risk, auth, secrets, path, identity, absolute, named, clean)
