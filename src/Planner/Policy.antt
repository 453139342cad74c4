-- ===== src/Planner/Policy.antt =====
-- What a plan is worth: the policy that every plan of `Build` has passed.
use cliharbor.Prelude.{
  ◌≡◌, refl, sym, subst, ap, Bool, true, false, not, ◌&&◌, Option, none, some, [], is_some, arith,
}
use cliharbor.Prelude.Result.{ok, ok_injective, after_ok, after_check, after_some}
use cliharbor.Prelude.Text.{Text, is_empty, text_eq, text_eq→eq}
use cliharbor.Prelude.Dict.{Dict}
use cliharbor.Go.{Go}
use cliharbor.Packs.{
  Risk, read, change, destructive, credential_sensitive, interactive, Impact, Command, LoadedPack,
}
use cliharbor.Packs.Registry.{Registry, find_pack, find_command}
use cliharbor.Discovery.{ToolState, Snapshot, is_ready, is_valid}
use cliharbor.Discovery
use cliharbor.Planner.{Plan, Request, Value, MutationImpact}
use cliharbor.Planner.Argv.{
  render_argv, render_stdin, derive_mutation_impact, derive_impact, derive_target,
}
use cliharbor.Planner.Build.{
  check_risk, check_policy, check_tool, check_unknown, parse_inputs, build, is_vendor_session,
}

-- The risk classes that may run, and the impact that each needs.
pub data Runnable : Risk → Bool → Type 0 where
  reads : (has_impact : Bool) → Runnable read has_impact
  changes : Runnable change true
  destroys : Runnable destructive true

check_risk-Runnable : (r : Risk) (b : Bool) {u : Unit {0}} → check_risk r b ≡ ok u → Runnable r b
unfolding check_risk
check_risk-Runnable read b h = reads b
check_risk-Runnable change true h = changes
check_risk-Runnable change false h = absurd (cc h)
check_risk-Runnable destructive true h = destroys
check_risk-Runnable destructive false h = absurd (cc h)
check_risk-Runnable credential_sensitive b h = absurd (cc h)
check_risk-Runnable interactive b h = absurd (cc h)

-- A command that passes the policy.
pub record Permitted (c : Command) : Type 0 where
  pub runnable : Runnable c.risk (is_some c.impact)
  pub authenticated :
      c.requirements.requires_auth ≡ true → is_vendor_session c.requirements.auth_mode ≡ true
  pub no_secrets : c.output.sensitivity.contains_secrets ≡ false

check_policy-Permitted : (c : Command) {u : Unit {0}} → check_policy c ≡ ok u → Permitted c
unfolding check_policy
check_policy-Permitted c h = after_ok (check_risk c.risk (is_some c.impact)) h (λ a e rest.
    after_check (c.requirements.requires_auth && not (is_vendor_session c.requirements.auth_mode)) _
      rest
      (λ f last. record {
        runnable = check_risk-Runnable c.risk (is_some c.impact) e;
        authenticated = λ needed. ground (arith, f, needed);
        no_secrets = ground (arith, last);
      }))

-- A tool that is ready, for the version of the pack.
pub record Available (snapshot : Snapshot) (pack_id tool_id : Text) (loaded : LoadedPack)
    (state : ToolState) : Type 0 where
  pub found : Discovery.find snapshot pack_id tool_id ≡ some state
  pub same_version : state.pack_version ≡ loaded.pack.metadata.version
  pub ready : is_ready state.status ≡ true
  pub has_path : is_empty state.path ≡ false
  pub identified : is_valid state.identity ≡ true

check_tool-Available :
    (snapshot : Snapshot) (pack_id tool_id : Text) (loaded : LoadedPack) {state : ToolState}
    → check_tool snapshot pack_id tool_id loaded ≡ ok state
    → Available snapshot pack_id tool_id loaded state
unfolding check_tool
check_tool-Available snapshot pack_id tool_id loaded {state} h =
    after_some (Discovery.find snapshot pack_id tool_id) _ h (λ s found rest.
      let same : s ≡ state = ground (arith, rest) in
      let version : text_eq s.pack_version loaded.pack.metadata.version ≡ true =
        ground (arith, rest) in
      subst (Available snapshot pack_id tool_id loaded) same (record {
        found = found;
        same_version = text_eq→eq s.pack_version loaded.pack.metadata.version version;
        ready = ground (arith, rest);
        has_path = ground (arith, rest);
        identified = ground (arith, rest);
      }))

derive_impact-kept :
    (go : Go) (o : Option Impact) (values : Dict Value) {impact : Option MutationImpact}
    → derive_impact go o values ≡ ok impact
    → is_some impact ≡ is_some o
unfolding derive_impact
derive_impact-kept go none values h = ap is_some (sym (ok_injective h))
derive_impact-kept go (some i) values h =
    after_ok (derive_target go i values) h (λ target e last. ap is_some (sym (ok_injective last)))

-- What stands behind a plan.
pub record Sound (go : Go) (registry : Option Registry) (snapshot : Snapshot) (request : Request)
    (plan : Plan) : Type 0 where
  pub reg : Registry
  pub loaded : LoadedPack
  pub command : Command
  pub state : ToolState
  pub has_registry : registry ≡ some reg
  pub is_pack : find_pack reg request.pack_id ≡ some loaded
  pub is_command : find_command reg request.pack_id request.command_id ≡ some command
  pub permitted : Permitted command
  pub available : Available snapshot request.pack_id command.tool loaded state
  pub values : Dict Value
  pub parsed : parse_inputs go request.values command.inputs [] ≡ ok values
  pub rendered : render_argv go request.command_id values 0 command.argv [] ≡ ok plan.args
  pub same_risk : plan.risk ≡ command.risk
  pub has_impact : is_some plan.impact ≡ is_some command.impact
  pub same_output : plan.output ≡ command.output
  pub same_requirements : plan.requirements ≡ command.requirements
  pub same_path : plan.executable_path ≡ state.path
  pub same_identity : plan.identity ≡ state.identity

-- `Build` gives a plan only for a declared command of a known pack that the policy permits: a read,
-- or a change or a destructive command with its impact; no secrets in its output, and where it needs
-- authentication, a vendor session. The plan runs the executable of a tool that discovery found
-- ready, of the pack's own version, with a valid identity. Its arguments are the command's, rendered
-- from the parsed values.
pub build-Sound :
    (go : Go) (registry : Option Registry) (snapshot : Snapshot) (request : Request) {plan : Plan}
    → build go registry snapshot request ≡ ok plan
    → Sound go registry snapshot request plan
unfolding build derive_mutation_impact
build-Sound go registry snapshot request {plan} h = after_some registry _ h (λ reg has_registry h1.
    after_some (find_pack reg request.pack_id) _ h1 (λ loaded is_pack h2.
      after_some (find_command reg request.pack_id request.command_id) _ h2
        (λ command is_command h3. after_ok (check_policy command) h3 (λ u policy h4.
          after_ok (check_tool snapshot request.pack_id command.tool loaded) h4 (λ state tool h5.
            after_ok (check_unknown command.inputs request.values) h5 (λ u' known h6.
              after_ok (parse_inputs go request.values command.inputs []) h6 (λ values parsed h7.
                after_ok (derive_impact go command.impact values) h7 (λ impact derived h8.
                  after_ok (render_argv go request.command_id values 0 command.argv []) h8
                    (λ args argv h9.
                      after_ok (render_stdin go command values) h9 (λ stdin input last.
                        subst (Sound go registry snapshot request) (ok_injective last) (record {
                          reg = reg;
                          loaded = loaded;
                          command = command;
                          state = state;
                          has_registry = has_registry;
                          is_pack = is_pack;
                          is_command = is_command;
                          permitted = check_policy-Permitted command policy;
                          available =
                              check_tool-Available snapshot request.pack_id command.tool loaded
                                tool;
                          values = values;
                          parsed = parsed;
                          rendered = argv;
                          same_risk = refl;
                          has_impact = derive_impact-kept go command.impact values derived;
                          same_output = refl;
                          same_requirements = refl;
                          same_path = refl;
                          same_identity = refl;
                        })))))))))))
