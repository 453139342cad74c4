-- ===== src/Planner/Validated.antt =====
-- `Build` on a pack that `validateSemantics` accepts: the branches of `Build` that answer
-- `ErrInvalidPlanState`.
use cliharbor.Prelude.{
  ◌≡◌, sym, subst, ◌∙◌, true, not, Option, some, List, [], ◌++◌, inl, inr, Option-cases, arith,
}
use cliharbor.Prelude.Result.{ok, err, ◌>>=◌, or_fail, after_ok, after_err, after_check, after_some}
use cliharbor.Prelude.Text.{Text, lit, is_empty}
use cliharbor.Prelude.Dict.{Dict, keys, lookup}
use cliharbor.Prelude.Sort.{sorted_keys, mem_text, mem_text-sort, lookup-mem_text}
use cliharbor.Prelude.Loop.{each, each_at, each-member}
use cliharbor.Go.{Go}
use cliharbor.Host.{Host}
use cliharbor.Packs.{Input, Command, Pack, LoadedPack, Impact, Risk}
use cliharbor.Packs.Registry.{Registry, find_pack, find_command}
use cliharbor.Packs.Validation.{indexed}
use cliharbor.Packs.Validation.Arguments.{validate_argument}
use cliharbor.Packs.Validation.Impacts.{validate_impact}
use cliharbor.Packs.Validation.Templates.{validate_stdin}
use cliharbor.Packs.Validation.Semantics.{
  validate_inputs, validate_mutation, validate_command, validate_command_at, validate_semantics,
  validate_tool,
}
use cliharbor.Discovery.{Snapshot}
use cliharbor.Planner.{
  PlanError, Plan, MutationImpact, unknown_pack, unknown_command, Request, Value,
}
use cliharbor.Planner.Values.{at}
use cliharbor.Planner.Argv.{
  render_argv, render_stdin, derive_mutation_impact, derive_impact, derive_target,
}
use cliharbor.Planner.Build.{check_policy, check_tool, check_unknown, parse_inputs, build}
use cliharbor.Planner.Agreement.{Fits, Agree, Agree-nil, parse_inputs-Agree}
use cliharbor.Planner.Mappings.{MapsDistinct}
use cliharbor.Planner.Rendering.{render_argv_succeeds, render_stdin_succeeds}
use cliharbor.Planner.Faults.{
  Compiles, is_internal, is_fault, parse_inputs_no_fault, check_policy_no_fault,
  check_tool_no_fault, check_unknown_no_fault, refute_fault, refute_err,
}

-- What validation says of one command.
pub record Valid (host : Host) (go : Go) (path : Text) (c : Command) : Type 0 where
  pub inputs : Dict Input
  pub declared : validate_inputs host go path 0 c.inputs [] ≡ ok inputs
  pub mutation : validate_mutation go c.risk c.impact inputs (path ++ lit ".impact") ≡ ok tt
  pub arguments :
      each_at (λ k a. validate_argument a inputs (indexed go (path ++ lit ".argv") k)) 0 c.argv
      ≡ ok tt
  pub stdin : validate_stdin go c inputs path ≡ ok tt

validate_command-Valid :
    (host : Host) (go : Go) (pack : Pack) (path : Text) (c : Command) {u : Unit {0}}
    → validate_command host go pack path c ≡ ok u
    → Valid host go path c
unfolding validate_command
validate_command-Valid host go pack path c h =
    after_some (lookup c.tool pack.runtime.tools) _ h (λ tool known h1.
      after_ok (validate_inputs host go path 0 c.inputs []) h1 (λ inputs declared h2.
        after_ok (validate_mutation go c.risk c.impact inputs (path ++ lit ".impact")) h2 (λ u m h3.
          after_ok
            (each_at (λ k a. validate_argument a inputs (indexed go (path ++ lit ".argv") k)) 0
              c.argv)
            h3
            (λ u' argv h4. after_ok (validate_stdin go c inputs path) h4 (λ u'' stdin rest. record {
              inputs = inputs;
              declared = declared;
              mutation = m;
              arguments = argv;
              stdin = stdin;
            })))))

pub validate_semantics-Valid :
    (host : Host) (go : Go) (pack : Pack) (id : Text) (c : Command) {u : Unit {0}}
    → validate_semantics host go pack ≡ ok u
    → lookup id pack.commands ≡ some c
    → Valid host go (lit "commands." ++ id) c
unfolding validate_semantics validate_command_at
validate_semantics-Valid host go pack id c h found =
    after_ok (each (validate_tool host go pack) (sorted_keys pack.runtime.tools)) h (λ u tools h1.
      after_ok (each (validate_command_at host go pack) (sorted_keys pack.commands)) h1
        (λ u' commands rest.
          let listed : mem_text id (sorted_keys pack.commands) ≡ true =
            mem_text-sort id (keys pack.commands)
            ∙ lookup-mem_text id pack.commands (ground (arith, found)) in
          let valid : validate_command_at host go pack id ≡ ok tt =
            each-member (validate_command_at host go pack) (sorted_keys pack.commands) id commands
              listed in
          validate_command-Valid host go pack (lit "commands." ++ id) c
            (ground (arith, valid, found))))

-- The target of the command's mutation was given, and as an empty text.
pub record EmptyTarget (go : Go) (request : Request) (c : Command) : Type 0 where
  pub impact : Impact
  pub values : Dict Value
  pub target : Value
  pub has_impact : c.impact ≡ some impact
  pub parsed : parse_inputs go request.values c.inputs [] ≡ ok values
  pub found : lookup impact.target_input values ≡ some target
  pub given : target.present ≡ true
  pub empty : is_empty target.argument ≡ true

validate_mutation-impact :
    (go : Go) (risk : Risk) (i : Impact) (inputs : Dict Input) (path : Text) {u : Unit {0}}
    → validate_mutation go risk (some i) inputs path ≡ ok u
    → validate_impact go i inputs path ≡ ok tt
unfolding validate_mutation
validate_mutation-impact go Risk.change i inputs path h = h
validate_mutation-impact go Risk.destructive i inputs path h = h
validate_mutation-impact go Risk.read i inputs path h = absurd (cc h)
validate_mutation-impact go Risk.credential_sensitive i inputs path h = absurd (cc h)
validate_mutation-impact go Risk.interactive i inputs path h = absurd (cc h)

validate_impact-target :
    (go : Go) (i : Impact) (inputs : Dict Input) (values : Dict Value) (path : Text) {u : Unit {0}}
    → Agree go inputs values
    → validate_impact go i inputs path ≡ ok u
    → (v : Value) × (lookup i.target_input values ≡ some v) × (v.present ≡ true)
unfolding validate_impact
validate_impact-target go i inputs values path agree h =
    after_some (lookup i.target_input inputs) _ h (λ input e h1.
      after_check (not input.required) _ h1 (λ needed rest.
        let fit : (v : Value) × (lookup i.target_input values ≡ some v) × Fits go input v =
          agree.value_of i.target_input input e in
        (fit.0, fit.1, fit.2.given (ground (arith, needed)))))

derive_target-empty :
    (go : Go) (i : Impact) (values : Dict Value) (v : Value)
    → lookup i.target_input values ≡ some v
    → v.present ≡ true
    → is_fault (derive_target go i values) ≡ true
    → is_empty v.argument ≡ true
unfolding derive_target
derive_target-empty go i values v e there f = ground (arith, e, there, f)

-- A required, declared input that the parser gave a value: only its text can be at fault.
derive_impact-EmptyTarget :
    (go : Go) (request : Request) (c : Command) (inputs : Dict Input) (values : Dict Value)
    (path : Text) {u : Unit {0}}
    → Agree go inputs values
    → validate_mutation go c.risk c.impact inputs path ≡ ok u
    → parse_inputs go request.values c.inputs [] ≡ ok values
    → is_fault (derive_impact go c.impact values) ≡ true
    → EmptyTarget go request c
unfolding derive_impact
derive_impact-EmptyTarget go request c inputs values path {u} agree h parsed f =
    elim (Option-cases c.impact) [
      | inl e ↦ absurd (ground (arith, f, e))
      | inr (i, e) ↦
          let m : validate_mutation go c.risk (some i) inputs path ≡ ok u = ground (arith, h, e) in
          let target : (v : Value) × (lookup i.target_input values ≡ some v) × (v.present ≡ true) =
            validate_impact-target go i inputs values path agree
              (validate_mutation-impact go c.risk i inputs path m) in
          let fault : is_fault (derive_target go i values) ≡ true = ground (arith, f, e) in
          (record {
            impact = i;
            values = values;
            target = target.0;
            has_impact = e;
            parsed = parsed;
            found = target.1;
            given = target.2;
            empty = derive_target-empty go i values target.0 target.1 target.2 fault;
          })
    ]

-- After parsing, only the mutation's target can fail.
render-EmptyTarget :
    (host : Host) (go : Go) (request : Request) (d : Command) (path : Text) (values : Dict Value)
    {e : PlanError} (plan : Option MutationImpact → List Text → Text → Plan)
    → (v : Valid host go path d) → Agree go v.inputs values
    → MapsDistinct d.argv
    → parse_inputs go request.values d.inputs [] ≡ ok values
    → (derive_mutation_impact go d values >>= λ impact.
        render_argv go request.command_id values 0 d.argv [] >>= λ args.
        render_stdin go d values >>= λ stdin. ok (plan impact args stdin))
      ≡ err e
    → is_internal e.code ≡ true
    → EmptyTarget go request d
unfolding derive_mutation_impact
render-EmptyTarget host go request d path values {e} plan v agree w parsed h internal =
    after_err (derive_impact go d.impact values) h
      (λ stop.
        derive_impact-EmptyTarget go request d v.inputs values _ agree v.mutation parsed
          (ground (arith, stop, internal)))
      (λ impact e5 h7.
        after_err (render_argv go request.command_id values 0 d.argv []) h7
          (refute_err (render_argv go request.command_id values 0 d.argv []) e (
            render_argv_succeeds go v.inputs values agree request.command_id (path ++ lit ".argv") 0
              0 d.argv [] w v.arguments))
          (λ args e6 h8.
            after_err (render_stdin go d values) h8
              (refute_err (render_stdin go d values) e
                (render_stdin_succeeds go v.inputs values agree d path v.stdin))
              (λ stdin e7 last. absurd (cc last))))

-- On a pack that `validateSemantics` accepts, `Build` answers `ErrInvalidPlanState` in one case only:
-- the target of the command's mutation was given as an empty text. The registry holds the pack and
-- the command, the keys of each mapping differ, and an expression that compiles can be matched.
pub build-EmptyTarget :
    (host : Host) (go : Go) (reg : Registry) (snapshot : Snapshot) (request : Request)
    (loaded : LoadedPack) (c : Command) {u : Unit {0}} {e : PlanError}
    → Compiles host go
    → find_pack reg request.pack_id ≡ some loaded
    → find_command reg request.pack_id request.command_id ≡ some c
    → MapsDistinct c.argv
    → validate_semantics host go loaded.pack ≡ ok u
    → build go (some reg) snapshot request ≡ err e
    → is_internal e.code ≡ true
    → EmptyTarget go request c
unfolding build find_command derive_mutation_impact
build-EmptyTarget host go reg snapshot request loaded c {e = e} compiles pack_found command_found
      distinct valid h internal =
    after_err (or_fail (find_pack reg request.pack_id) (at unknown_pack (lit "packId"))) h
      (λ stop. absurd (ground (arith, stop, pack_found)))
      (λ l el h1.
        after_err
          (or_fail (find_command reg request.pack_id request.command_id)
            (at unknown_command (lit "commandId")))
          h1 (λ stop. absurd (ground (arith, stop, command_found)))
          (λ d ed h2.
            let same : d ≡ c = ground (arith, ed, command_found) in
            let pack : l ≡ loaded = ground (arith, el, pack_found) in
            let in_pack : lookup request.command_id loaded.pack.commands ≡ some d =
              ground (arith, pack_found, command_found, same) in
            let v : Valid host go (lit "commands." ++ request.command_id) d =
              validate_semantics-Valid host go loaded.pack request.command_id d valid in_pack in
            let w : MapsDistinct d.argv =
              subst (λ (x : Command). MapsDistinct x.argv) (sym same) distinct in
            subst (EmptyTarget go request) same (
              after_err (check_policy d) h2
                (refute_fault (check_policy d) e (check_policy_no_fault go d v.inputs _ v.mutation)
                  internal)
                (λ u1 e1 h3.
                  after_err (check_tool snapshot request.pack_id d.tool l) h3
                    (refute_fault (check_tool snapshot request.pack_id d.tool l) e
                      (check_tool_no_fault snapshot request.pack_id d.tool l) internal)
                    (λ state e2 h4.
                      after_err (check_unknown d.inputs request.values) h4
                        (refute_fault (check_unknown d.inputs request.values) e
                          (check_unknown_no_fault d.inputs request.values) internal)
                        (λ u2 e3 h5.
                          after_err (parse_inputs go request.values d.inputs []) h5
                            (refute_fault (parse_inputs go request.values d.inputs []) e
                              (parse_inputs_no_fault host go _ 0 request.values d.inputs [] []
                                compiles v.declared)
                              internal)
                            (λ values e4 h6.
                              let agree : Agree go v.inputs values =
                                parse_inputs-Agree host go _ 0 request.values d.inputs [] []
                                  v.declared e4 (Agree-nil go) in
                              render-EmptyTarget host go request d _ values _ v agree w e4 h6
                                internal)))))))
