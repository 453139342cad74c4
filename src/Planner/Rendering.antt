-- ===== src/Planner/Rendering.antt =====
-- A command that validation accepts renders: its arguments and its input, for all parsed values.
use cliharbor.Prelude.{
  ℕ, suc, ◌≡◌, refl, subst, Bool, true, false, not, some, List, [], ◌∷◌, ◌++◌, is_some, inl, inr,
  Option-cases, Bool-cases, arith,
}
use cliharbor.Prelude.Result.{ok, is_ok, is_ok_value, after_ok, after_check, after_some}
use cliharbor.Prelude.Text.{Text, lit, is_empty}
use cliharbor.Prelude.Dict.{Dict, lookup, Distinct}
use cliharbor.Prelude.Loop.{each_at}
use cliharbor.Go.{Go, Piece, plain, matched}
use cliharbor.Packs.{
  is_enum, Input, Argument, FlagArgument, PositionalArgument, SwitchArgument, MapArgument, Command,
  Stdin, Risk,
}
use cliharbor.Packs.Validation.{indexed}
use cliharbor.Packs.Validation.Arguments.{
  validate_value, validate_switch, validate_map, validate_argument,
}
use cliharbor.Packs.Validation.Templates.{
  validate_stdin, validate_stdin_of, validate_template, validate_pieces, validate_placeholder,
  is_secret, is_only_secret, count_secrets,
}
use cliharbor.Planner.{Value}
use cliharbor.Planner.Argv.{
  render_flag, render_positional, render_switch, render_map, render_argument, render_argv,
  render_stdin, render_stdin_of, render_pieces, render_placeholder, placeholder_id, argv_path,
}
use cliharbor.Planner.Agreement.{Fits, Agree}
use cliharbor.Planner.Mappings.{mapping_covers, MapDistinct, MapsDistinct}

module _ (go : Go) (inputs : Dict Input) (values : Dict Value)
    (agree : Agree go inputs values) where
  declared_has_value :
      (id : Text) (i : Input) → lookup id inputs ≡ some i → is_some (lookup id values) ≡ true
  declared_has_value id i e = ground (arith, (agree.value_of id i e).1)

  validate_value-declared :
      (id : Text) (omit : Bool) (from_path omit_path : Text) {u : Unit {0}}
      → validate_value (lookup id inputs) omit from_path omit_path ≡ ok u
      → is_some (lookup id values) ≡ true
  unfolding validate_value
  validate_value-declared id omit from_path omit_path h =
      after_some (lookup id inputs) _ h (λ i e rest. declared_has_value id i e)

  render_flag_succeeds :
      (f : FlagArgument) (path : Text)
      → is_some (lookup f.value_from values) ≡ true
      → is_ok (render_flag values f path) ≡ true
  unfolding render_flag
  render_flag_succeeds f path h = ground (arith, h)

  render_positional_succeeds :
      (p : PositionalArgument) (path : Text)
      → is_some (lookup p.value_from values) ≡ true
      → is_ok (render_positional values p path) ≡ true
  unfolding render_positional
  render_positional_succeeds p path h = ground (arith, h)

  render_switch_succeeds :
      (s : SwitchArgument) (path at_path : Text) {u : Unit {0}}
      → validate_switch (lookup s.enabled_from inputs) at_path ≡ ok u
      → is_ok (render_switch values s path) ≡ true
  unfolding validate_switch render_switch
  render_switch_succeeds s path at_path h =
      after_some (lookup s.enabled_from inputs) _ h (λ i e rest.
        let there : is_some (lookup s.enabled_from values) ≡ true =
          declared_has_value s.enabled_from i e in
        ground (arith, there))

  render_map_succeeds :
      (m : MapArgument) (path at_path : Text) {u : Unit {0}}
      → Distinct m.values
      → validate_map (lookup m.value_from inputs) m.values at_path ≡ ok u
      → is_ok (render_map values m path) ≡ true
  unfolding validate_map render_map
  render_map_succeeds m path at_path d h = after_some (lookup m.value_from inputs) _ h (λ i e h1.
      after_check (not (is_enum i.kind)) _ h1 (λ enum h2.
        after_check (not i.required) _ h2 (λ needed rest.
          let fit : (v : Value) × (lookup m.value_from values ≡ some v) × Fits go i v =
            agree.value_of m.value_from i e in
          let there : fit.0.present ≡ true = fit.2.given (ground (arith, needed)) in
          let literal : is_some (lookup fit.0.text m.values) ≡ true =
            mapping_covers i.validation.allowed m.values (at_path ++ lit ".map.values") fit.0.text d
              rest (fit.2.chosen (ground (arith, enum)) there) in
          let found : lookup m.value_from values ≡ some fit.0 = fit.1 in
          ground (arith, found, there, literal))))

  pub render_argument_succeeds :
      (a : Argument) (path at_path : Text) {u : Unit {0}}
      → MapDistinct a.mapped
      → validate_argument a inputs at_path ≡ ok u
      → is_ok (render_argument values a path) ≡ true
  unfolding render_argument validate_argument
  render_argument_succeeds a path at_path {u} d h = elim (Bool-cases (is_empty a.literal)) [
    | inr e ↦ rw e refl
    | inl e ↦ elim (Option-cases a.flag) [
      | inr (f, ef) ↦ rw e (
          rw ef (
            render_flag_succeeds f path (
              validate_value-declared f.value_from f.omit_when_empty
                (at_path ++ lit ".flag.valueFrom") (at_path ++ lit ".flag.omitWhenEmpty")
                (ground (arith, h, e, ef)))))
      | inl ef ↦ elim (Option-cases a.positional) [
        | inr (p, ep) ↦ rw e (
            rw ef (
              rw ep (
                render_positional_succeeds p path (
                  validate_value-declared p.value_from p.omit_when_empty
                    (at_path ++ lit ".positional.valueFrom")
                    (at_path ++ lit ".positional.omitWhenEmpty") (ground (arith, h, e, ef, ep))))))
        | inl ep ↦ elim (Option-cases a.switch) [
          | inr (s, es) ↦ rw e (
              rw ef (
                rw ep (
                  rw es (
                    render_switch_succeeds s path (at_path ++ lit ".switch.enabledFrom")
                      (ground (arith, h, e, ef, ep, es))))))
          | inl es ↦ elim (Option-cases a.mapped) [
            | inr (m, em) ↦ rw e (
                rw ef (
                  rw ep (
                    rw es (
                      rw em (
                        render_map_succeeds m path at_path (subst MapDistinct em d)
                          (ground (arith, h, e, ef, ep, es, em)))))))
            | inl em ↦ absurd (ground (arith, h, e, ef, ep, es, em))
          ]
        ]
      ]
    ]
  ]

  pub render_argv_succeeds :
      (command_id path : Text) (i j : ℕ) (argv : List Argument) (args : List Text) {u : Unit {0}}
      → MapsDistinct argv
      → each_at (λ k a. validate_argument a inputs (indexed go path k)) i argv ≡ ok u
      → is_ok (render_argv go command_id values j argv args) ≡ true
  unfolding each_at render_argv
  render_argv_succeeds command_id path i j [] args d h = refl
  render_argv_succeeds command_id path i j (a ∷ rest) args d h =
      after_ok (validate_argument a inputs (indexed go path i)) h (λ u valid h1.
        let here : (more : List Text) × (render_argument values a (argv_path go command_id j)
              ≡ ok more) =
          is_ok_value (render_argument values a (argv_path go command_id j)) (
            render_argument_succeeds a (argv_path go command_id j) (indexed go path i) d.0 valid) in
        rw here.1
          (render_argv_succeeds command_id path (suc i) (suc j) rest (args ++ here.0) d.1 h1))

  render_placeholder_succeeds :
      (declared : List Input) (p path : Text) {u : Unit {0}}
      → validate_placeholder inputs (placeholder_id p) path ≡ ok u
      → is_ok (render_placeholder go declared values p) ≡ true
  unfolding validate_placeholder render_placeholder
  render_placeholder_succeeds declared p path h =
      after_some (lookup (placeholder_id p) inputs) _ h (λ i e h1.
        after_check (not i.required) _ h1 (λ needed rest.
          let fit : (v : Value) × (lookup (placeholder_id p) values ≡ some v) × Fits go i v =
            agree.value_of (placeholder_id p) i e in
          let there : fit.0.present ≡ true = fit.2.given (ground (arith, needed)) in
          let found : lookup (placeholder_id p) values ≡ some fit.0 = fit.1 in
          ground (arith, found, there)))

  render_pieces_succeeds :
      (declared : List Input) (pieces : List Piece) (path : Text) {u : Unit {0}}
      → validate_pieces inputs pieces path ≡ ok u
      → is_ok (render_pieces go declared values pieces) ≡ true
  unfolding validate_pieces render_pieces
  render_pieces_succeeds declared [] path h = refl
  render_pieces_succeeds declared (plain t ∷ rest) path h =
      ground (arith, render_pieces_succeeds declared rest path h)
  render_pieces_succeeds declared (matched p ∷ rest) path h =
      after_ok (validate_placeholder inputs (placeholder_id p) path) h (λ u valid h1. ground (
        arith,
        render_placeholder_succeeds declared p path valid,
        render_pieces_succeeds declared rest path h1,
      ))

  render_secret_succeeds :
      (declared : List Input) (s : Stdin) (secrets : ℕ)
      → is_empty s.input ≡ false
      → is_only_secret (lookup s.input inputs) secrets ≡ true
      → is_ok (render_stdin_of go declared values s) ≡ true
  unfolding render_stdin_of
  render_secret_succeeds declared s secrets named only =
      elim (Option-cases (lookup s.input inputs)) [
        | inl e ↦ absurd (ground (arith, only, e))
        | inr (i, e) ↦
            let fit : (v : Value) × (lookup s.input values ≡ some v) × Fits go i v =
              agree.value_of s.input i e in
            let secret : is_secret i.kind ≡ true = ground (arith, only, e) in
            let there : fit.0.present ≡ true =
              fit.2.given (agree.secret_required s.input i e secret) in
            let found : lookup s.input values ≡ some fit.0 = fit.1 in
            ground (arith, named, found, there)
      ]

  template_succeeds :
      (declared : List Input) (s : Stdin) (path : Text) {u : Unit {0}}
      → is_empty s.input ≡ true
      → validate_pieces inputs (go.split_placeholders s.yaml_template) path ≡ ok u
      → is_ok (render_stdin_of go declared values s) ≡ true
  unfolding render_stdin_of
  template_succeeds declared s path unnamed valid =
      rw unnamed
        (render_pieces_succeeds declared (go.split_placeholders s.yaml_template) path valid)

  render_stdin_of_succeeds :
      (declared : List Input) (s : Stdin) (risk : Risk) (secrets : ℕ) (path : Text) {u : Unit {0}}
      → validate_stdin_of go risk secrets s inputs path ≡ ok u
      → is_ok (render_stdin_of go declared values s) ≡ true
  unfolding validate_stdin_of validate_template
  render_stdin_of_succeeds declared s risk secrets path {u} h =
      elim (Bool-cases (is_empty s.input)) [
        | inr named ↦ render_secret_succeeds declared s secrets named (ground (arith, h, named))
        | inl unnamed ↦
            let valid : validate_pieces inputs (go.split_placeholders s.yaml_template)
                  (path ++ lit ".yamlTemplate")
                ≡ ok tt =
              ground (arith, h, unnamed) in
            template_succeeds declared s (path ++ lit ".yamlTemplate") unnamed valid
      ]

  pub render_stdin_succeeds :
      (c : Command) (path : Text) {u : Unit {0}}
      → validate_stdin go c inputs path ≡ ok u
      → is_ok (render_stdin go c values) ≡ true
  unfolding validate_stdin render_stdin
  render_stdin_succeeds c path h = elim (Option-cases c.stdin) [
    | inl e ↦ rw e refl
    | inr (s, e) ↦ rw e (
        render_stdin_of_succeeds c.inputs s c.risk (count_secrets c.inputs) (path ++ lit ".stdin")
          (ground (arith, h, e)))
  ]
