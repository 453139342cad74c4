-- ===== src/Planner/Injection.antt =====
-- Where the elements of a command line come from.
use cliharbor.Prelude.{
  ℕ, suc, ◌≡◌, refl, subst, Bool, true, false, not, ◌&&◌, some, List, [], ◌∷◌, ◌++◌, inl, inr, ◌⊎◌,
  if◌then◌else◌, Option-cases, Bool-cases, arith,
}
use cliharbor.Prelude.Result.{ok, after_ok, after_check, after_some, ok_injective}
use cliharbor.Prelude.Text.{Text, lit, is_empty}
use cliharbor.Prelude.Dict.{Dict, lookup}
use cliharbor.Prelude.Loop.{each_at}
use cliharbor.Go.{Go}
use cliharbor.Host.{Host}
use cliharbor.Packs.{
  Input, Argument, FlagArgument, PositionalArgument, SwitchArgument, MapArgument, Command,
  LoadedPack,
}
use cliharbor.Packs.Validation.{indexed}
use cliharbor.Packs.Validation.Arguments.{is_scalar, is_text, validate_value, validate_argument}
use cliharbor.Packs.Registry.{Registry, find_pack, find_command}
use cliharbor.Packs.Validation.Semantics.{validate_semantics}
use cliharbor.Discovery.{Snapshot}
use cliharbor.Planner.{Value, Plan, Request}
use cliharbor.Planner.Build.{build, parse_inputs}
use cliharbor.Planner.Policy.{Sound, build-Sound}
use cliharbor.Planner.Validated.{Valid, validate_semantics-Valid}
use cliharbor.Planner.Argv.{
  is_omitted, render_flag, render_positional, render_switch, render_map, render_argument,
  render_argv, argv_path,
}
use cliharbor.Planner.Agreement.{Word, Fits, Agree, Agree-nil, parse_inputs-Agree}

-- The texts that the pack's author wrote into one argument.
pub data Written (a : Argument) : Text → Type 0 where
  literal : Written a a.literal
  flag_name : (f : FlagArgument) → a.flag ≡ some f → Written a f.name
  switch_name : (s : SwitchArgument) → a.switch ≡ some s → Written a s.name
  mapped_literal :
      (m : MapArgument) (key : Text) {t : Text}
      → a.mapped ≡ some m
      → lookup key m.values ≡ some t
      → Written a t

abbrev pub WrittenIn : List Argument → Text → Type 0
WrittenIn [] t = ⊥
WrittenIn (a ∷ rest) t = Written a t ⊎ WrittenIn rest t

abbrev pub Each : (Text → Type 0) → List Text → Type 0
Each P [] = Unit
Each P (t ∷ ts) = P t × Each P ts

Each-append : (P : Text → Type 0) (ts us : List Text) → Each P ts → Each P us → Each P (ts ++ us)
Each-append P [] us a b = b
Each-append P (t ∷ ts) us a b = (a.0, Each-append P ts us a.1 b)

Each-map : (P Q : Text → Type 0) (ts : List Text) → ((t : Text) → P t → Q t) → Each P ts → Each Q ts
Each-map P Q [] f a = tt
Each-map P Q (t ∷ ts) f a = (f t a.0, Each-map P Q ts f a.1)

Each-choice :
    (P : Text → Type 0) (b : Bool) (ts us : List Text) {more : List Text}
    → (if b then ts else us) ≡ more
    → (b ≡ true → Each P ts)
    → (b ≡ false → Each P us)
    → Each P more
Each-choice P true ts us e holds fails = subst (Each P) e (holds refl)
Each-choice P false ts us e holds fails = subst (Each P) e (fails refl)

module _ (go : Go) (inputs : Dict Input) (values : Dict Value)
    (agree : Agree go inputs values) where
  -- An element that one argument may add.
  abbrev From : Argument → Text → Type 0
  From a t = Word go t ⊎ Written a t

  validate_value-Word :
      (id : Text) (omit : Bool) (from_path omit_path : Text) {u : Unit {0}} (v : Value)
      → validate_value (lookup id inputs) omit from_path omit_path ≡ ok u
      → lookup id values ≡ some v
      → v.present ≡ true
      → Word go v.argument
  unfolding validate_value
  validate_value-Word id omit from_path omit_path v h found there =
      after_some (lookup id inputs) _ h (λ i e h1.
        after_check (not (is_scalar i.kind)) _ h1 (λ scalar h2.
          after_check (not i.required && not omit) _ h2 (λ r h3.
            after_check (is_text i.kind && not i.validation.disallow_leading_dash) _ h3
              (λ dash rest.
                let fit : (w : Value) × (lookup id values ≡ some w) × Fits go i w =
                  agree.value_of id i e in
                let same : fit.0 ≡ v = ground (arith, found, fit.1) in
                subst (λ (w : Value). Word go w.argument) same
                  (fit.2.word (ground (arith, scalar)) dash (ground (arith, same, there)))))))

  render_flag-From :
      (a : Argument) (f : FlagArgument) (path from_path omit_path : Text) {u : Unit {0}}
      {more : List Text}
      → a.flag ≡ some f
      → validate_value (lookup f.value_from inputs) f.omit_when_empty from_path omit_path ≡ ok u
      → render_flag values f path ≡ ok more
      → Each (From a) more
  unfolding render_flag
  render_flag-From a f path from_path omit_path e h r =
      after_some (lookup f.value_from values) _ r (λ v found last.
        Each-choice (From a) (is_omitted v f.omit_when_empty) [] (f.name ∷ v.argument ∷ [])
          (ok_injective last) (λ o. tt)
          (λ o. (
            inr (flag_name f e),
            (
              inl (
                  validate_value-Word f.value_from f.omit_when_empty from_path omit_path v h found
                    (ground (arith, o))),
              tt,
            ),
          )))

  render_positional-From :
      (a : Argument) (p : PositionalArgument) (path from_path omit_path : Text) {u : Unit {0}}
      {more : List Text}
      → validate_value (lookup p.value_from inputs) p.omit_when_empty from_path omit_path ≡ ok u
      → render_positional values p path ≡ ok more
      → Each (From a) more
  unfolding render_positional
  render_positional-From a p path from_path omit_path h r =
      after_some (lookup p.value_from values) _ r (λ v found last.
        Each-choice (From a) (is_omitted v p.omit_when_empty) [] (v.argument ∷ [])
          (ok_injective last) (λ o. tt)
          (λ o. (
            inl (
                validate_value-Word p.value_from p.omit_when_empty from_path omit_path v h found
                  (ground (arith, o))),
            tt,
          )))

  render_switch-From :
      (a : Argument) (s : SwitchArgument) (path : Text) {more : List Text}
      → a.switch ≡ some s
      → render_switch values s path ≡ ok more
      → Each (From a) more
  unfolding render_switch
  render_switch-From a s path e r = after_some (lookup s.enabled_from values) _ r (λ v found last.
      Each-choice (From a) (v.present && v.boolean) (s.name ∷ []) [] (ok_injective last)
        (λ o. (inr (switch_name s e), tt)) (λ o. tt))

  render_map-From :
      (a : Argument) (m : MapArgument) (path : Text) {more : List Text}
      → a.mapped ≡ some m
      → render_map values m path ≡ ok more
      → Each (From a) more
  unfolding render_map
  render_map-From a m path e r = after_some (lookup m.value_from values) _ r (λ v found r1.
      after_check (not v.present) _ r1 (λ there r2.
        after_some (lookup v.text m.values) _ r2 (λ t key last.
          subst (Each (From a)) (ok_injective last) (inr (mapped_literal m v.text e key), tt))))

  render_argument-From :
      (a : Argument) (path at_path : Text) {u : Unit {0}} {more : List Text}
      → validate_argument a inputs at_path ≡ ok u
      → render_argument values a path ≡ ok more
      → Each (From a) more
  unfolding render_argument validate_argument
  render_argument-From a path at_path {u} {more} h r = elim (Bool-cases (is_empty a.literal)) [
    | inr e ↦
        let one : a.literal ∷ [] ≡ more = ground (arith, r, e) in
        subst (Each (From a)) one (inr literal, tt)
    | inl e ↦ elim (Option-cases a.flag) [
      | inr (f, ef) ↦
          render_flag-From a f path (at_path ++ lit ".flag.valueFrom")
            (at_path ++ lit ".flag.omitWhenEmpty") ef (ground (arith, h, e, ef))
            (ground (arith, r, e, ef))
      | inl ef ↦ elim (Option-cases a.positional) [
        | inr (p, ep) ↦
            render_positional-From a p path (at_path ++ lit ".positional.valueFrom")
              (at_path ++ lit ".positional.omitWhenEmpty") (ground (arith, h, e, ef, ep))
              (ground (arith, r, e, ef, ep))
        | inl ep ↦ elim (Option-cases a.switch) [
          | inr (s, es) ↦ render_switch-From a s path es (ground (arith, r, e, ef, ep, es))
          | inl es ↦ elim (Option-cases a.mapped) [
            | inr (m, em) ↦ render_map-From a m path em (ground (arith, r, e, ef, ep, es, em))
            | inl em ↦ absurd (ground (arith, h, e, ef, ep, es, em))
          ]
        ]
      ]
    ]
  ]

-- What may stand on a command line of these arguments.
abbrev pub Harmless : Go → List Argument → Text → Type 0
Harmless go argv t = Word go t ⊎ WrittenIn argv t

render_argv-Harmless :
    (go : Go) (inputs : Dict Input) (values : Dict Value) (command_id path : Text) (i j : ℕ)
    (all argv : List Argument) (args : List Text) {u : Unit {0}} {out : List Text}
    → Agree go inputs values
    → ((t : Text) → WrittenIn argv t → WrittenIn all t)
    → each_at (λ k a. validate_argument a inputs (indexed go path k)) i argv ≡ ok u
    → Each (Harmless go all) args
    → render_argv go command_id values j argv args ≡ ok out
    → Each (Harmless go all) out
unfolding each_at render_argv
render_argv-Harmless go inputs values command_id path i j all [] args agree part h before r =
    subst (Each (Harmless go all)) (ok_injective r) before
render_argv-Harmless go inputs values command_id path i j all (a ∷ rest) args agree part h before
      r =
    after_ok (validate_argument a inputs (indexed go path i)) h (λ u valid h1.
      after_ok (render_argument values a (argv_path go command_id j)) r (λ more added r1.
        let here : Each (From go inputs values agree a) more =
          render_argument-From go inputs values agree a (argv_path go command_id j)
            (indexed go path i) valid added in
        render_argv-Harmless go inputs values command_id path (suc i) (suc j) all rest
          (args ++ more) agree (λ t w. part t (inr w)) h1
          (Each-append (Harmless go all) args more before (
            Each-map (From go inputs values agree a) (Harmless go all) more
              (λ t. elim [ inl w ↦ inl w | inr w ↦ inr (part t (inl w)) ]) here))
          r1))

-- On a pack that `validateSemantics` accepts, every element of the command line of a plan of `Build`
-- is one that the pack's author wrote for the command, the decimal text of an integer, which begins
-- with a dash if it is negative, or a text that does not begin with a dash.
pub build-Harmless :
    (host : Host) (go : Go) (reg : Registry) (snapshot : Snapshot) (request : Request)
    (loaded : LoadedPack) (c : Command) {u : Unit {0}} {plan : Plan}
    → find_pack reg request.pack_id ≡ some loaded
    → find_command reg request.pack_id request.command_id ≡ some c
    → validate_semantics host go loaded.pack ≡ ok u
    → build go (some reg) snapshot request ≡ ok plan
    → Each (Harmless go c.argv) plan.args
unfolding find_command
build-Harmless host go reg snapshot request loaded c {plan = plan} pack_found command_found valid
      h =
    let sound : Sound go (some reg) snapshot request plan =
      build-Sound go (some reg) snapshot request h in
    let same_reg : sound.reg ≡ reg = ground (arith, sound.has_registry) in
    let same : sound.command ≡ c = ground (arith, sound.is_command, command_found, same_reg) in
    let in_pack : lookup request.command_id loaded.pack.commands ≡ some c =
      ground (arith, pack_found, command_found) in
    let v : Valid host go (lit "commands." ++ request.command_id) c =
      validate_semantics-Valid host go loaded.pack request.command_id c valid in_pack in
    let parsed : parse_inputs go request.values c.inputs [] ≡ ok sound.values =
      subst (λ (d : Command). parse_inputs go request.values d.inputs [] ≡ ok sound.values) same
        sound.parsed in
    let rendered : render_argv go request.command_id sound.values 0 c.argv [] ≡ ok plan.args =
      subst
        (λ (d : Command). render_argv go request.command_id sound.values 0 d.argv [] ≡ ok plan.args)
        same sound.rendered in
    let agree : Agree go v.inputs sound.values =
      parse_inputs-Agree host go (lit "commands." ++ request.command_id) 0 request.values c.inputs
        [] [] v.declared parsed (Agree-nil go) in
    render_argv-Harmless go v.inputs sound.values request.command_id
      (lit "commands." ++ (request.command_id ++ lit ".argv")) 0 0 c.argv c.argv [] agree (λ t w. w)
      v.arguments tt rendered
