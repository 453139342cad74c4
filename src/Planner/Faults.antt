-- ===== src/Planner/Faults.antt =====
-- The errors of `Build` that blame the program, and the steps of `Build` that have none.
use cliharbor.Prelude.{
  ℕ, suc, ◌≡◌, refl, Bool, true, false, not, ◌&&◌, Option, none, some, List, [], ◌∷◌, ◌++◌, is_some,
  inl, inr, Option-cases, arith,
}
use cliharbor.Prelude.Result.{Result, ok, err, ◌>>=◌, fail_if, is_ok, after_ok, after_check}
use cliharbor.Prelude.Text.{Text, lit, is_empty}
use cliharbor.Prelude.Dict.{Dict, lookup, insert}
use cliharbor.Go.{Go}
use cliharbor.Host.{Host}
use cliharbor.Packs.{
  Input, InputType, InputValidation, Command, LoadedPack, Impact, Risk, string_input, integer_input,
  boolean_input, other_input, enum_input, multiselect_input, secret_input,
}
use cliharbor.Packs.Validation.{indexed}
use cliharbor.Packs.Validation.Inputs.{validate_kind, validate_input, exceeds}
use cliharbor.Packs.Validation.Semantics.{validate_inputs, validate_mutation}
use cliharbor.Discovery.{Snapshot}
use cliharbor.Planner.{PlanError, ErrorCode, invalid_plan_state, Value}
use cliharbor.Planner.Values.{
  parse_value, parse_kind, parse_text, parse_integer, parse_boolean, parse_choices, check_choices,
  validate_string, check_pattern, strict_json, value_path,
}
use cliharbor.Planner.Build.{
  check_risk, check_policy, check_tool, check_unknown, parse_input, parse_inputs,
}

abbrev pub is_internal : ErrorCode → Bool
is_internal invalid_plan_state = true
is_internal _ = false

-- An outcome that blames the program and not the request.
abbrev pub is_fault {ℓ} : {A : Type ℓ} → Result PlanError A → Bool
is_fault (ok a) = false
is_fault (err e) = is_internal e.code

pub bind_no_fault {ℓ κ} :
    {A : Type ℓ} {B : Type κ} (first : Result PlanError A) (f : A → Result PlanError B)
    → is_fault first ≡ false
    → ((a : A) → is_fault (f a) ≡ false)
    → is_fault (first >>= f) ≡ false
bind_no_fault (err d) f h k = h
bind_no_fault (ok a) f h k = k a

-- What `regexp` documents: an expression that `Compile` accepts, matches.
abbrev pub Compiles : Host → Go → Type 0
Compiles host go = (p t : Text) → host.compiles p ≡ true → is_some (go.match_pattern p t) ≡ true

abbrev Usable : Host → Text → Type 0
Usable host pattern = (not (is_empty pattern) && not (host.compiles pattern)) ≡ false

check_pattern_no_fault :
    (host : Host) (go : Go) (pattern text path : Text)
    → Compiles host go
    → Usable host pattern
    → is_fault (check_pattern go pattern text path) ≡ false
unfolding check_pattern
check_pattern_no_fault host go pattern text path c v = ground (arith, c pattern text, v)

validate_string_no_fault :
    (host : Host) (go : Go) (i : Input) (text path : Text)
    → Compiles host go
    → Usable host i.validation.pattern
    → is_fault (validate_string go i text path) ≡ false
unfolding validate_string
validate_string_no_fault host go i text path c v =
    ground (arith, check_pattern_no_fault host go i.validation.pattern text path c v)

check_choices_no_fault :
    (allowed seen many : List Text) (path : Text)
    → is_fault (check_choices allowed seen many path) ≡ false
unfolding check_choices
check_choices_no_fault allowed seen [] path = refl
check_choices_no_fault allowed seen (m ∷ rest) path =
    ground (arith, check_choices_no_fault allowed (m ∷ seen) rest path)

parse_text_no_fault :
    (host : Host) (go : Go) (i : Input) (raw path : Text)
    → Compiles host go
    → Usable host i.validation.pattern
    → is_fault (parse_text go i raw path) ≡ false
unfolding parse_text
parse_text_no_fault host go i raw path c v =
    elim (Option-cases (strict_json go go.decode_string raw)) [
      | inl e ↦ rw e refl
      | inr (text, e) ↦ ground (arith, e, validate_string_no_fault host go i text path c v)
    ]

abbrev is_supported : InputType → Bool
is_supported (other_input t) = false
is_supported _ = true

parse_kind_no_fault :
    (host : Host) (go : Go) (kind : InputType) (i : Input) (raw path : Text)
    → is_supported kind ≡ true
    → Compiles host go
    → Usable host i.validation.pattern
    → is_fault (parse_kind go kind i raw path) ≡ false
unfolding parse_kind parse_integer parse_boolean parse_choices
parse_kind_no_fault host go string_input i raw path s c v =
    parse_text_no_fault host go i raw path c v
parse_kind_no_fault host go enum_input i raw path s c v = parse_text_no_fault host go i raw path c v
parse_kind_no_fault host go secret_input i raw path s c v =
    parse_text_no_fault host go i raw path c v
parse_kind_no_fault host go integer_input i raw path s c v =
    elim (Option-cases (strict_json go go.decode_int64 raw)) [
      | inl e ↦ rw e refl
      | inr (n, e) ↦ ground (arith, e)
    ]
parse_kind_no_fault host go boolean_input i raw path s c v =
    elim (Option-cases (strict_json go go.decode_bool raw)) [
      | inl e ↦ rw e refl
      | inr (b, e) ↦ rw e refl
    ]
parse_kind_no_fault host go multiselect_input i raw path s c v =
    elim (Option-cases (strict_json go go.decode_strings raw)) [
      | inl e ↦ rw e refl
      | inr (none, e) ↦ rw e refl
      | inr (some many, e) ↦
          ground (arith, e, check_choices_no_fault i.validation.allowed [] many path)
    ]
parse_kind_no_fault host go (other_input t) i raw path s c v = absurd (cc s)

parse_input_no_fault :
    (host : Host) (go : Go) (given : Dict Text) (i : Input)
    → is_supported i.kind ≡ true
    → Compiles host go
    → Usable host i.validation.pattern
    → is_fault (parse_input go given i) ≡ false
unfolding parse_input parse_value
parse_input_no_fault host go given i s c v = elim (Option-cases (lookup i.id given)) [
  | inl e ↦ ground (arith, e)
  | inr (raw, e) ↦
      ground (arith, e, parse_kind_no_fault host go i.kind i raw (value_path i.id) s c v)
]

validate_input-Usable :
    (host : Host) (i : Input) (path : Text) {u : Unit {0}}
    → validate_input host i path ≡ ok u
    → Usable host i.validation.pattern
unfolding validate_input
validate_input-Usable host i path h =
    after_check (exceeds i.validation.min i.validation.max) _ h (λ e1 h1.
      after_check (exceeds i.validation.min_length i.validation.max_length) _ h1 (λ e2 h2.
        after_check
          (not (is_empty i.validation.pattern) && not (host.compiles i.validation.pattern)) _ h2
          (λ e3 h3. e3)))

validate_kind-supported :
    (kind : InputType) (required : Bool) (v : InputValidation) (path : Text) {u : Unit {0}}
    → validate_kind kind required v path ≡ ok u
    → is_supported kind ≡ true
unfolding validate_kind
validate_kind-supported string_input required v path h = refl
validate_kind-supported enum_input required v path h = refl
validate_kind-supported integer_input required v path h = refl
validate_kind-supported boolean_input required v path h = refl
validate_kind-supported multiselect_input required v path h = refl
validate_kind-supported secret_input required v path h = refl
validate_kind-supported (other_input t) required v path h = absurd (cc h)

validate_input-supported :
    (host : Host) (i : Input) (path : Text) {u : Unit {0}}
    → validate_input host i path ≡ ok u
    → is_supported i.kind ≡ true
unfolding validate_input
validate_input-supported host i path h =
    after_check (exceeds i.validation.min i.validation.max) _ h (λ e1 h1.
      after_check (exceeds i.validation.min_length i.validation.max_length) _ h1 (λ e2 h2.
        after_check
          (not (is_empty i.validation.pattern) && not (host.compiles i.validation.pattern)) _ h2
          (λ e3 h3. validate_kind-supported i.kind i.required i.validation path h3)))

pub parse_inputs_no_fault :
    (host : Host) (go : Go) (path : Text) (index : ℕ) (given : Dict Text) (declared : List Input)
    (inputs : Dict Input) (values : Dict Value) {inputs' : Dict Input}
    → Compiles host go
    → validate_inputs host go path index declared inputs ≡ ok inputs'
    → is_fault (parse_inputs go given declared values) ≡ false
unfolding validate_inputs parse_inputs
parse_inputs_no_fault host go path index given [] inputs values c h = refl
parse_inputs_no_fault host go path index given (i ∷ rest) inputs values c h =
    after_ok (fail_if (is_some (lookup i.id inputs)) _) h (λ u fresh h1.
      after_ok (validate_input host i (indexed go (path ++ lit ".inputs") index)) h1 (λ u' valid h2.
        bind_no_fault (parse_input go given i)
          (λ v. parse_inputs go given rest (insert i.id v values))
          (parse_input_no_fault host go given i (validate_input-supported host i _ valid) c
            (validate_input-Usable host i _ valid))
          (λ v.
            parse_inputs_no_fault host go path (suc index) given rest (insert i.id i inputs)
              (insert i.id v values) c h2)))

check_risk_no_fault :
    (go : Go) (risk : Risk) (impact : Option Impact) (inputs : Dict Input) (path : Text)
    {u : Unit {0}}
    → validate_mutation go risk impact inputs path ≡ ok u
    → is_fault (check_risk risk (is_some impact)) ≡ false
unfolding validate_mutation check_risk
check_risk_no_fault go Risk.read o inputs path h = refl
check_risk_no_fault go Risk.change none inputs path h = absurd (cc h)
check_risk_no_fault go Risk.change (some i) inputs path h = refl
check_risk_no_fault go Risk.destructive none inputs path h = absurd (cc h)
check_risk_no_fault go Risk.destructive (some i) inputs path h = refl
check_risk_no_fault go Risk.credential_sensitive o inputs path h = refl
check_risk_no_fault go Risk.interactive o inputs path h = refl

pub check_policy_no_fault :
    (go : Go) (c : Command) (inputs : Dict Input) (path : Text) {u : Unit {0}}
    → validate_mutation go c.risk c.impact inputs path ≡ ok u
    → is_fault (check_policy c) ≡ false
unfolding check_policy
check_policy_no_fault go c inputs path h =
    bind_no_fault (check_risk c.risk (is_some c.impact)) _
      (check_risk_no_fault go c.risk c.impact inputs path h) (λ u. ground arith)

pub check_tool_no_fault :
    (snapshot : Snapshot) (pack_id tool_id : Text) (loaded : LoadedPack)
    → is_fault (check_tool snapshot pack_id tool_id loaded) ≡ false
unfolding check_tool
check_tool_no_fault snapshot pack_id tool_id loaded = ground arith

pub check_unknown_no_fault :
    (inputs : List Input) (values : Dict Text) → is_fault (check_unknown inputs values) ≡ false
unfolding check_unknown
check_unknown_no_fault inputs values = ground arith

pub refute_fault {ℓ κ} :
    {A : Type ℓ} {C : Type κ} (m : Result PlanError A) (e : PlanError)
    → is_fault m ≡ false
    → is_internal e.code ≡ true
    → m ≡ err e
    → C
refute_fault m e f internal h = absurd (ground (arith, f, internal, h))

pub refute_err {ℓ κ} :
    {A : Type ℓ} {C : Type κ} (m : Result PlanError A) (e : PlanError)
    → is_ok m ≡ true
    → m ≡ err e
    → C
refute_err m e o h = absurd (ground (arith, o, h))
