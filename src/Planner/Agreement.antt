-- ===== src/Planner/Agreement.antt =====
-- The inputs that validation collects and the values that `Build` parses, side by side.
use cliharbor.Prelude.{
  ℕ, suc, ◌≡◌, refl, sym, subst, Bool, true, false, not, ◌&&◌, ◌||◌, some, List, [], ◌∷◌, ◌++◌,
  is_some, ◌⊎◌, inl, inr, Option-cases, Bool-cases, arith,
}
use cliharbor.Prelude.Int.{ℤ}
use cliharbor.Prelude.Result.{ok, fail_if, after_ok, after_check, after_some, ok_injective}
use cliharbor.Prelude.Text.{Text, lit, is_empty, text_eq}
use cliharbor.Prelude.Dict.{Dict, lookup, insert, lookup-insert, lookup_nil}
use cliharbor.Prelude.Sort.{mem_text}
use cliharbor.Go.{Go}
use cliharbor.Host.{Host}
use cliharbor.Packs.{
  is_enum, Input, InputType, InputValidation, string_input, integer_input, boolean_input,
  other_input, enum_input, multiselect_input, secret_input,
}
use cliharbor.Packs.Validation.{indexed}
use cliharbor.Packs.Validation.Arguments.{is_scalar, is_text}
use cliharbor.Packs.Validation.Inputs.{validate_input, validate_kind, exceeds}
use cliharbor.Packs.Validation.Templates.{is_secret}
use cliharbor.Packs.Validation.Semantics.{validate_inputs}
use cliharbor.Planner.{Value}
use cliharbor.Planner.Values.{
  absent, parse_value, parse_kind, parse_text, parse_integer, parse_boolean, parse_choices,
  validate_string, strict_json, starts_with_dash, below_minimum, above_maximum,
}
use cliharbor.Planner.Build.{parse_input, parse_inputs}

-- What a scalar input may add to the command line: the decimal text of an integer, with its sign, or a
-- text that does not begin with a dash.
pub data Word (go : Go) : Text → Type 0 where
  number : (n : ℤ) → Word go (go.format_int n)
  undashed : {t : Text} → starts_with_dash t ≡ false → Word go t

-- A value that an input allows: it is there when the input is required, and that of an enum is one of
-- the declared texts.
pub record Fits (go : Go) (input : Input) (v : Value) : Type 0 where
  pub given : input.required ≡ true → v.present ≡ true
  pub chosen :
      is_enum input.kind ≡ true → v.present ≡ true → mem_text v.text input.validation.allowed ≡ true
  pub word :
      is_scalar input.kind ≡ true
      → (is_text input.kind && not input.validation.disallow_leading_dash) ≡ false
      → v.present ≡ true
      → Word go v.argument

-- Each declared input has a fitting value, and secrets are required.
pub record Agree (go : Go) (inputs : Dict Input) (values : Dict Value) : Type 0 where
  pub value_of :
      (id : Text) (i : Input)
      → lookup id inputs ≡ some i
      → (v : Value) × (lookup id values ≡ some v) × Fits go i v
  pub secret_required :
      (id : Text) (i : Input)
      → lookup id inputs ≡ some i
      → is_secret i.kind ≡ true
      → i.required ≡ true

validate_string-chosen :
    (go : Go) (input : Input) (text path : Text) {u : Unit {0}}
    → validate_string go input text path ≡ ok u
    → is_enum input.kind ≡ true
    → mem_text text input.validation.allowed ≡ true
unfolding validate_string
validate_string-chosen go input text path h e = ground (arith, h, e)

validate_string-undashed :
    (go : Go) (input : Input) (text path : Text) {u : Unit {0}}
    → validate_string go input text path ≡ ok u
    → is_text input.kind ≡ true ⊎ is_scalar input.kind ≡ false
    → is_scalar input.kind ≡ true
    → (is_text input.kind && not input.validation.disallow_leading_dash) ≡ false
    → starts_with_dash text ≡ false
unfolding validate_string
validate_string-undashed go input text path h k s d = ground (arith, h, k, s, d)

parse_integer_value :
    (go : Go) (validation : InputValidation) (raw path : Text) {v : Value}
    → parse_integer go validation raw path ≡ ok v
    → (n : ℤ) × (v.argument ≡ go.format_int n) × (v.present ≡ true)
unfolding parse_integer
parse_integer_value go validation raw path h =
    after_some (strict_json go go.decode_int64 raw) _ h (λ n e h1.
      after_check (below_minimum validation.min n) _ h1 (λ a h2.
        after_check (above_maximum validation.max n) _ h2
          (λ b last. (n, ground (arith, last), ground (arith, last)))))

parse_text-Fits :
    (go : Go) (input : Input) (raw path : Text) {v : Value}
    → is_text input.kind ≡ true ⊎ is_scalar input.kind ≡ false
    → parse_text go input raw path ≡ ok v
    → Fits go input v
unfolding parse_text
parse_text-Fits go input raw path {v} dashes h =
    after_some (strict_json go go.decode_string raw) _ h (λ text e h1.
      after_ok (validate_string go input text path) h1 (λ u valid last.
        subst (Fits go input) (ok_injective last) (record {
          given = λ r. refl;
          chosen = λ k p. validate_string-chosen go input text path valid k;
          word = λ s d p. undashed (validate_string-undashed go input text path valid dashes s d);
        })))

-- A value of another type is there, and its input is no enum.

present-Fits :
    (go : Go) (input : Input) (v : Value)
    → is_enum input.kind ≡ false
    → (is_scalar input.kind ≡ true → Word go v.argument)
    → v.present ≡ true
    → Fits go input v
present-Fits go input v k w p = record {
  given = λ r. p;
  chosen = λ e q. absurd cc;
  word = λ s d q. w s;
}

parse_kind-Fits :
    (go : Go) (kind : InputType) (input : Input) (raw path : Text) {v : Value}
    → input.kind ≡ kind
    → parse_kind go kind input raw path ≡ ok v
    → Fits go input v
unfolding parse_kind parse_integer parse_boolean parse_choices
parse_kind-Fits go string_input input raw path k h =
    parse_text-Fits go input raw path (inl (rw k refl)) h
parse_kind-Fits go enum_input input raw path k h =
    parse_text-Fits go input raw path (inl (rw k refl)) h
parse_kind-Fits go secret_input input raw path k h =
    parse_text-Fits go input raw path (inr (rw k refl)) h
parse_kind-Fits go integer_input input raw path {v} k h =
    let read : (n : ℤ) × (v.argument ≡ go.format_int n) × (v.present ≡ true) =
      parse_integer_value go input.validation raw path h in
    present-Fits go input v (rw k refl) (λ s. subst (Word go) (sym read.1) (number read.0)) read.2
parse_kind-Fits go boolean_input input raw path {v} k h =
    present-Fits go input v (rw k refl) (λ s. absurd (ground (arith, s, k))) (ground (arith, h))
parse_kind-Fits go multiselect_input input raw path {v} k h =
    present-Fits go input v (rw k refl) (λ s. absurd (ground (arith, s, k))) (ground (arith, h))
parse_kind-Fits go (other_input t) input raw path k h = absurd (cc h)

absent-Fits : (go : Go) (input : Input) → input.required ≡ false → Fits go input absent
absent-Fits go input r = record {
  given = λ q. absurd cc;
  chosen = λ e q. absurd cc;
  word = λ s d q. absurd cc;
}

parse_value-Fits :
    (go : Go) (input : Input) (raw : Text) {v : Value}
    → parse_value go input raw ≡ ok v
    → Fits go input v
unfolding parse_value
parse_value-Fits go input raw h =
    after_check (is_empty (go.trim_space raw) || text_eq (go.trim_space raw) (lit "null")) _ h
      (λ f rest. parse_kind-Fits go input.kind input raw _ refl rest)

parse_input-Fits :
    (go : Go) (given : Dict Text) (input : Input) {v : Value}
    → parse_input go given input ≡ ok v
    → Fits go input v
unfolding parse_input
parse_input-Fits go given input {v} h = elim (Option-cases (lookup input.id given)) [
  | inl e ↦ (elim (Bool-cases input.required) [
    | inl r ↦ absurd cc
    | inr r ↦ subst (Fits go input) (ground (arith, h, e, r)) (absent-Fits go input r)
  ])
  | inr (raw, e) ↦ parse_value-Fits go input raw (ground (arith, h, e))
]

validate_kind-secret :
    (kind : InputType) (required : Bool) (v : InputValidation) (path : Text) {u : Unit {0}}
    → validate_kind kind required v path ≡ ok u
    → is_secret kind ≡ true
    → required ≡ true
unfolding validate_kind
validate_kind-secret string_input required v path h s = absurd (cc s)
validate_kind-secret enum_input required v path h s = absurd (cc s)
validate_kind-secret integer_input required v path h s = absurd (cc s)
validate_kind-secret boolean_input required v path h s = absurd (cc s)
validate_kind-secret multiselect_input required v path h s = absurd (cc s)
validate_kind-secret (other_input t) required v path h s = absurd (cc s)
validate_kind-secret secret_input required v path h s = ground (arith, h)

validate_input-secret :
    (host : Host) (i : Input) (path : Text) {u : Unit {0}}
    → validate_input host i path ≡ ok u
    → is_secret i.kind ≡ true
    → i.required ≡ true
unfolding validate_input
validate_input-secret host i path h s =
    after_check (exceeds i.validation.min i.validation.max) _ h (λ e1 h1.
      after_check (exceeds i.validation.min_length i.validation.max_length) _ h1 (λ e2 h2.
        after_check
          (not (is_empty i.validation.pattern) && not (host.compiles i.validation.pattern)) _ h2
          (λ e3 h3. validate_kind-secret i.kind i.required i.validation path h3 s)))

Agree-insert :
    (go : Go) (inputs : Dict Input) (values : Dict Value) (i : Input) (v : Value)
    → Agree go inputs values
    → Fits go i v
    → (is_secret i.kind ≡ true → i.required ≡ true)
    → Agree go (insert i.id i inputs) (insert i.id v values)
Agree-insert go inputs values i v agree fits secret = record {
  value_of = λ id j e. elim (Bool-cases (text_eq i.id id)) [
    | inl same ↦ (
      v,
      ground (arith, lookup-insert i.id id v values, same),
      subst (λ k. Fits go k v) (ground (arith, lookup-insert i.id id i inputs, same)) fits,
    )
    | inr other ↦
        let old = agree.value_of id j (ground (arith, lookup-insert i.id id i inputs, other)) in
        (old.0, ground (arith, lookup-insert i.id id v values, other, old.1), old.2)
  ];
  secret_required = λ id j e is. elim (Bool-cases (text_eq i.id id)) [
    | inl same ↦
        let equal : i ≡ j = ground (arith, lookup-insert i.id id i inputs, same) in
        subst (λ (k : Input). is_secret k.kind ≡ true → k.required ≡ true) equal secret is
    | inr other ↦
        agree.secret_required id j (ground (arith, lookup-insert i.id id i inputs, other)) is
  ];
}

pub parse_inputs-Agree :
    (host : Host) (go : Go) (path : Text) (index : ℕ) (given : Dict Text) (declared : List Input)
    (inputs : Dict Input) (values : Dict Value) {inputs' : Dict Input} {values' : Dict Value}
    → validate_inputs host go path index declared inputs ≡ ok inputs'
    → parse_inputs go given declared values ≡ ok values'
    → Agree go inputs values
    → Agree go inputs' values'
unfolding validate_inputs parse_inputs
parse_inputs-Agree host go path index given [] inputs values {inputs'} h k agree =
    subst (λ v. Agree go inputs' v) (ok_injective k)
      (subst (λ i. Agree go i values) (ok_injective h) agree)
parse_inputs-Agree host go path index given (i ∷ rest) inputs values h k agree =
    after_ok (fail_if (is_some (lookup i.id inputs)) _) h (λ u fresh h1.
      after_ok (validate_input host i (indexed go (path ++ lit ".inputs") index)) h1 (λ u' valid h2.
        after_ok (parse_input go given i) k (λ v parsed k1.
          parse_inputs-Agree host go path (suc index) given rest (insert i.id i inputs)
            (insert i.id v values) h2 k1
            (Agree-insert go inputs values i v agree (parse_input-Fits go given i parsed)
              (validate_input-secret host i _ valid)))))

pub Agree-nil : (go : Go) → Agree go [] []
Agree-nil go = record {
  value_of = λ id i e. absurd (ground (arith, e, lookup_nil {V = Input} id));
  secret_required = λ id i e s. absurd (ground (arith, e, lookup_nil {V = Input} id));
}
