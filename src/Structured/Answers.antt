-- ===== src/Structured/Answers.antt =====
-- What an available result holds: an answer for each declared field, in their order.
use cliharbor.Prelude.{
  ℕ, ◌≤◌, ◌≡◌, refl, subst, inl, inr, Bool, true, false, not, ◌&&◌, ◌||◌, ◌==◌, List, [], ◌∷◌,
  length, ltb, is_some, arith, Bool-cases,
}
use cliharbor.Prelude.Result.{Result, ok, err, ok_injective, after_ok, after_check}
use cliharbor.Prelude.Text.{Text}
use cliharbor.Prelude.Dict.{Dict, lookup, insert}
use cliharbor.Go.{Go}
use cliharbor.Packs.{StructuredField, StructuredOutput}
use cliharbor.Structured.{
  Field, Refusal, refused_invalid, refused_unavailable, available, max_input_bytes, max_fields,
  to_outcome, invalid_outcome, unavailable_outcome, declare_fields, parse_object, collect_fields,
  parse_fields, parse,
}

-- The field answers its declaration.
pub record Answer (f : StructuredField) (a : Field) : Type 0 where
  pub same_key : a.key ≡ f.key
  pub same_label : a.label ≡ f.label
  pub same_kind : a.kind ≡ f.kind
  pub given : f.required ≡ true → a.present ≡ true
  pub no_value : a.present ≡ false → a.value ≡ []

abbrev pub Answers : List StructuredField → List Field → Type 0
Answers [] [] = Unit {0}
Answers [] (a ∷ found) = ⊥
Answers (f ∷ fs) [] = ⊥
Answers (f ∷ fs) (a ∷ found) = Answer f a × Answers fs found

abbrev pub NoneSensitive : List StructuredField → Type 0
NoneSensitive [] = Unit {0}
NoneSensitive (f ∷ fs) = (f.sensitive ≡ false) × NoneSensitive fs

declare_fields-NoneSensitive :
    (fs : List StructuredField) (declared : Dict StructuredField) {d : Dict StructuredField}
    → declare_fields fs declared ≡ ok d
    → NoneSensitive fs
unfolding declare_fields
declare_fields-NoneSensitive [] declared h = tt
declare_fields-NoneSensitive (f ∷ fs) declared {d} h = (
  ground (arith, h),
  declare_fields-NoneSensitive fs (insert f.key f declared) {d = d} (ground (arith, h)),
)

collect_fields-Answers :
    (fs : List StructuredField) (seen : Dict Text) {found : List Field}
    → collect_fields fs seen ≡ ok found
    → Answers fs found
unfolding collect_fields
collect_fields-Answers [] seen h = subst (Answers []) (ok_injective h) tt
collect_fields-Answers (f ∷ fs) seen h =
    elim (Bool-cases (f.required && not (is_some (lookup f.key seen)))) [
      | inl missing ↦ absurd (ground (arith, h, missing))
      | inr present ↦ after_ok (collect_fields fs seen) (rw present at h) (λ more e last.
          subst (Answers (f ∷ fs)) (ok_injective last) (
            record {
              same_key = refl;
              same_label = refl;
              same_kind = refl;
              given = λ r. ground (arith, present, r);
              no_value = λ n. ground (arith, n);
            },
            collect_fields-Answers fs seen e,
          ))
    ]

to_outcome-available :
    (renderer : Text) (r : Result Refusal (List Field))
    → (to_outcome renderer r).status ≡ available
    → r ≡ ok (to_outcome renderer r).fields
unfolding to_outcome invalid_outcome unavailable_outcome
to_outcome-available renderer (ok fields) h = refl
to_outcome-available renderer (err (refused_invalid c)) h = absurd (cc h)
to_outcome-available renderer (err (refused_unavailable c)) h = absurd (cc h)

parse_fields-Answers :
    (go : Go) (cancelled : ℕ → Bool) (input : Text) (spec : StructuredOutput) {found : List Field}
    → parse_fields go cancelled input spec ≡ ok found
    → Answers spec.fields found × NoneSensitive spec.fields × (length input ≤ max_input_bytes)
unfolding parse_fields
parse_fields-Answers go cancelled input spec h = after_check (cancelled 0) _ h (λ live h1.
    after_check (ltb max_input_bytes (length input)) _ h1 (λ short h2.
      after_check (not (go.valid_utf8 input)) _ h2 (λ valid h3.
        after_check (length spec.fields == 0 || ltb max_fields (length spec.fields)) _ h3
          (λ some_fields h4. after_ok (declare_fields spec.fields []) h4 (λ declared e h5.
            after_ok (parse_object go cancelled declared (go.json_tokens input)) h5 (λ seen e' last.
              (
                collect_fields-Answers spec.fields seen last,
                declare_fields-NoneSensitive spec.fields [] e,
                ground (arith, short),
              )))))))

-- An available result has, for each declared field and in their order, an answer of the same key,
-- label and type, present if the field is required and with an empty value if it is absent; no
-- declared field is sensitive, and the input is within its limit.
pub parse-Answers :
    (go : Go) (cancelled : ℕ → Bool) (input : Text) (spec : StructuredOutput) (renderer : Text)
    → (parse go cancelled input spec renderer).status ≡ available
    → Answers spec.fields (parse go cancelled input spec renderer).fields
      × NoneSensitive spec.fields
      × (length input ≤ max_input_bytes)
unfolding parse
parse-Answers go cancelled input spec renderer h =
    parse_fields-Answers go cancelled input spec
      (to_outcome-available renderer (parse_fields go cancelled input spec) h)
