-- ===== src/Audit/Lines.antt =====
-- The lines of the journal file: how an appended line is split off, and read behind the others.
use cliharbor.Prelude.{
  ℕ, ◌≡◌, ◌≢◌, refl, sym, subst, inl, inr, Bool, true, false, some, List, [], ◌∷◌, ◌++◌, ◌==◌,
  arith, Bool-cases, Option-cases,
}
use cliharbor.Prelude.Text.{Text}
use cliharbor.Prelude.Dict.{Dict, insert}
use cliharbor.Audit.Entry.{Entry, Codec, is_approved}
use cliharbor.Audit.Journal.{newline, push_byte, split_lines, chop_newline, check_line, read_lines}

-- A text whose last byte is a newline.
abbrev pub EndsLine : Text → Type 0
EndsLine [] = Unit {0}
EndsLine (b ∷ []) = b ≡ newline
EndsLine (b ∷ c ∷ rest) = EndsLine (c ∷ rest)

abbrev pub NoNewline : Text → Type 0
NoNewline [] = Unit {0}
NoNewline (b ∷ rest) = ((b == newline) ≡ false) × NoNewline rest

push_byte-append :
    (b : ℕ) (xs ys : List Text) → xs ≢ [] → push_byte b (xs ++ ys) ≡ push_byte b xs ++ ys
unfolding push_byte
push_byte-append b [] ys h = absurd (h refl)
push_byte-append b (x ∷ xs) ys h = refl

push_byte-nonempty : (b : ℕ) (xs : List Text) → push_byte b xs ≢ []
unfolding push_byte
push_byte-nonempty b [] = λ e. absurd (ground (arith, e))
push_byte-nonempty b (x ∷ xs) = λ e. absurd (ground (arith, e))

split_lines-nonempty : (b : ℕ) (content : Text) → split_lines (b ∷ content) ≢ []
unfolding split_lines
split_lines-nonempty b content = elim (Bool-cases (b == newline)) [
  | inl e ↦ λ empty. absurd (ground (arith, e, empty))
  | inr e ↦ λ empty. absurd (ground (arith, e, empty, push_byte-nonempty b (split_lines content)))
]

pub split_lines-append :
    (content rest : Text)
    → EndsLine content
    → split_lines (content ++ rest) ≡ split_lines content ++ split_lines rest
unfolding split_lines
split_lines-append [] rest h = refl
split_lines-append (b ∷ []) rest h =
    let ends : (b == newline) ≡ true = ground (arith, h) in ground (arith, ends)
split_lines-append (b ∷ c ∷ content) rest h =
    let more : split_lines (c ∷ content ++ rest) ≡ split_lines (c ∷ content) ++ split_lines rest =
      split_lines-append (c ∷ content) rest h in
    let pushed : push_byte b (split_lines (c ∷ content) ++ split_lines rest)
        ≡ push_byte b (split_lines (c ∷ content)) ++ split_lines rest =
      push_byte-append b (split_lines (c ∷ content)) (split_lines rest)
        (split_lines-nonempty c content) in
    ground (arith, more, pushed)

pub split_lines-one :
    (raw : Text) → NoNewline raw → split_lines (raw ++ newline ∷ []) ≡ (raw ++ newline ∷ []) ∷ []
unfolding split_lines push_byte
split_lines-one [] h = refl
split_lines-one (b ∷ raw) h = ground (arith, h.0, split_lines-one raw h.1)

pub chop_newline-append : (raw : Text) → chop_newline (raw ++ newline ∷ []) ≡ some raw
unfolding chop_newline
chop_newline-append [] = refl
chop_newline-append (b ∷ []) = refl
chop_newline-append (b ∷ c ∷ raw) = rw (chop_newline-append (c ∷ raw))

pub EndsLine-append : (content raw : Text) → EndsLine (content ++ (raw ++ newline ∷ []))
EndsLine-append [] [] = refl
EndsLine-append [] (b ∷ []) = refl
EndsLine-append [] (b ∷ c ∷ raw) = EndsLine-append [] (c ∷ raw)
EndsLine-append (b ∷ []) [] = refl
EndsLine-append (b ∷ []) (c ∷ raw) = EndsLine-append [] (c ∷ raw)
EndsLine-append (b ∷ c ∷ content) raw = EndsLine-append (c ∷ content) raw

pub read_lines-append :
    (codec : Codec) (entries found : List Entry) (seen seen' : Dict Bool) (lines : List Text)
    (line : Text) (e : Entry)
    → read_lines codec entries seen lines ≡ some (found, seen')
    → check_line codec found seen' line ≡ some e
    → read_lines codec entries seen (lines ++ line ∷ [])
      ≡ some (found ++ e ∷ [], insert e.event.run_id (is_approved e.event) seen')
unfolding read_lines
read_lines-append codec entries found seen seen' [] line e h k =
    let same : entries ≡ found = ground (arith, h) in
    let same' : seen ≡ seen' = ground (arith, h) in
    let k' : check_line codec entries seen line ≡ some e =
      subst (λ s. check_line codec entries s line ≡ some e) (sym same')
        (subst (λ f. check_line codec f seen' line ≡ some e) (sym same) k) in
    ground (arith, k', same, same')
read_lines-append codec entries found seen seen' (l ∷ lines) line e h k =
    elim (Option-cases (check_line codec entries seen l)) [
      | inl c ↦ absurd (ground (arith, h, c))
      | inr (x, c) ↦
          let h' : read_lines codec (entries ++ x ∷ [])
                (insert x.event.run_id (is_approved x.event) seen) lines
              ≡ some (found, seen') =
            ground (arith, h, c) in
          ground (
            arith,
            c,
            read_lines-append codec (entries ++ x ∷ []) found
                (insert x.event.run_id (is_approved x.event) seen) seen' lines line e h' k,
          )
    ]
