-- ===== src/Discovery/Reading.antt =====
-- What `parseVersion` and the buffers of a probe read.
use cliharbor.Prelude.{
  ℕ, zero, suc, ◌+◌, ◌-◌, ◌≤◌, ◌<◌, ◌≡◌, refl, sym, ap, ◌∙◌, subst, Bool, true, false, not, some,
  List, [], ◌∷◌, ◌++◌, inl, inr, Bool-cases, Option-cases, arith, is_some, length, take, drop,
  length-append, length-take, all, leb→le, ltb, leb,
}
use mathlib.Core.List.{append-nil, append_assoc}
use cliharbor.Prelude.Text.{Text, is_empty}
use cliharbor.Host.{Host}
use cliharbor.Discovery.Versions.{BoundedBuffer, write, after_first, prefixed_matches}

length-drop-le : (n : ℕ) (t : Text) → length (drop n t) ≤ length t
length-drop-le zero t = omega arith
length-drop-le (suc n) [] = omega arith
length-drop-le (suc n) (c ∷ t) = ground (arith, length-drop-le n t)

after_first-shorter :
    (b : ℕ) (prefix t : Text) {behind : Text}
    → after_first (b ∷ prefix) t ≡ some behind
    → length behind < length t
unfolding after_first
after_first-shorter b prefix [] h = absurd (cc h)
after_first-shorter b prefix (c ∷ t) {behind} h =
    ground
      (arith, length-drop-le (length prefix) t, after_first-shorter b prefix t {behind = behind}, h)

-- The loop over the occurrences of a label ends: fuel of one more than the length of the text is
-- enough, for each label that is not empty.
pub prefixed_matches_ends :
    (host : Host) (fuel b : ℕ) (prefix t : Text)
    → length t < fuel
    → is_some (prefixed_matches host fuel (b ∷ prefix) t) ≡ true
unfolding prefixed_matches
prefixed_matches_ends host zero b prefix t h = absurd (omega arith)
prefixed_matches_ends host (suc fuel) b prefix t h =
    elim (Option-cases (after_first (b ∷ prefix) t)) [
      | inl e ↦ ground (arith, e)
      | inr (behind, e) ↦
          let less : length behind < length t = after_first-shorter b prefix t e in
          ground
            (arith, e, prefixed_matches_ends host fuel b prefix behind (omega (arith, less, h)))
    ]

-- Several calls of `Write`.
abbrev pub write_all : BoundedBuffer → List Text → BoundedBuffer
write_all b [] = b
write_all b (p ∷ ps) = write_all (write b p) ps

abbrev pub concat : List Text → Text
concat [] = []
concat (p ∷ ps) = p ++ concat ps

-- The buffer holds the first bytes of a text up to its limit, and knows whether there were more.
pub record Holds (b : BoundedBuffer) (t : Text) : Type 0 where
  pub kept : b.buf ≡ take b.max t
  pub cut : b.truncated ≡ ltb b.max (length t)

take-append_long : (n : ℕ) (s t : Text) → n ≤ length s → take n (s ++ t) ≡ take n s
take-append_long zero s t h = refl
take-append_long (suc n) [] t h = absurd (omega (arith, h))
take-append_long (suc n) (c ∷ s) t h = ap (◌∷◌ c) (take-append_long n s t (omega (arith, h)))

take-append_short : (n k : ℕ) (s t : Text) → n ≡ length s + k → take n (s ++ t) ≡ s ++ take k t
take-append_short n k [] t h = let same : n ≡ k = omega (arith, h) in ap (λ m. take m t) same
take-append_short zero k (c ∷ s) t h = absurd (omega (arith, h))
take-append_short (suc n) k (c ∷ s) t h = ap (◌∷◌ c) (take-append_short n k s t (omega (arith, h)))

take_all : (n : ℕ) (t : Text) → length t ≤ n → take n t ≡ t
take_all zero [] h = refl
take_all zero (c ∷ t) h = absurd (omega (arith, h))
take_all (suc n) [] h = refl
take_all (suc n) (c ∷ t) h = ap (◌∷◌ c) (take_all n t (omega (arith, h)))

length-pos : (t : Text) → is_empty t ≡ false → 0 < length t
length-pos [] h = absurd (cc h)
length-pos (c ∷ t) h = omega arith

write-Holds :
    (b : BoundedBuffer) (t p : Text) → is_empty p ≡ false → Holds b t → Holds (write b p) (t ++ p)
unfolding write
write-Holds b t p n h =
    let size : length b.buf ≡ length (take b.max t) = ap length h.kept in
    let total : length (t ++ p) ≡ length t + length p = length-append t p in
    let more : 0 < length p = length-pos p n in
    elim (Bool-cases (leb b.max (length b.buf))) [
      | inl full ↦
          let long : b.max ≤ length t =
            omega (arith, leb→le b.max (length b.buf) full, size, length-take b.max t) in
          rw full (record {
            kept = h.kept ∙ sym (take-append_long b.max t p long);
            cut = ground (arith, long, total, more);
          })
      | inr room ↦
          let short : length t < b.max = ground (arith, room, size, length-take b.max t) in
          let whole : b.buf ≡ t = h.kept ∙ take_all b.max t (omega (arith, short)) in
          elim (Bool-cases (ltb (b.max - length b.buf) (length p))) [
            | inl over ↦
                let room_left : b.max ≡ length t + (b.max - length b.buf) =
                  omega (arith, short, size, length-take b.max t) in
                rw room (
                  rw over (record {
                    kept =
                        ap (λ s. s ++ take (b.max - length b.buf) p) whole
                        ∙ sym (take-append_short b.max (b.max - length b.buf) t p room_left);
                    cut = ground (arith, over, total, room_left);
                  }))
            | inr fits ↦
                let within : length (t ++ p) ≤ b.max =
                  ground (arith, fits, short, size, total, length-take b.max t) in
                rw room (
                  rw fits (record {
                    kept = ap (λ s. s ++ p) whole ∙ sym (take_all b.max (t ++ p) within);
                    cut = h.cut ∙ ground (arith, short, within);
                  }))
          ]
    ]

abbrev pub nonempty : Text → Bool
nonempty t = not (is_empty t)

write_all-Holds :
    (b : BoundedBuffer) (t : Text) (ps : List Text)
    → all nonempty ps ≡ true
    → Holds b t
    → Holds (write_all b ps) (t ++ concat ps)
write_all-Holds b t [] a h = subst (Holds b) (sym (append-nil t)) h
write_all-Holds b t (p ∷ ps) a h =
    subst (Holds (write_all (write b p) ps)) (append_assoc t p (concat ps)) (
      write_all-Holds (write b p) (t ++ p) ps (ground (arith, a))
        (write-Holds b t p (ground (arith, a)) h))

abbrev pub empty_buffer : ℕ → BoundedBuffer
empty_buffer max = record { buf = []; max = max; truncated = false }

take_nil : (n : ℕ) → take {A = ℕ} n [] ≡ []
take_nil zero = refl
take_nil (suc n) = refl

empty_buffer-Holds : (max : ℕ) → Holds (empty_buffer max) []
empty_buffer-Holds max = record { kept = sym (take_nil max); cut = ground arith }

write-max : (b : BoundedBuffer) (p : Text) → (write b p).max ≡ b.max
unfolding write
write-max b p = ground arith

write_all-max : (b : BoundedBuffer) (ps : List Text) → (write_all b ps).max ≡ b.max
write_all-max b [] = refl
write_all-max b (p ∷ ps) = write_all-max (write b p) ps ∙ write-max b p

-- After any writes that are not empty, a new buffer holds the first bytes of all that was written,
-- up to its limit, and says truncated exactly when there was more.
pub write_all_prefix :
    (max : ℕ) (ps : List Text)
    → all nonempty ps ≡ true
    → ((write_all (empty_buffer max) ps).buf ≡ take max (concat ps))
      × ((write_all (empty_buffer max) ps).truncated ≡ ltb max (length (concat ps)))
write_all_prefix max ps a =
    let h : Holds (write_all (empty_buffer max) ps) (concat ps) =
      write_all-Holds (empty_buffer max) [] ps a (empty_buffer-Holds max) in
    let same : (write_all (empty_buffer max) ps).max ≡ max = write_all-max (empty_buffer max) ps in
    (h.kept ∙ ap (λ n. take n (concat ps)) same, h.cut ∙ ap (λ n. ltb n (length (concat ps))) same)
