-- ===== src/Executor/Limits.antt =====
-- What a write of the process brings to the sink: all of it, or the part up to the limit.
use cliharbor.Prelude.{
  ℕ, zero, suc, ◌+◌, ◌^◌, refl, ◌-◌, ◌≤◌, ◌<◌, ◌≡◌, sym, subst, ap, ◌∙◌, inl, inr, Bool, true, none,
  some, [], ◌∷◌, ◌++◌, length, length-take, length-drop, take, drop, take-append-drop, ltb,
  if◌then◌else◌, arith, Bool-cases,
}
use mathlib.Core.List.{append-nil, append_assoc}
use cliharbor.Prelude.Int.{add64}
use cliharbor.Prelude.Text.{Text}
use cliharbor.Executor.{Event, output_limit}
use cliharbor.Executor.Writer.{Stream, Writer, emit, fail, write_chunks, goes_over, kept, write}

-- A sink that takes every event and joins the bytes.
abbrev pub collect : Text → Event → Text × Bool
collect t e = (t ++ e.bytes, true)

abbrev with_bytes : Stream Text → Text → Stream Text
with_bytes s p = record s { sink = s.sink ++ p }

emit-collect :
    (s : Stream Text) (e : Event) → s.first ≡ none → emit collect s e ≡ (with_bytes s e.bytes, none)
unfolding emit
emit-collect s e h = ground (arith, h)

write_chunks-collect :
    (fuel : ℕ) (w : Writer) (event : Text → Event) (s : Stream Text) (p : Text)
    → ((b : Text) → (event b).bytes ≡ b)
    → s.first ≡ none
    → 0 < w.chunk_bytes
    → length p ≤ fuel
    → write_chunks collect fuel w event s p ≡ (with_bytes s p, none)
unfolding write_chunks
write_chunks-collect fuel w event s [] bytes h c l =
    ap (λ t. (record s { sink = t }, none)) (sym (append-nil s.sink))
write_chunks-collect zero w event s (b ∷ p) bytes h c l = absurd (omega (arith, l))
write_chunks-collect (suc fuel) w event s (b ∷ p) bytes h c l =
    let q : Text = take w.chunk_bytes (b ∷ p) in
    let r : Text = drop w.chunk_bytes (b ∷ p) in
    let sent : emit collect s (event q) ≡ (with_bytes s q, none) =
      emit-collect s (event q) h ∙ ap (λ t. (with_bytes s t, none)) (bytes q) in
    let fewer : length r ≤ fuel = omega (arith, l, c, length-drop w.chunk_bytes (b ∷ p)) in
    let later : write_chunks collect fuel w event (with_bytes s q) r
        ≡ (with_bytes (with_bytes s q) r, none) =
      write_chunks-collect fuel w event (with_bytes s q) r bytes h c fewer in
    let joined : (s.sink ++ q) ++ r ≡ s.sink ++ (b ∷ p) =
      append_assoc s.sink q r ∙ ap (λ t. s.sink ++ t) (take-append-drop w.chunk_bytes (b ∷ p)) in
    subst
      (λ o.
        elim o.1 [ some e ↦ (o.0, some e) | none ↦ write_chunks collect fuel w event o.0 r ]
        ≡ (with_bytes s (b ∷ p), none))
      (sym sent) (later ∙ ap (λ t. (record s { sink = t }, none)) joined)

take_whole : (n : ℕ) (p : Text) → length p ≤ n → take n p ≡ p
take_whole zero [] h = refl
take_whole (suc n) [] h = refl
take_whole zero (b ∷ p) h = absurd (omega (arith, h))
take_whole (suc n) (b ∷ p) h = ap (λ t. b ∷ t) (take_whole n p (omega (arith, h)))

-- Far from the ends of int64 the test is the one on numbers.
goes_over-ltb :
    (w : Writer) (p : Text)
    → w.max_bytes < 2 ^ 62
    → length p < 2 ^ 62
    → w.total ≤ w.max_bytes
    → goes_over w p ≡ ltb w.max_bytes (w.total + length p)
goes_over-ltb w p m l h = ground (arith, m, l, h)

kept-take :
    (w : Writer) (p : Text)
    → w.max_bytes < 2 ^ 62
    → length p < 2 ^ 62
    → w.total ≤ w.max_bytes
    → kept w p ≡ take (w.max_bytes - w.total) p
kept-take w p m l h = elim (Bool-cases (goes_over w p)) [
  | inl over ↦ rw over refl
  | inr fits ↦ rw fits (
      sym (take_whole (w.max_bytes - w.total) p (ground (arith, fits, goes_over-ltb w p m l h, h))))
]

-- For a writer within its limit and a sink that takes every event, with chunks of at least one byte,
-- no error before, and the limit and the write each below 2^62 bytes: the sink gets the longest
-- beginning of the write that the limit has room for, in order and without a gap, whatever the size
-- of a chunk; the total grows by its length and stays within the limit; and the write is an error
-- exactly when it went over the limit.
pub write-kept :
    (w : Writer) (event : Text → Event) (s : Stream Text) (p : Text)
    → ((b : Text) → (event b).bytes ≡ b)
    → s.first ≡ none
    → 0 < w.chunk_bytes
    → w.total ≤ w.max_bytes
    → w.max_bytes < 2 ^ 62
    → length p < 2 ^ 62
    → ((write collect w event s p).1.sink ≡ s.sink ++ take (w.max_bytes - w.total) p)
      × ((write collect w event s p).0.total ≡ w.total + length (take (w.max_bytes - w.total) p))
      × ((write collect w event s p).0.total ≤ w.max_bytes)
      × ((write collect w event s p).2
          ≡ (if ltb w.max_bytes (w.total + length p) then some output_limit else none))
unfolding write fail
write-kept w event s p bytes h c l m n =
    let q : Text = take (w.max_bytes - w.total) p in
    let same : kept w p ≡ q = kept-take w p m n l in
    let test : goes_over w p ≡ ltb w.max_bytes (w.total + length p) = goes_over-ltb w p m n l in
    let done : write_chunks collect (length (kept w p)) w event s (kept w p)
        ≡ (with_bytes s (kept w p), none) =
      write_chunks-collect (length (kept w p)) w event s (kept w p) bytes h c (omega arith) in
    let bound : w.total + length q ≤ w.max_bytes =
      omega (arith, l, length-take (w.max_bytes - w.total) p) in
    let sum : add64 w.total (length (kept w p)) ≡ w.total + length q =
      rw same (omega (arith, bound, m)) in
    let total : (write collect w event s p).0.total ≡ w.total + length q =
      ground (arith, done, sum) in
    (
      ground (arith, done, h, same),
      total,
      omega (arith, total, bound),
      ground (arith, done, h, test),
    )
