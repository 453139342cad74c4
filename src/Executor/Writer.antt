-- ===== src/Executor/Writer.antt =====
-- internal/executor/executor.go: `eventWriter.Write` and the latch of `streamState`. A sink is a
-- function of its own state that says whether it took the event. The counters are int64 words.
use cliharbor.Prelude.{
  ℕ, zero, suc, ◌-◌, Bool, Option, none, some, [], ◌∷◌, length, take, drop, if◌then◌else◌,
}
use cliharbor.Prelude.Int.{add64, signed_lt64}
use cliharbor.Prelude.Text.{Text}
use cliharbor.Executor.{Event, EventType, ErrorCode, output_limit, sink_failed}

-- `first` is the latched error; `cancels` counts the calls of the cancel function.
pub record Stream (S : Type 0) : Type 0 where
  pub sink : S
  pub first : Option ErrorCode
  pub cancels : ℕ

pub record Writer : Type 0 where
  pub kind : EventType
  pub chunk_bytes : ℕ
  pub max_bytes : ℕ
  pub total : ℕ

-- `w.total + int64(len(p)) > w.maxBytes`
abbrev pub goes_over : Writer → Text → Bool
goes_over w p = signed_lt64 w.max_bytes (add64 w.total (length p))

-- What is kept of a write: all of it, or the part up to the limit.
abbrev pub kept : Writer → Text → Text
kept w p = if goes_over w p then take (w.max_bytes - w.total) p else p

module _ {S : Type 0} (deliver : S → Event → S × Bool) where
  unfoldable pub emit : Stream S → Event → Stream S × Option ErrorCode
  emit s e = elim s.first [
    | some c ↦ (s, some c)
    | none ↦
        let (sink', taken) = deliver s.sink e in
        if taken then (record s { sink = sink' }, none) else (
          record s { sink = sink'; first = some sink_failed; cancels = suc s.cancels },
          some sink_failed,
        )
  ]

  unfoldable pub fail : Stream S → ErrorCode → Stream S
  fail s c = elim s.first [
    | some d ↦ s
    | none ↦ record s { first = some c; cancels = suc s.cancels }
  ]

  -- `for len(p) > 0`: the fuel is the number of bytes, since a chunk holds at least one.
  unfoldable pub write_chunks :
      ℕ → Writer → (Text → Event) → Stream S → Text → Stream S × Option ErrorCode
  write_chunks fuel w event s [] = (s, none)
  write_chunks zero w event s (b ∷ p) = (s, none)
  write_chunks (suc fuel) w event s (b ∷ p) =
      let (s', failed) = emit s (event (take w.chunk_bytes (b ∷ p))) in
      let rest = write_chunks fuel w event s' (drop w.chunk_bytes (b ∷ p)) in
      elim failed [ some c ↦ (s', some c) | none ↦ rest ]

  unfoldable pub write :
      Writer → (Text → Event) → Stream S → Text → Writer × Stream S × Option ErrorCode
  write w event s p =
      let q = kept w p in
      let w' = record w { total = add64 w.total (length q) } in
      let (s', failed) = write_chunks (length q) w event s q in
      elim failed [
        | some c ↦ (w', s', some c)
        | none ↦
            if goes_over w p then (w', fail s' output_limit, some output_limit) else (w', s', none)
      ]
