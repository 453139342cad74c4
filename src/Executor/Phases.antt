-- ===== src/Executor/Phases.antt =====
-- internal/executor/executor.go: the order in which a log of events may be written, and its phases.
use cliharbor.Prelude.{
  ◌≡◌, refl, ap, Bool, true, false, not, Option, none, some, List, [], ◌∷◌, ◌++◌, inl, inr, ◌⊎◌,
  ◌∙◌, if◌then◌else◌, is_some, Option-cases, arith,
}
use cliharbor.Prelude.Result.{Result, ok, err}
use cliharbor.Executor.{
  Event, EventType, run_started, stdout_chunk, stderr_chunk, run_exited, run_cancelled,
  run_timed_out, run_failed,
}

-- Where a log stands: before the start of the process, while it runs, after its end.
pub data Phase : Type 0 where
  before going over : Phase

unfoldable pub advance : Phase → EventType → Option Phase
advance before run_started = some going
advance going stdout_chunk = some going
advance going stderr_chunk = some going
advance going run_exited = some over
advance going run_cancelled = some over
advance going run_timed_out = some over
advance going run_failed = some over
advance _ _ = none

-- The phase that a log leads to, if its events come in order: a start, chunks, and one end.
unfoldable pub phase_of : Phase → List Event → Option Phase
unfolding advance
phase_of p [] = some p
phase_of p (e ∷ es) = elim (advance p e.kind) [ none ↦ none | some q ↦ phase_of q es ]

-- A sink that keeps the events it takes, and may refuse any.
abbrev pub record_into : (List Event → Event → Bool) → List Event → Event → List Event × Bool
record_into takes log e = if takes log e then (log ++ e ∷ [], true) else (log, false)

abbrev pub is_chunk : EventType → Bool
is_chunk stdout_chunk = true
is_chunk stderr_chunk = true
is_chunk _ = false

abbrev pub is_end : EventType → Bool
is_end run_started = false
is_end k = not (is_chunk k)

abbrev pub next : Option Phase → EventType → Option Phase
next none k = none
next (some q) k = advance q k

pub phase_of-snoc :
    (p : Phase) (log : List Event) (e : Event)
    → phase_of p (log ++ e ∷ []) ≡ next (phase_of p log) e.kind
unfolding phase_of
phase_of-snoc p [] e = elim (Option-cases (advance p e.kind)) [
  | inl h ↦ ground (arith, h)
  | inr (q, h) ↦ ground (arith, h)
]
phase_of-snoc p (x ∷ xs) e = elim (Option-cases (advance p x.kind)) [
  | inl h ↦ ground (arith, h)
  | inr (q, h) ↦ ground (arith, h, phase_of-snoc q xs e)
]

pub advance-chunk : (k : EventType) → is_chunk k ≡ true → advance going k ≡ some going
unfolding advance
advance-chunk stdout_chunk h = refl
advance-chunk stderr_chunk h = refl
advance-chunk run_started h = absurd (cc h)
advance-chunk run_exited h = absurd (cc h)
advance-chunk run_cancelled h = absurd (cc h)
advance-chunk run_timed_out h = absurd (cc h)
advance-chunk run_failed h = absurd (cc h)

pub advance-end : (k : EventType) → is_end k ≡ true → advance going k ≡ some over
unfolding advance
advance-end run_exited h = refl
advance-end run_cancelled h = refl
advance-end run_timed_out h = refl
advance-end run_failed h = refl
advance-end stdout_chunk h = absurd (cc h)
advance-end stderr_chunk h = absurd (cc h)
advance-end run_started h = absurd (cc h)

-- A log in order.
abbrev pub Ordered : List Event → Type 0
Ordered log = is_some (phase_of before log) ≡ true

abbrev pub Going : List Event → Type 0
Going log = phase_of before log ≡ some going

pub Going-Ordered : (log : List Event) → Going log → Ordered log
Going-Ordered log g = ap is_some g

pub Ordered-nil : Ordered []
unfolding phase_of
Ordered-nil = refl

pub Going-start : (e : Event) → e.kind ≡ run_started → Going (e ∷ [])
unfolding phase_of advance
Going-start e h = ground (arith, h)

pub Result-cases :
    {E A : Type 0} (r : Result E A) → ((a : A) × (r ≡ ok a)) ⊎ ((e : E) × (r ≡ err e))
Result-cases (ok a) = inl (a, refl)
Result-cases (err e) = inr (e, refl)

-- A log of output alone.
abbrev pub OnlyChunks : List Event → Type 0
OnlyChunks [] = Unit
OnlyChunks (e ∷ es) = (is_chunk e.kind ≡ true) × OnlyChunks es

pub OnlyChunks-snoc :
    (log : List Event) (e : Event)
    → is_chunk e.kind ≡ true
    → OnlyChunks log
    → OnlyChunks (log ++ e ∷ [])
OnlyChunks-snoc [] e c h = (c, tt)
OnlyChunks-snoc (x ∷ log) e c h = (h.0, OnlyChunks-snoc log e c h.1)

-- What chunks of output keep of a log.
pub record KeptByChunks (P : List Event → Type 0) : Type 0 where
  pub snoc : (log : List Event) (e : Event) → is_chunk e.kind ≡ true → P log → P (log ++ e ∷ [])

pub OnlyChunks-kept : KeptByChunks OnlyChunks
OnlyChunks-kept = record { snoc = OnlyChunks-snoc }

pub Going-kept : KeptByChunks Going
Going-kept = record {
  snoc =
      λ log e c g. phase_of-snoc before log e ∙ ap (λ q. next q e.kind) g ∙ advance-chunk e.kind c;
}
