-- ===== src/Executor/Protocol.antt =====
-- What the sink of a run sees, for every run of every process.
use cliharbor.Prelude.{
  ℕ, zero, suc, ◌≡◌, refl, ap, sym, subst, ◌∙◌, Bool, true, false, none, some, List, [], ◌∷◌, ◌++◌,
  inl, inr, Bool-cases, Option-cases, arith, length, take, drop,
}
use cliharbor.Prelude.Result.{◌>>◌}
use cliharbor.Prelude.Text.{Text, is_empty}
use cliharbor.Prelude.Int.{ℤ}
use cliharbor.Host.{Host}
use cliharbor.Discovery.Files.{Files}
use cliharbor.Planner.{Plan}
use cliharbor.Executor.{
  Event, ErrorCode, output_limit, sink_failed, run_started, stdout_chunk, stderr_chunk, run_exited,
  run_cancelled, run_timed_out, run_failed,
}
use cliharbor.Executor.Writer.{Stream, Writer, emit, fail, write_chunks, write, goes_over, kept}
use cliharbor.Executor.Plans.{validate_plan, revalidate_executable}
use cliharbor.Executor.Run.{
  Pipes, Script, Settings, Written, event_of, exit_code_of, exit_with, judge_exit, after_wait,
  write_out, write_outs, run_started_process, unattached, launch, run, new_pipes,
}
use cliharbor.Executor.Phases.{
  before, over, phase_of, record_into, is_chunk, is_end, next, phase_of-snoc, OnlyChunks,
  KeptByChunks, OnlyChunks-kept, Going-kept, advance-end, Ordered, Going, Going-Ordered,
  Ordered-nil, Going-start, Result-cases,
}

module _ (takes : List Event → Event → Bool) where
  emit-kept :
      (P : List Event → Type 0) (s : Stream (List Event)) (e : Event)
      → KeptByChunks P
      → is_chunk e.kind ≡ true
      → P s.sink
      → P (emit (record_into takes) s e).0.sink
  unfolding emit
  emit-kept P s e k c g = elim (Option-cases s.first) [
    | inr (d, h) ↦ subst P (ground (arith, h)) g
    | inl h ↦ elim (Bool-cases (takes s.sink e)) [
      | inl t ↦ subst P (ground (arith, h, t)) (k.snoc s.sink e c g)
      | inr t ↦ subst P (ground (arith, h, t)) g
    ]
  ]

  emit_taken :
      (s : Stream (List Event)) (e : Event)
      → s.first ≡ none
      → takes s.sink e ≡ true
      → emit (record_into takes) s e ≡ (record s { sink = s.sink ++ e ∷ [] }, none)
  unfolding emit
  emit_taken s e h t = ground (arith, h, t)

  emit_refused :
      (s : Stream (List Event)) (e : Event)
      → s.first ≡ none
      → takes s.sink e ≡ false
      → emit (record_into takes) s e
        ≡ (record s { first = some sink_failed; cancels = suc s.cancels }, some sink_failed)
  unfolding emit
  emit_refused s e h t = ground (arith, h, t)

  -- The last event of a run is taken and ends the log, or the log stays as it is.
  emit-Ordered :
      (s : Stream (List Event)) (e : Event)
      → is_end e.kind ≡ true
      → Going s.sink
      → Ordered (emit (record_into takes) s e).0.sink
  unfolding emit
  emit-Ordered s e c g = elim (Option-cases s.first) [
    | inr (d, h) ↦ ground (arith, h, g)
    | inl h ↦
        let longer : phase_of before (s.sink ++ e ∷ []) ≡ some over =
          phase_of-snoc before s.sink e ∙ ap (λ q. next q e.kind) g ∙ advance-end e.kind c in
        ground (arith, h, g, longer)
  ]

  fail-sink :
      (s : Stream (List Event)) (c : ErrorCode) → (fail (record_into takes) s c).sink ≡ s.sink
  unfolding fail
  fail-sink s c = ground arith

  module _ (P : List Event → Type 0) (k : KeptByChunks P) where
    write_chunks-kept :
        (fuel : ℕ) (w : Writer) (event : Text → Event) (s : Stream (List Event)) (p : Text)
        → ((b : Text) → is_chunk (event b).kind ≡ true)
        → P s.sink
        → P (write_chunks (record_into takes) fuel w event s p).0.sink
    unfolding write_chunks
    write_chunks-kept fuel w event s [] c g = g
    write_chunks-kept zero w event s (b ∷ p) c g = g
    write_chunks-kept (suc fuel) w event s (b ∷ p) c g =
        let q : Text = take w.chunk_bytes (b ∷ p) in
        let sent : P (emit (record_into takes) s (event q)).0.sink =
          emit-kept P s (event q) k (c q) g in
        elim (Option-cases (emit (record_into takes) s (event q)).1) [
          | inl h ↦ subst P (ground (arith, h)) (
              write_chunks-kept fuel w event (emit (record_into takes) s (event q)).0
                (drop w.chunk_bytes (b ∷ p)) c sent)
          | inr (d, h) ↦ subst P (ground (arith, h)) sent
        ]

    write-kept_by :
        (w : Writer) (event : Text → Event) (s : Stream (List Event)) (p : Text)
        → ((b : Text) → is_chunk (event b).kind ≡ true)
        → P s.sink
        → P (write (record_into takes) w event s p).1.sink
    unfolding write
    write-kept_by w event s p c g =
        let q : Text = kept w p in
        let t : Stream (List Event) = (write_chunks (record_into takes) (length q) w event s q).0 in
        let sent : P t.sink = write_chunks-kept (length q) w event s q c g in
        elim (Option-cases (write_chunks (record_into takes) (length q) w event s q).1) [
          | inr (d, h) ↦ subst P (ground (arith, h)) sent
          | inl h ↦ elim (Bool-cases (goes_over w p)) [
            | inl o ↦ subst P (ground (arith, h, o, fail-sink t output_limit)) sent
            | inr o ↦ subst P (ground (arith, h, o)) sent
          ]
        ]

    write_out-kept :
        (run_id : Text) (p : Pipes) (s : Stream (List Event)) (w : Written)
        → P s.sink
        → P (write_out (record_into takes) run_id p s w).1.sink
    unfolding write_out
    write_out-kept run_id p s w g = elim (Bool-cases w.to_stdout) [
      | inl o ↦ elim (Bool-cases p.out_open) [
        | inl u ↦ subst P (ground (arith, o, u)) (
            write-kept_by p.out (λ b. event_of run_id stdout_chunk w.time b none) s w.bytes
              (λ b. refl) g)
        | inr u ↦ subst P (ground (arith, o, u)) g
      ]
      | inr o ↦ elim (Bool-cases p.problems_open) [
        | inl u ↦ subst P (ground (arith, o, u)) (
            write-kept_by p.problems (λ b. event_of run_id stderr_chunk w.time b none) s w.bytes
              (λ b. refl) g)
        | inr u ↦ subst P (ground (arith, o, u)) g
      ]
    ]

    write_outs-kept :
        (run_id : Text) (p : Pipes) (s : Stream (List Event)) (ws : List Written)
        → P s.sink
        → P (write_outs (record_into takes) run_id p s ws).sink
    unfolding write_outs
    write_outs-kept run_id p s [] g = g
    write_outs-kept run_id p s (w ∷ ws) g =
        write_outs-kept run_id (write_out (record_into takes) run_id p s w).0
          (write_out (record_into takes) run_id p s w).1 ws (write_out-kept run_id p s w g)

  exit_with-Ordered :
      (run_id : Text) (script : Script) (s : Stream (List Event)) (code : ℤ)
      → Going s.sink
      → Ordered (exit_with (record_into takes) run_id script s code).sink
  unfolding exit_with
  exit_with-Ordered run_id script s code g =
      let last : Event = event_of run_id run_exited script.ended_at [] (some code) in
      let ends : Ordered (emit (record_into takes) s last).0.sink = emit-Ordered s last refl g in
      elim (Option-cases (emit (record_into takes) s last).1) [
        | inl h ↦ ground (arith, h, ends)
        | inr (c, h) ↦ ground (arith, h, ends)
      ]

  judge_exit-Ordered :
      (run_id : Text) (script : Script) (s : Stream (List Event))
      → Going s.sink
      → Ordered (judge_exit (record_into takes) run_id script s).sink
  unfolding judge_exit
  judge_exit-Ordered run_id script s g = elim (Option-cases (exit_code_of script.waited)) [
    | inl h ↦
        let ends : Ordered
            (emit (record_into takes) s
              (event_of run_id run_failed script.ended_at [] none)).0.sink =
          emit-Ordered s (event_of run_id run_failed script.ended_at [] none) refl g in
        ground (arith, h, ends)
    | inr (code, h) ↦
        let ends : Ordered (exit_with (record_into takes) run_id script s code).sink =
          exit_with-Ordered run_id script s code g in
        ground (arith, h, ends)
  ]

  after_wait-Ordered :
      (run_id : Text) (script : Script) (s : Stream (List Event))
      → Going s.sink
      → Ordered (after_wait (record_into takes) run_id script s).sink
  unfolding after_wait
  after_wait-Ordered run_id script s g =
      let same : Ordered s.sink = Going-Ordered s.sink g in
      let late : Ordered
          (emit (record_into takes) s
            (event_of run_id run_timed_out script.ended_at [] none)).0.sink =
        emit-Ordered s (event_of run_id run_timed_out script.ended_at [] none) refl g in
      let given_up : Ordered
          (emit (record_into takes) s
            (event_of run_id run_cancelled script.ended_at [] none)).0.sink =
        emit-Ordered s (event_of run_id run_cancelled script.ended_at [] none) refl g in
      let judged : Ordered (judge_exit (record_into takes) run_id script s).sink =
        judge_exit-Ordered run_id script s g in
      elim (Option-cases s.first) [
        | inr (c, h) ↦ ground (arith, h, same)
        | inl h ↦ ground (arith, h, same, late, given_up, judged)
      ]

  run_started_process-Ordered :
      (settings : Settings) (script : Script) (run_id : Text)
      → Ordered (run_started_process (record_into takes) settings script run_id []).sink
  unfolding run_started_process
  run_started_process-Ordered settings script run_id =
      let start : Event = event_of run_id run_started script.started_at [] none in
      let fresh : Stream (List Event) = record { sink = []; first = none; cancels = 0 } in
      let begun : Stream (List Event) = record { sink = start ∷ []; first = none; cancels = 0 } in
      let after : Ordered
          (after_wait (record_into takes) run_id script
            (write_outs (record_into takes) run_id (new_pipes settings) begun script.writes)).sink =
        after_wait-Ordered run_id script
          (write_outs (record_into takes) run_id (new_pipes settings) begun script.writes)
          (write_outs-kept Going Going-kept run_id (new_pipes settings) begun script.writes
            (Going-start start refl)) in
      elim (Bool-cases (takes [] start)) [
        | inl t ↦
            let sent : emit (record_into takes) fresh start ≡ (begun, none) =
              emit_taken fresh start refl t in
            ground (arith, sent, after)
        | inr t ↦
            let refused : emit (record_into takes) fresh start
                ≡ (record { sink = []; first = some sink_failed; cancels = 1 }, some sink_failed) =
              emit_refused fresh start refl t in
            ground (arith, refused, Ordered-nil)
      ]

  unattached-OnlyChunks :
      (settings : Settings) (script : Script) (run_id : Text)
      → OnlyChunks (unattached (record_into takes) settings script run_id []).sink
  unfolding unattached
  unattached-OnlyChunks settings script run_id =
      write_outs-kept OnlyChunks OnlyChunks-kept run_id (new_pipes settings)
        (record { sink = []; first = none; cancels = 0 }) script.writes tt

  launch-Ordered :
      (settings : Settings) (script : Script) (run_id : Text)
      → script.attaches ≡ true
      → Ordered (launch (record_into takes) settings script run_id []).sink
  unfolding launch
  launch-Ordered settings script run_id attached =
      let ran : Ordered (run_started_process (record_into takes) settings script run_id []).sink =
        run_started_process-Ordered settings script run_id in
      elim (Option-cases script.ended_before) [
        | inr (e, h) ↦ ground (arith, h, Ordered-nil)
        | inl h ↦ ground (arith, h, attached, Ordered-nil, ran)
      ]

  OnlyChunks-nil : OnlyChunks []
  OnlyChunks-nil = tt

  -- Before the failure to attach nothing is sent.
  launch-OnlyChunks :
      (settings : Settings) (script : Script) (run_id : Text)
      → script.attaches ≡ false
      → OnlyChunks (launch (record_into takes) settings script run_id []).sink
  unfolding launch
  launch-OnlyChunks settings script run_id loose = elim (Option-cases script.ended_before) [
    | inr (e, h) ↦ subst OnlyChunks {x = []} (ground (arith, h)) OnlyChunks-nil
    | inl h ↦ elim (Bool-cases script.makes_dir) [
      | inr a ↦ subst OnlyChunks {x = []} (ground (arith, h, a)) OnlyChunks-nil
      | inl a ↦ elim (Bool-cases script.controls) [
        | inr b ↦ subst OnlyChunks {x = []} (ground (arith, h, a, b)) OnlyChunks-nil
        | inl b ↦ elim (Bool-cases script.configures) [
          | inr c ↦ subst OnlyChunks {x = []} (ground (arith, h, a, b, c)) OnlyChunks-nil
          | inl c ↦ elim (Bool-cases script.starts) [
            | inr d ↦ subst OnlyChunks {x = []} (ground (arith, h, a, b, c, d)) OnlyChunks-nil
            | inl d ↦
                subst OnlyChunks
                  {x = (unattached (record_into takes) settings script run_id []).sink}
                  (ground (arith, h, a, b, c, d, loose))
                  (unattached-OnlyChunks settings script run_id)
          ]
        ]
      ]
    ]
  ]

-- What a sink holds of a run: in order if the process was attached, and output alone if not.
unfoldable pub RunLog : Bool → List Event → Type 0
RunLog true log = Ordered log
RunLog false log = OnlyChunks log

RunLog-nil : (attached : Bool) → RunLog attached []
unfolding RunLog
RunLog-nil true = Ordered-nil
RunLog-nil false = tt

launch-RunLog :
    (takes : List Event → Event → Bool) (settings : Settings) (script : Script) (run_id : Text)
    → RunLog script.attaches (launch (record_into takes) settings script run_id []).sink
unfolding RunLog
launch-RunLog takes settings script run_id =
    let log : List Event = (launch (record_into takes) settings script run_id []).sink in
    elim (Bool-cases script.attaches) [
      | inl a ↦ subst (λ b. RunLog b log) (sym a) (launch-Ordered takes settings script run_id a)
      | inr a ↦ subst (λ b. RunLog b log) (sym a) (launch-OnlyChunks takes settings script run_id a)
    ]

-- Whatever a process does and whatever events its sink refuses: where the process can be attached to
-- its lifecycle boundary, the sink of a run takes its events in order, which is nothing, or the
-- start, then chunks of output, then at most one end and nothing after it. Where it cannot, the sink
-- takes chunks of output alone, without a start or an end.
pub run-Ordered :
    (takes : List Event → Event → Bool) (host : Host) (goos : Text) (files : Files)
    (settings : Settings) (script : Script) (plan : Plan)
    → RunLog script.attaches (run (record_into takes) host goos files settings script plan []).sink
unfolding run
run-Ordered takes host goos files settings script plan =
    elim (Result-cases (validate_plan host plan >> revalidate_executable host goos files plan)) [
      | inr (c, h) ↦ subst (RunLog script.attaches) (ground (arith, h)) (RunLog-nil script.attaches)
      | inl (u, h) ↦ elim (Option-cases script.new_run_id) [
        | inl n ↦ subst (RunLog script.attaches) (ground (arith, h, n)) (RunLog-nil script.attaches)
        | inr (run_id, n) ↦ elim (Bool-cases (is_empty run_id)) [
          | inl e ↦
              subst (RunLog script.attaches) (ground (arith, h, n, e)) (RunLog-nil script.attaches)
          | inr e ↦
              subst (RunLog script.attaches) (ground (arith, h, n, e))
                (launch-RunLog takes settings script run_id)
        ]
      ]
    ]
