-- ===== src/Tests/WriterWitness.antt =====
-- internal/executor/executor.go: five bytes, of which four fit, in chunks of three.
use cliharbor.Prelude.{
  ◌+◌, ◌≤◌, ◌≡◌, refl, none, some, [], ◌++◌, length, take, ltb, if◌then◌else◌, arith,
}
use cliharbor.Prelude.Text.{Text, lit}
use cliharbor.Executor.{Event, stdout_chunk, output_limit}
use cliharbor.Executor.Writer.{Stream, Writer, write}
use cliharbor.Executor.Limits.{collect, write-kept}

abbrev writer : Writer
writer = record { kind = stdout_chunk; chunk_bytes = 3; max_bytes = 6; total = 2 }

abbrev stream : Stream Text
stream = record { sink = lit "ab"; first = none; cancels = 0 }

abbrev chunk : Text → Event
chunk b = record { run_id = []; kind = stdout_chunk; timestamp = 1; bytes = b; exit_code = none }

write-kept_example :
    ((write collect writer chunk stream (lit "hello")).1.sink ≡ lit "ab" ++ take 4 (lit "hello"))
    × ((write collect writer chunk stream (lit "hello")).0.total
        ≡ 2 + length (take 4 (lit "hello")))
    × ((write collect writer chunk stream (lit "hello")).0.total ≤ 6)
    × ((write collect writer chunk stream (lit "hello")).2
        ≡ (if ltb 6 (2 + length (lit "hello")) then some output_limit else none))
write-kept_example =
    write-kept writer chunk stream (lit "hello") (λ b. refl) refl (omega arith) (omega arith)
      (omega arith) (omega arith)
