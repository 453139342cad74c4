-- ===== src/Audit/Journal.antt =====
-- internal/audittrail/store.go: the open journal, `Append`, `readEntries` and `List`. The file is
-- its bytes; what the disk does with a write and a sync is an argument of the call.
use cliharbor.Prelude.{
  ℕ, suc, ◌+◌, ◌-◌, Bool, true, false, not, ◌||◌, Option, none, some, List, [], ◌∷◌, ◌++◌, length,
  take, drop, ltb, leb, ◌==◌, if◌then◌else◌, is_some,
}
use mathlib.Core.List.{reverse}
use cliharbor.Prelude.Text.{Text, lit, text_eq}
use cliharbor.Prelude.Dict.{Dict, lookup, insert}
use cliharbor.Audit.{AuditEvent}
use cliharbor.Audit.Entry.{
  Entry, Codec, max_entries, max_bytes, max_line, is_approved, valid_entry, calculate_hash,
}

-- `seen` holds true for a run whose approval waits for its completion.
pub record Store : Type 0 where
  pub is_open : Bool
  pub content : Text
  pub entries : List Entry
  pub seen : Dict Bool
  pub size : ℕ
  pub failed : Bool

-- How much of a line the disk took, whether `Write` gave an error, and whether `Sync` did.
pub record DiskAnswer : Type 0 where
  pub written : ℕ
  pub write_failed : Bool
  pub sync_failed : Bool

abbrev pub last_hash : List Entry → Text
last_hash [] = []
last_hash (e ∷ []) = e.hash
last_hash (e ∷ f ∷ rest) = last_hash (f ∷ rest)

abbrev pub newline : ℕ
newline = 10

unfoldable pub draft : Store → AuditEvent → ℕ → Entry
draft s event now = record {
  sequence = suc (length s.entries);
  previous_hash = last_hash s.entries;
  hash = [];
  time = now;
  event = event;
  undo = lit "not-available";
}

abbrev pub pending : Option Bool → Bool
pending none = false
pending (some waits) = waits

-- An approval is recorded once, and a completion after its approval.
unfoldable pub is_next : Dict Bool → AuditEvent → Bool
is_next seen event =
    if is_approved event
    then not (is_some (lookup event.run_id seen))
    else pending (lookup event.run_id seen)

-- The journal with a line that is on the disk.
abbrev pub extended : Store → Entry → Text → Store
extended s e raw = record s {
  content = s.content ++ raw;
  size = s.size + length raw;
  entries = s.entries ++ e ∷ [];
  seen = insert e.event.run_id (is_approved e.event) s.seen;
}

unfoldable pub write_line : Store → Entry → Text → DiskAnswer → Store × Bool
write_line s e raw disk =
    let partly : Store = record s { content = s.content ++ take disk.written raw; failed = true } in
    if disk.write_failed || not (disk.written == length raw)
    then (partly, false)
    else if disk.sync_failed
    then (partly, false)
    else (extended s e raw, true)

abbrev pub sealed : Codec → Entry → Entry
sealed codec d = record d { hash = calculate_hash codec d }

-- Behind the encoding of the sealed entry: the bounds on a line and on the journal, and the write.
unfoldable pub append_line : Store → Entry → DiskAnswer → Option Text → Store × Bool
unfolding write_line
append_line s e disk none = (s, false)
append_line s e disk (some raw) =
    if ltb max_line (suc (length raw)) || ltb max_bytes (s.size + suc (length raw))
    then (s, false)
    else write_line s e (raw ++ newline ∷ []) disk

unfoldable pub append_entry : Codec → Store → Entry → DiskAnswer → Store × Bool
unfolding append_line
append_entry codec s d disk = append_line s (sealed codec d) disk (codec.encode (sealed codec d))

unfoldable pub append : Codec → Store → AuditEvent → ℕ → DiskAnswer → Store × Bool
unfolding draft append_entry
append codec s event now disk =
    if s.failed || not s.is_open
    then (s, false)
    else if leb max_entries (length s.entries) || leb max_bytes s.size
    then (s, false)
    else if not (valid_entry (draft s event now))
    then (s, false)
    else if not (is_next s.seen event)
    then (s, false)
    else append_entry codec s (draft s event now) disk

unfoldable pub push_byte : ℕ → List Text → List Text
push_byte b [] = (b ∷ []) ∷ []
push_byte b (line ∷ lines) = (b ∷ line) ∷ lines

-- `ReadBytes('\n')` until the end: the lines with their newlines, the last one perhaps without.
unfoldable pub split_lines : Text → List Text
unfolding push_byte
split_lines [] = []
split_lines (b ∷ rest) =
    let lines = split_lines rest in if b == newline then (b ∷ []) ∷ lines else push_byte b lines

-- The line without its newline, which the decoder passes over.
unfoldable pub chop_newline : Text → Option Text
chop_newline [] = none
chop_newline (b ∷ []) = if b == newline then some [] else none
chop_newline (b ∷ c ∷ rest) = elim (chop_newline (c ∷ rest)) [ none ↦ none | some t ↦ some (b ∷ t) ]

-- One round of `readEntries`: the entry of a line, if it continues the chain.
unfoldable pub check_line : Codec → List Entry → Dict Bool → Text → Option Entry
check_line codec entries seen line =
    if ltb max_line (length line) then none else elim (chop_newline line) [
      | none ↦ none
      | some raw ↦ elim (codec.decode raw) [
        | none ↦ none
        | some e ↦
            if leb max_entries (length entries)
              || (not (e.sequence == suc (length entries))
                  || (not (text_eq e.previous_hash (last_hash entries))
                      || (not (valid_entry e) || not (text_eq e.hash (calculate_hash codec e)))))
            then none
            else if is_next seen e.event
            then some e
            else none
      ]
    ]

unfoldable pub read_lines :
    Codec → List Entry → Dict Bool → List Text → Option (List Entry × Dict Bool)
read_lines codec entries seen [] = some (entries, seen)
read_lines codec entries seen (line ∷ rest) = elim (check_line codec entries seen line) [
  | none ↦ none
  | some e ↦
      read_lines codec (entries ++ e ∷ []) (insert e.event.run_id (is_approved e.event) seen) rest
]

-- `readEntries`; `none` is a journal that fails verification.
unfoldable pub read_entries : Codec → Text → Option (List Entry × Dict Bool)
read_entries codec content = read_lines codec [] [] (split_lines content)

-- The part of `Open` behind the checks of the file: a journal of at most 16 MiB that verifies.
unfoldable pub open_store : Codec → Text → Option Store
open_store codec content =
    if ltb max_bytes (length content) then none else elim (read_entries codec content) [
      | none ↦ none
      | some (entries, seen) ↦ some (record {
        is_open = true;
        content = content;
        entries = entries;
        seen = seen;
        size = length content;
        failed = false;
      })
    ]

-- `List`: the newest hundred entries, newest first.
unfoldable pub list_entries : Store → List Entry
list_entries s = reverse (drop (length s.entries - 100) s.entries)
