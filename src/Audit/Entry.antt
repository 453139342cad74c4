-- ===== src/Audit/Entry.antt =====
-- internal/audittrail/store.go: an entry of the mutation journal, `validEntry` and `calculateHash`.
-- The encoding of an entry as a line of JSON, the hash function and
-- the test for valid UTF-8 are parameters.
use cliharbor.Prelude.{
  ℕ, Bool, true, false, not, ◌&&◌, ◌||◌, Option, List, [], ◌∷◌, length, ltb, leb, ◌==◌,
  if◌then◌else◌, is_some,
}
use cliharbor.Prelude.Text.{Text, lit, text_eq, is_empty}
use cliharbor.Audit.{AuditEvent}

-- The metadata of an event, with the position in the chain.
pub record Entry : Type 0 where
  pub sequence : ℕ
  pub previous_hash : Text
  pub hash : Text
  pub time : ℕ
  pub event : AuditEvent
  pub undo : Text

pub record Codec : Type 0 where
  pub encode : Entry → Option Text
  pub decode : Text → Option Entry
  pub digest : Entry → Text
  pub is_utf8 : Text → Bool

abbrev pub max_entries : ℕ
max_entries = 25000

abbrev pub max_bytes : ℕ
max_bytes = 16777216

abbrev pub max_line : ℕ
max_line = 4096

is_lower_hex : ℕ → Bool
is_lower_hex c = (leb b'a' c && leb c b'f') || (leb b'0' c && leb c b'9')

all_lower_hex : Text → Bool
unfolding is_lower_hex
all_lower_hex [] = true
all_lower_hex (c ∷ cs) = is_lower_hex c && all_lower_hex cs

-- A rune below 32, or 127, is the byte of that value.
no_control_byte : Text → Bool
no_control_byte [] = true
no_control_byte (c ∷ cs) = not (ltb c 32 || c == 127) && no_control_byte cs

is_printable : Text → Bool
unfolding no_control_byte
is_printable t = not (ltb 2048 (length t)) && no_control_byte t

abbrev one_of : Text → List Text → Bool
one_of t [] = false
one_of t (u ∷ us) = text_eq t u || one_of t us

unfoldable pub is_approved : AuditEvent → Bool
is_approved e = text_eq e.action (lit "approved")

abbrev is_completed : AuditEvent → Bool
is_completed e = text_eq e.action (lit "completed")

bad_approval : AuditEvent → Bool
bad_approval e =
    not (one_of e.risk (lit "change" ∷ lit "destructive" ∷ []))
    || (is_empty e.pack_id
        || (is_empty e.command_id
            || (is_empty e.target_label
                || (is_empty e.effect
                    || (not (one_of e.scope (lit "single" ∷ lit "multiple" ∷ []))
                        || (not (is_empty e.status) || is_some e.exit_code))))))

bad_completion : AuditEvent → Bool
bad_completion e =
    not (one_of e.status (lit "exited" ∷ lit "cancelled" ∷ lit "timed-out" ∷ lit "failed" ∷ []))
    || (not (is_empty e.pack_id)
        || (not (is_empty e.command_id)
            || (not (is_empty e.risk)
                || (not (is_empty e.target_label)
                    || (not (is_empty e.target)
                        || (not (is_empty e.effect) || not (is_empty e.scope)))))))

all_printable : List Text → Bool
unfolding is_printable
all_printable [] = true
all_printable (t ∷ ts) = is_printable t && all_printable ts

unfoldable pub valid_event : AuditEvent → Bool
unfolding all_lower_hex bad_approval bad_completion all_printable is_approved
valid_event e =
    if not (length e.run_id == 32) || not (all_lower_hex e.run_id)
    then false
    else if not (is_approved e) && not (is_completed e)
    then false
    else if is_approved e && bad_approval e
    then false
    else if is_completed e && bad_completion e
    then false
    else all_printable (
        e.pack_id ∷ e.command_id ∷ e.risk ∷ e.target_label ∷ e.target ∷ e.effect ∷ e.scope
        ∷ e.status ∷ [])

-- A zero time is 0.
unfoldable pub valid_entry : Entry → Bool
valid_entry e =
    if e.time == 0 || not (text_eq e.undo (lit "not-available")) then false else valid_event e.event

unfoldable pub calculate_hash : Codec → Entry → Text
calculate_hash codec e = codec.digest (record e { hash = [] })
