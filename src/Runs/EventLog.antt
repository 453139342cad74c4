-- ===== src/Runs/EventLog.antt =====
-- The event log of a run: numbered from 1 without gaps, within its budget, and read by cursors.
use cliharbor.Prelude.{
  ℕ, zero, suc, ◌+◌, ◌^◌, ◌≤◌, ◌<◌, ◌≡◌, refl, sym, subst, ap, ◌∙◌, inl, inr, true, false, Option,
  none, List, [], ◌∷◌, ◌++◌, length, take, drop, take-append-drop, leb, if◌then◌else◌, arith,
  Bool-cases,
}
use cliharbor.Prelude.Int.{add64, signed_lt64}
use cliharbor.Prelude.Text.{Text, is_empty}
use cliharbor.Executor
use cliharbor.Runs.{Event, Record, is_running}
use cliharbor.Runs.Events.{
  RecordError, charge, keep_stdout, store_event, append_event, clone_events_after,
}

-- The sequence numbers count up from n.
abbrev pub Numbered : ℕ → List Event → Type 0
Numbered n [] = Unit {0}
Numbered n (e ∷ rest) = (e.sequence ≡ n) × Numbered (suc n) rest

-- What a payload is charged, without the wrap-around of a 64-bit counter.
abbrev pub price : Text → ℕ
price [] = 0
price (b ∷ bs) = length (b ∷ bs) + 64

abbrev pub total_price : List Event → ℕ
total_price [] = 0
total_price (e ∷ rest) = price e.payload + total_price rest

-- The log of a run that has a budget of `max`.
pub record LogInv (max : ℕ) (r : Record) : Type 0 where
  pub numbered : Numbered 1 r.events
  pub counted : r.next_seq ≡ length r.events
  pub charged : r.event_bytes ≡ total_price r.events
  pub within : r.event_bytes ≤ max

Numbered-append :
    (n : ℕ) (es : List Event) (e : Event)
    → Numbered n es
    → e.sequence ≡ n + length es
    → Numbered n (es ++ e ∷ [])
Numbered-append n [] e h s = (omega (arith, s), tt)
Numbered-append n (x ∷ es) e h s = (h.0, Numbered-append (suc n) es e h.1 (omega (arith, s)))

total_price-append :
    (es : List Event) (e : Event) → total_price (es ++ e ∷ []) ≡ total_price es + price e.payload
total_price-append [] e = omega arith
total_price-append (x ∷ es) e = omega (arith, total_price-append es e)

charge-price : (t : Text) → length t < 2 ^ 61 → charge t ≡ price t
charge-price [] h = refl
charge-price (b ∷ bs) h = omega arith

price_bound : (t : Text) → price t ≤ length t + 64
price_bound [] = omega arith
price_bound (b ∷ t) = omega arith

keep_stdout-LogInv :
    (max : ℕ) (r : Record) (e : Executor.Event) → LogInv max r → LogInv max (keep_stdout r e)
unfolding keep_stdout
keep_stdout-LogInv max r e v = record {
  numbered = subst (Numbered 1) (ground arith) v.numbered;
  counted = ground (arith, v.counted);
  charged = ground (arith, v.charged);
  within = ground (arith, v.within);
}

add64-charge :
    (max b : ℕ) (t : Text)
    → max < 2 ^ 62
    → b ≤ max
    → length t < 2 ^ 61
    → add64 b (charge t) ≡ b + price t
add64-charge max b t h k l = ground (arith, charge-price t l, price_bound t)

stored_bytes :
    (max b : ℕ) (t : Text)
    → max < 2 ^ 62
    → b ≤ max
    → length t < 2 ^ 61
    → (if is_empty t then b else add64 b (charge t)) ≡ b + price t
stored_bytes max b [] h k l = omega arith
stored_bytes max b (c ∷ t) h k l = add64-charge max b (c ∷ t) h k l

not_over :
    (max b : ℕ) (t : Text)
    → max < 2 ^ 62
    → b ≤ max
    → length t < 2 ^ 61
    → signed_lt64 max (add64 b (charge t)) ≡ false
    → b + price t ≤ max
not_over max b t h k l e = ground (arith, add64-charge max b t h k l, price_bound t, e)

add64-suc : (n : ℕ) → suc n < 2 ^ 64 → add64 n 1 ≡ suc n
add64-suc n h = omega (arith, h)

one_more : (es : List Event) (e : Event) → suc (length es) ≡ length (es ++ e ∷ [])
one_more [] e = refl
one_more (x ∷ es) e = ap suc (one_more es e)

kept_counters :
    (r : Record) (e : Executor.Event)
    → ((keep_stdout r e).next_seq ≡ r.next_seq) × ((keep_stdout r e).event_bytes ≡ r.event_bytes)
unfolding keep_stdout
kept_counters r e = (ground arith, ground arith)

store_event-LogInv :
    (max : ℕ) (r : Record) (e : Executor.Event)
    → LogInv max r
    → suc r.next_seq < 2 ^ 64
    → (if is_empty e.bytes then r.event_bytes else add64 r.event_bytes (charge e.bytes))
      ≡ r.event_bytes + price e.bytes
    → r.event_bytes + price e.bytes ≤ max
    → LogInv max (store_event r e)
unfolding store_event
store_event-LogInv max r e v s c l = record {
  numbered =
      Numbered-append 1 r.events _ v.numbered (omega (arith, add64-suc r.next_seq s, v.counted));
  counted = add64-suc r.next_seq s ∙ ap suc v.counted ∙ one_more r.events _;
  charged = c ∙ ap (λ n. n + price e.bytes) v.charged ∙ sym (total_price-append r.events _);
  within = subst (λ n. n ≤ max) (sym c) l;
}

-- Recording an event, or refusing it, keeps the log numbered from 1 without a gap and its price
-- within the budget, for budgets below 2^62, payloads below 2^61 and fewer than 2^64 - 1 events.
pub append_event-LogInv :
    (max : ℕ) (r : Record) (e : Executor.Event)
    → max < 2 ^ 62
    → length e.bytes < 2 ^ 61
    → suc r.next_seq < 2 ^ 64
    → LogInv max r
    → LogInv max (append_event max r e).0
unfolding append_event
append_event-LogInv max r e b l s v = elim (Bool-cases (is_running r.status)) [
  | inl live ↦ elim (Bool-cases (signed_lt64 max (add64 r.event_bytes (charge e.bytes)))) [
    | inl over ↦ rw live (rw over v)
    | inr fits ↦ rw live (
        rw fits (
          store_event-LogInv max (keep_stdout r e) e (keep_stdout-LogInv max r e v)
            (subst (λ n. suc n < 2 ^ 64) (sym (kept_counters r e).0) s)
            (stored_bytes max _ e.bytes b (keep_stdout-LogInv max r e v).within l)
            (subst (λ n. n + price e.bytes ≤ max) (sym (kept_counters r e).1)
              (not_over max r.event_bytes e.bytes b v.within l fits))))
  ]
  | inr over ↦ rw over v
]

-- An event without a payload leaves the parser's input alone.
keep_stdout_empty : (r : Record) (e : Executor.Event) → e.bytes ≡ [] → keep_stdout r e ≡ r
unfolding keep_stdout
keep_stdout_empty r e empty = ground (arith, empty)

append_event_stored :
    (max : ℕ) (r : Record) (e : Executor.Event)
    → max < 2 ^ 62
    → LogInv max r
    → is_running r.status ≡ true
    → e.bytes ≡ []
    → append_event max r e ≡ (store_event r e, none)
unfolding append_event
append_event_stored max r e b v live empty =
    rw live (rw empty (ground (arith, v.within, keep_stdout_empty r e empty)))

-- What the log says of an event that came at this place.
abbrev pub logged_at : ℕ → Executor.Event → Event
logged_at n e = record {
  sequence = n;
  kind = e.kind;
  timestamp = e.timestamp;
  payload = e.bytes;
  exit_code = e.exit_code;
}

-- An event without a payload is recorded on every running run whose log satisfies its invariant, with
-- a budget below 2^62 and fewer than 2^64 - 1 events, however full the budget is: no error is
-- returned, the event ends the log under the next number, and the charge stays as it was.
pub append_event-lifecycle :
    (max : ℕ) (r : Record) (e : Executor.Event)
    → max < 2 ^ 62
    → suc r.next_seq < 2 ^ 64
    → LogInv max r
    → is_running r.status ≡ true
    → e.bytes ≡ []
    → ((append_event max r e).1 ≡ none)
      × ((append_event max r e).0.events ≡ r.events ++ logged_at (suc (length r.events)) e ∷ [])
      × ((append_event max r e).0.event_bytes ≡ r.event_bytes)
unfolding store_event
append_event-lifecycle max r e b few v live empty =
    let stored : append_event max r e ≡ (store_event r e, none) =
      append_event_stored max r e b v live empty in
    let next : add64 r.next_seq 1 ≡ suc (length r.events) =
      add64-suc r.next_seq few ∙ ap suc v.counted in
    (
      ap (λ (o : Record × Option RecordError). o.1) stored,
      ap (λ (o : Record × Option RecordError). o.0.events) stored
          ∙ ap (λ n. r.events ++ logged_at n e ∷ []) next,
      ap (λ (o : Record × Option RecordError). o.0.event_bytes) stored ∙ ground (arith, empty),
    )

clone_events_after-drop :
    (n k : ℕ) (es : List Event) → Numbered (suc n) es → clone_events_after es (n + k) ≡ drop k es
unfolding clone_events_after
clone_events_after-drop n zero [] h = refl
clone_events_after-drop n (suc k) [] h = refl
clone_events_after-drop n zero (e ∷ es) h = ground (arith, h.0)
clone_events_after-drop n (suc k) (e ∷ es) h =
    let step : n + suc k ≡ suc n + k = omega arith in
    let past : leb e.sequence (suc n + k) ≡ true = ground (arith, h.0) in
    subst (λ m. clone_events_after (e ∷ es) m ≡ drop k es) (sym step)
      (rw past (clone_events_after-drop (suc n) k es h.1))

-- A reader who has seen the log up to a sequence number gets the rest of it: what was read and
-- what is returned are together the whole log, so no event is missed or sent twice.
pub clone_events_after_complete :
    (es : List Event) (after : ℕ)
    → Numbered 1 es
    → take after es ++ clone_events_after es after ≡ es
clone_events_after_complete es after h =
    let rest : clone_events_after es after ≡ drop after es =
      subst (λ m. clone_events_after es m ≡ drop after es) ((omega arith))
        (clone_events_after-drop 0 after es h) in
    subst (λ t. take after es ++ t ≡ es) (sym rest) (take-append-drop after es)
