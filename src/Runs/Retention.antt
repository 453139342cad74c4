-- ===== src/Runs/Retention.antt =====
-- internal/runs/manager.go: `makeRetentionRoomLocked`.
use cliharbor.Prelude.{
  ℕ, zero, suc, Bool, true, false, not, Option, none, some, List, [], ◌∷◌, length, leb,
  if◌then◌else◌,
}
use cliharbor.Prelude.Text.{Text}
use cliharbor.Prelude.Dict.{Dict, lookup, delete}
use cliharbor.Runs.{Record, Manager, is_running}

abbrev pub is_finished : Option Record → Bool
is_finished none = false
is_finished (some r) = not (is_running r.status)

abbrev pub skip_run : Text → Option (Text × List Text) → Option (Text × List Text)
skip_run id none = none
skip_run id (some (found, others)) = some (found, id ∷ others)

-- The scan of `m.order`: the first finished run, and the order without it.
unfoldable pub first_finished : Dict Record → List Text → Option (Text × List Text)
first_finished runs [] = none
first_finished runs (id ∷ rest) =
    let later = skip_run id (first_finished runs rest) in
    if is_finished (lookup id runs) then some (id, rest) else later

-- Each round takes a run from the order, so as many rounds as the order has entries are enough
-- (`make_room-Roomy` of Room). The Boolean says whether there is room.
unfoldable pub make_room : {J : Type 0} → ℕ → Manager J → Manager J × Bool
make_room zero m = (m, not (leb m.config.max_retained (length m.runs)))
make_room (suc fuel) m =
    if leb m.config.max_retained (length m.runs)
    then elim (first_finished m.runs m.order) [
      | none ↦ (m, false)
      | some (id, others) ↦ make_room fuel (record m { runs = delete id m.runs; order = others })
    ]
    else (m, true)
