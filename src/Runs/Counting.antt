-- ===== src/Runs/Counting.antt =====
-- How many runs of a map are still running, through each change of the map.
use cliharbor.Prelude.{ℕ, suc, ◌+◌, ◌≤◌, ◌≡◌, Bool, true, false, none, some, [], ◌∷◌, length, arith}
use cliharbor.Prelude.Text.{Text, text_eq_iff}
use cliharbor.Prelude.Dict.{Dict, lookup, insert, delete, Distinct, delete_absent}
use cliharbor.Runs.{Record, is_running}

abbrev pub one_if : Bool → ℕ
one_if true = 1
one_if false = 0

abbrev pub is_live : Record → Bool
is_live r = is_running r.status

abbrev pub running_count : Dict Record → ℕ
running_count [] = 0
running_count ((id, r) ∷ rest) = one_if (is_live r) + running_count rest

pub running_count-le : (m : Dict Record) → running_count m ≤ length m
running_count-le [] = omega arith
running_count-le ((id, r) ∷ rest) = ground (arith, running_count-le rest)

pub running_count-insert_new :
    (id : Text) (r : Record) (m : Dict Record)
    → lookup id m ≡ none
    → running_count (insert id r m) ≡ one_if (is_live r) + running_count m
unfolding insert lookup
running_count-insert_new id r [] h = omega arith
running_count-insert_new id r ((j, s) ∷ rest) h = ground (arith, running_count-insert_new id r rest)

pub running_count-insert_old :
    (id : Text) (r old : Record) (m : Dict Record)
    → lookup id m ≡ some old
    → running_count (insert id r m) + one_if (is_live old) ≡ one_if (is_live r) + running_count m
unfolding insert lookup
running_count-insert_old id r old [] h = cc
running_count-insert_old id r old ((j, s) ∷ rest) h =
    ground (arith, running_count-insert_old id r old rest)

pub running_count-delete :
    (id : Text) (r : Record) (m : Dict Record)
    → Distinct m
    → lookup id m ≡ some r
    → one_if (is_live r) + running_count (delete id m) ≡ running_count m
unfolding delete lookup
running_count-delete id r [] d h = cc
running_count-delete id r ((j, s) ∷ rest) d h =
    ground (arith, text_eq_iff j id, running_count-delete id r rest d.1, delete_absent id rest)

pub length-delete-some :
    (id : Text) (r : Record) (m : Dict Record)
    → Distinct m
    → lookup id m ≡ some r
    → suc (length (delete id m)) ≡ length m
unfolding delete lookup
length-delete-some id r [] d h = cc
length-delete-some id r ((j, s) ∷ rest) d h =
    ground (arith, text_eq_iff j id, length-delete-some id r rest d.1, delete_absent id rest)
