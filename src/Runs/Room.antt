-- ===== src/Runs/Room.antt =====
-- Making room: only finished runs are evicted, and there is always one to evict.
use cliharbor.Prelude.{
  ℕ, zero, suc, ◌≤◌, ◌<◌, ◌≡◌, ◌≢◌, refl, sym, ap, inl, inr, true, false, none, some, List, [], ◌∷◌,
  length, leb, is_some, arith, Bool-cases, Option-cases,
}
use cliharbor.Prelude.Text.{Text, text_eq, text_eq_iff}
use cliharbor.Prelude.Dict.{
  Dict, lookup, delete, keys, Distinct, Has, Has-lookup, delete_absent, delete-Distinct,
  lookup-delete, length-keys,
}
use cliharbor.Runs.{Record, Manager, is_running}
use cliharbor.Runs.Retention.{is_finished, first_finished, make_room}
use cliharbor.Runs.Counting.{running_count, running_count-delete, length-delete-some}

-- What the scan finds: a finished run of the map, and the order that its deletion leaves.
abbrev Finds : Dict Record → Dict Record → Text → List Text → Type 0
Finds runs m id others =
    (is_finished (lookup id runs) ≡ true)
    × (is_some (lookup id m) ≡ true)
    × (others ≡ keys (delete id m))

first_finished-Finds :
    (runs m : Dict Record) (id : Text) (others : List Text)
    → Distinct m
    → first_finished runs (keys m) ≡ some (id, others)
    → Finds runs m id others
unfolding first_finished lookup delete
first_finished-Finds runs [] id others d h = cc
first_finished-Finds runs ((j, w) ∷ rest) id others d h =
    elim (Option-cases (first_finished runs (keys rest))) [
      | inl e ↦ ground (arith, text_eq_iff j id, delete_absent j rest)
      | inr ((found, later), e) ↦ ground (
        arith,
        text_eq_iff j id,
        text_eq_iff j j,
        delete_absent j rest,
        first_finished-Finds runs rest found later d.1 e,
      )
    ]

first_finished-none :
    (runs m : Dict Record)
    → ((id : Text) (r : Record) → Has id r m → lookup id runs ≡ some r)
    → first_finished runs (keys m) ≡ none
    → running_count m ≡ length m
unfolding first_finished
first_finished-none runs [] sub h = refl
first_finished-none runs ((j, w) ∷ rest) sub h =
    elim (Option-cases (first_finished runs (keys rest))) [
      | inl e ↦ ground (
        arith,
        sub j w (inl (refl, refl)),
        first_finished-none runs rest (λ id r m. sub id r (inr m)) e,
      )
      | inr ((found, later), e) ↦ absurd (ground arith)
    ]

-- The map and the order of the runs agree, and `active` counts those that run.
pub record RunsInv (runs : Dict Record) (order : List Text) (active : ℕ) : Type 0 where
  pub distinct : Distinct runs
  pub in_order : keys runs ≡ order
  pub counted : active ≡ running_count runs

-- The first finished run leaves, and the rest is as it was.
evict-RunsInv :
    (runs : Dict Record) (order : List Text) (active : ℕ) (id : Text) (others : List Text)
    → RunsInv runs order active
    → first_finished runs order ≡ some (id, others)
    → RunsInv (delete id runs) others active × (suc (length (delete id runs)) ≡ length runs)
evict-RunsInv runs order active id others v h =
    let (finished, there, rest) =
      first_finished-Finds runs runs id others v.distinct (rw v.in_order h) in
    elim (Option-cases (lookup id runs)) [
      | inl e ↦ absurd (ground arith)
      | inr (r, e) ↦ (
        record {
          distinct = delete-Distinct id runs v.distinct;
          in_order = sym rest;
          counted = ground (arith, running_count-delete id r runs v.distinct e, v.counted);
        },
        length-delete-some id r runs v.distinct e,
      )
    ]

-- With fewer running runs than may be kept there is one to evict.
some_finished :
    (runs : Dict Record) (order : List Text) (active : ℕ)
    → RunsInv runs order active
    → active < length runs
    → first_finished runs order ≢ none
some_finished runs order active v h e =
    let full =
      first_finished-none runs runs (λ id r m. Has-lookup id r runs v.distinct m)
        (rw v.in_order e) in
    omega (arith, full, v.counted)

-- What making room leaves: only finished runs are gone, and all but the map and its order is as it
-- was.
pub record Roomy {J : Type 0} (m m' : Manager J) : Type 0 where
  pub inv : RunsInv m'.runs m'.order m.active
  pub room : length m'.runs < m.config.max_retained
  pub rest : m' ≡ record m { runs = m'.runs; order = m'.order }
  pub live :
      (id : Text) (r : Record)
      → lookup id m.runs ≡ some r
      → is_running r.status ≡ true
      → lookup id m'.runs ≡ some r
  pub subset : (id : Text) (r : Record) → lookup id m'.runs ≡ some r → lookup id m.runs ≡ some r

is_finished-ne :
    (runs : Dict Record) (id other : Text) (r : Record)
    → is_finished (lookup id runs) ≡ true
    → lookup other runs ≡ some r
    → is_running r.status ≡ true
    → text_eq id other ≡ false
is_finished-ne runs id other r f e live = elim (Bool-cases (text_eq id other)) [
  | inl same ↦ absurd (ground (arith, text_eq_iff id other, same))
  | inr other ↦ other
]

module _ {J : Type 0} where
  abbrev without : Manager J → Text → List Text → Manager J
  without m id others = record m { runs = delete id m.runs; order = others }

  Roomy-without :
      (m m' : Manager J) (id : Text) (others : List Text)
      → RunsInv m.runs m.order m.active
      → first_finished m.runs m.order ≡ some (id, others)
      → Roomy (without m id others) m'
      → Roomy m m'
  Roomy-without m m' id others v h q =
      let (finished, _, _) =
        first_finished-Finds m.runs m.runs id others v.distinct (rw v.in_order h) in
      record {
        inv = q.inv;
        room = q.room;
        rest = q.rest;
        live = λ j r e l.
            q.live j r (rw (lookup-delete, is_finished-ne m.runs id j r finished e l) e) l;
        subset = λ j r e. deleted j r (q.subset j r e);
      }
    where
      deleted :
          (j : Text) (r : Record) → lookup j (delete id m.runs) ≡ some r → lookup j m.runs ≡ some r
      deleted j r e = ground (arith, lookup-delete id j m.runs)

  -- When the map and the order agree and fewer runs are running than may be kept, as many rounds as
  -- the order has entries make room; no running run is evicted and nothing but runs is changed.
  pub make_room-Roomy :
      (fuel : ℕ) (m : Manager J)
      → RunsInv m.runs m.order m.active
      → m.active < m.config.max_retained
      → length m.order ≤ fuel
      → ((make_room fuel m).1 ≡ true) × Roomy m (make_room fuel m).0
  unfolding make_room
  make_room-Roomy zero m v a l = (ground (arith, length-keys m.runs, ap length v.in_order), same)
    where
      same : Roomy m m
      same = record {
        inv = v;
        room = omega (arith, length-keys m.runs, ap length v.in_order);
        rest = refl;
        live = λ j r e l. e;
        subset = λ j r e. e;
      }
  make_room-Roomy (suc fuel) m v a l =
      elim (Bool-cases (leb m.config.max_retained (length m.runs))) [
        | inr roomy ↦ rw roomy (
          refl,
          record {
            inv = v;
            room = ground arith;
            rest = refl;
            live = λ j r e l. e;
            subset = λ j r e. e;
          },
        )
        | inl full ↦ elim (Option-cases (first_finished m.runs m.order)) [
          | inl none_found ↦
              absurd (some_finished m.runs m.order m.active v (ground arith) none_found)
          | inr ((id, others), found) ↦
              let (v', shorter) = evict-RunsInv m.runs m.order m.active id others v found in
              let fits : length others ≤ fuel = omega (
                arith,
                shorter,
                length-keys (delete id m.runs),
                length-keys m.runs,
                ap length v'.in_order,
                ap length v.in_order,
              ) in
              let (done, q) = make_room-Roomy fuel (without m id others) v' a fits in
              rw (full, found) (done, Roomy-without m _ id others v found q)
        ]
      ]
