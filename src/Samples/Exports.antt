-- ===== src/Samples/Exports.antt =====
-- A poll of the exporter over a small set of tables.
use jobwatch.Prelude.{◌<◌, ◌≡◌, ◌⊎◌, some, [], ◌∷◌, Mem, head, length, refl, arith}
use jobwatch.Status.{SlotState}
use jobwatch.Db.{ExpectedRun, Db}
use jobwatch.Exporter.{PollRow, poll_slots}
use jobwatch.Exporter.Polls.{was_missed, poll_slots-covers}
use jobwatch.Samples.{slot_row, tables}

abbrev missed_row : ExpectedRun
missed_row = record (slot_row 1 SlotState.missed) { settled_at = some 4000000000 }

abbrev settled_tables : Db
settled_tables = record tables { expected_runs = missed_row ∷ slot_row 2 SlotState.pending ∷ [] }

poll_slots-covers_example :
    ((p : PollRow) × Mem p (poll_slots 3000000000 settled_tables).0 × (p.run ≡ missed_row))
    ⊎ ((poll_slots 3000000000 settled_tables).1 < 4000000000)
    ⊎ ((length (poll_slots 3000000000 settled_tables).0 ≡ 500)
        × (4000000000 ≡ (poll_slots 3000000000 settled_tables).1))
poll_slots-covers_example =
    poll_slots-covers 3000000000 4000000000 settled_tables missed_row head refl was_missed
      (omega arith)
