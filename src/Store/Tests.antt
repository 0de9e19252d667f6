-- ===== src/Store/Tests.antt =====
-- A receipt that is stored in an empty database.
use mesh_compute.Prelude.{ℕ, ◌≡◌, refl, true, nat_eq, list_eq, list_beq}
use mesh_compute.Prelude.Bytes.{codes}
use mesh_compute.Protocol.Json.{null, Json}
use mesh_compute.Store.Tables.{conflicts, migrated, put_receipt, Store}
use mesh_compute.Sample.{nat_floats}
use mesh_compute.Store.Replay.{IsReplayFree}

abbrev body : Json ℕ
body = null

abbrev fresh : Store ℕ
fresh = migrated

abbrev stored : Store ℕ
stored = (put_receipt (codes "r1") (codes "a") (codes "p") (codes "n") body fresh).0

program : Unit {0}
unfolding migrated put_receipt conflicts list_beq
program = tt

migrated-IsReplayFree : IsReplayFree {F = ℕ} migrated.receipts
unfolding program
migrated-IsReplayFree = tt

stored-accepted : (put_receipt (codes "r1") (codes "a") (codes "p") (codes "n") body fresh).1 ≡ true
unfolding program
stored-accepted = refl
