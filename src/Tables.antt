-- ===== src/Tables.antt =====
-- The two tables of revocations in PostgreSQL. A statement runs in one step at the time of the
-- database; it fails where the connection does, and then changes nothing.
pub mod Sessions
pub mod Blocks
use central_auth.Common.{ℕ, Option, none, some, List}
use central_auth.Failure.{Failure, wrap}

-- The rows, the clock of the database, and the error of the connection where there is one
pub record Db (R : Type 0) : Type 0 where
  pub rows : List R
  pub now : ℕ
  pub fault : Option Failure

module _ {R : Type 0} where
  -- `pool.Exec`, with the error wrapped
  abbrev pub exec : (List R → List R) → Db R → Option Failure × Db R
  exec f d = elim d.fault [
    | some e ↦ (some (wrap e), d)
    | none ↦ (none, record { rows = f d.rows; now = d.now; fault = none })
  ]
