-- ===== src/Tables/Sessions/Remembered.antt =====
-- What a revocation in PostgreSQL outlives.
use central_auth.Common.{
  ◌≡◌, ap, ◌∙◌, ◌≤◌, ◌+◌, ℕ, String, true, Option, none, List, [], ◌∷◌, arith, eq_iff, Option-cases,
  inl, inr,
}
use central_auth.Common.Int.{ℤ, pos, lt_ℤ}
use central_auth.Failure.{Failure, ok, err, wrap}
use central_auth.Resilient.{BlacklistEntry}
use central_auth.Tables.{Db}
use central_auth.Tables.Sessions.{
  exists, add, delete_expired, is_blacklisted, list_active, sorted, active_rows, exists-upsert,
  exists-active_rows, exists-sorted,
}

-- What happens to the table: entries, the maintenance, time, and a connection that is lost or restored.
pub data Step : Type 0 where
  adds : String → ℤ → Step
  purges : Step
  passes : ℕ → Step
  connects : Option Failure → Step

abbrev pub step : Step → Db BlacklistEntry → Db BlacklistEntry
step (adds id t) d = (add id t d).1
step purges d = (delete_expired d).1
step (passes n) d = record d { now = d.now + n }
step (connects f) d = record d { fault = f }

abbrev pub steps : List Step → Db BlacklistEntry → Db BlacklistEntry
steps [] d = d
steps (s ∷ ss) d = steps ss (step s d)

step-now : (s : Step) (d : Db BlacklistEntry) → d.now ≤ (step s d).now
unfolding add delete_expired
step-now (adds id t) d = ground arith
step-now purges d = ground arith
step-now (passes n) d = omega arith
step-now (connects f) d = omega arith

steps-now : (ss : List Step) (d : Db BlacklistEntry) → d.now ≤ (steps ss d).now
steps-now [] d = omega arith
steps-now (s ∷ ss) d = omega (arith, step-now s d, steps-now ss (step s d))

step-exists :
    (s : Step) (d : Db BlacklistEntry) (id : String) (later : ℕ)
    → d.now ≤ later
    → exists later id d.rows ≡ true
    → exists later id (step s d).rows ≡ true
unfolding add delete_expired
step-exists (adds j t) d id later h k = ground (arith, k, exists-upsert later j id t d.rows)
step-exists purges d id later h k = ground (arith, k, h, exists-active_rows d.now later id d.rows)
step-exists (passes n) d id later h k = k
step-exists (connects f) d id later h k = k

steps-exists :
    (ss : List Step) (d : Db BlacklistEntry) (id : String) (later : ℕ)
    → (steps ss d).now ≤ later
    → exists later id d.rows ≡ true
    → exists later id (steps ss d).rows ≡ true
steps-exists [] d id later h k = k
steps-exists (s ∷ ss) d id later h k =
    steps-exists ss (step s d) id later h
      (step-exists s d id later (omega (arith, h, step-now s d, steps-now ss (step s d))) k)

is_blacklisted-up :
    (id : String) (d : Db BlacklistEntry)
    → d.fault ≡ none
    → (is_blacklisted id d).0 ≡ ok (exists d.now id d.rows)
unfolding is_blacklisted
is_blacklisted-up id d up = ground (arith, up)

add-exists :
    (id : String) (t : ℤ) (d : Db BlacklistEntry) (later : ℕ)
    → (add id t d).0 ≡ none
    → lt_ℤ (pos later) t ≡ true
    → exists later id (add id t d).1.rows ≡ true
unfolding add
add-exists id t d later added unexpired =
    ground (arith, added, unexpired, exists-upsert later id id t d.rows, eq_iff id id)

-- A session that was added without error is answered as revoked until its expiry, after any further
-- entries, runs of the maintenance and losses of the connection, whenever the database answers.
pub add-remembered :
    (id : String) (t : ℤ) (d : Db BlacklistEntry) (ss : List Step)
    → (add id t d).0 ≡ none
    → (let d' = steps ss (add id t d).1 in
        lt_ℤ (pos d'.now) t ≡ true → d'.fault ≡ none → (is_blacklisted id d').0 ≡ ok true)
add-remembered id t d ss added unexpired up =
    let d' = steps ss (add id t d).1 in
    is_blacklisted-up id d' up
    ∙ ap ok (
        steps-exists ss (add id t d).1 id d'.now (omega arith)
          (add-exists id t d d'.now added unexpired))

-- The list for the cache answers like the table.
pub list_active-answers :
    (d : Db BlacklistEntry) (es : List BlacklistEntry) (id : String)
    → (list_active d).0 ≡ ok es
    → exists d.now id es ≡ exists d.now id d.rows
unfolding list_active
list_active-answers d es id h = elim (Option-cases d.fault) [
  | inl up ↦
      let same : ok (sorted (active_rows d.now d.rows)) ≡ ok es = rw up at h in
      ground (
        arith,
        same,
        exists-sorted d.now id (active_rows d.now d.rows),
        exists-active_rows d.now d.now id d.rows,
      )
  | inr (e, down) ↦ let stopped : err (wrap e) ≡ ok es = rw down at h in ground (arith, stopped)
]
