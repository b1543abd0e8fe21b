-- ===== src/Admin/Stored.antt =====
-- The service of the administration over the table of blocks.
use central_auth.Common.{
  ◌≡◌, refl, ap, ◌∙◌, Option-cases, Bool-cases, inl, inr, String, Bool, true, false, ◌&&◌, ◌||◌,
  not, none, arith,
}
use central_auth.Common.Eff.{Eff}
use central_auth.Failure.{is_ok}
use central_auth.Ports.Types.{BlacklistSyncEvent}
use central_auth.Admin.{
  AdminBlacklistService, GlobalBlacklistRepository, TargetType, block, unblock, revoke_sessions,
  is_user, block_event, unblock_event,
}
use central_auth.Tables.Blocks.{
  Blocks, add, remove, upsert, deleted, exists, same, exists-upsert, exists-deleted,
}

-- The table beside what else the service calls
abbrev pub on_table : {V A : Type 0} → Eff Blocks A → Eff (Blocks × V) A
on_table f (d, v) = let (a, d') = f d in (a, (d', v))

unfoldable pub repository : {V : Type 0} → GlobalBlacklistRepository (Blocks × V)
repository = record {
  add = λ t value reason. on_table (add t value reason);
  remove = λ t value. on_table (remove t value);
}

-- A service over the table, whose other calls leave the table alone.
pub record IsOverTable {V : Type 0} (s : AdminBlacklistService (Blocks × V)) : Type 0 where
  pub stored : s.repo ≡ repository
  pub keeps_revoke :
      (k : String) (w : Blocks × V) → (s.device_session_repo.revoke_all_devices k w).1.0 ≡ w.0
  pub keeps_publish :
      (e : BlacklistSyncEvent) (w : Blocks × V) → (s.publisher.publish_blacklist_sync e w).1.0 ≡ w.0

dropped_again : (a b : Bool) → (not a && (a || b)) ≡ (not a && b)
dropped_again true b = refl
dropped_again false b = refl

module _ {V : Type 0} (s : AdminBlacklistService (Blocks × V)) (over : IsOverTable s)
    (t : TargetType) (value : String) (w : Blocks × V) where
  -- The world after the row of a block
  after_row : (reason : String) → Blocks × V
  after_row reason =
      (record { rows = upsert w.0.now t value reason w.0.rows; now = w.0.now; fault = none }, w.1)

  block-rows :
      (reason : String)
      → is_ok (block s t value reason w).0 ≡ true
      → (block s t value reason w).1.0.rows ≡ upsert w.0.now t value reason w.0.rows
  unfolding block repository add revoke_sessions after_row
  block-rows reason accepted = elim (Option-cases w.0.fault) [
    | inl up ↦ elim (Bool-cases (is_user t)) [
      | inl u ↦ rw over.stored (
          rw up (
            rw u (
              let v = (s.device_session_repo.revoke_all_devices value (after_row reason)).1 in
              ap (λ (b : Blocks). b.rows)
                (over.keeps_publish (block_event s t value reason (s.runtime.now v)) v)
              ∙ ap (λ (b : Blocks). b.rows) (over.keeps_revoke value (after_row reason)))))
      | inr n ↦ rw over.stored (
          rw up (
            rw n (
              let v = after_row reason in
              ap (λ (b : Blocks). b.rows)
                (over.keeps_publish (block_event s t value reason (s.runtime.now v)) v))))
    ]
    | inr (e, down) ↦
        let stopped : false ≡ true = rw down at (rw over.stored at accepted) in
        ground (arith, stopped)
  ]

  unblock-rows :
      is_ok (unblock s t value w).0 ≡ true
      → (unblock s t value w).1.0.rows ≡ deleted t value w.0.rows
  unfolding unblock repository remove
  unblock-rows accepted = elim (Option-cases w.0.fault) [
    | inl up ↦ rw over.stored (
        rw up (
          let v : Blocks × V =
            (record { rows = deleted t value w.0.rows; now = w.0.now; fault = none }, w.1) in
          ap (λ (b : Blocks). b.rows)
            (over.keeps_publish (unblock_event s t value (s.runtime.now v)) v)))
    | inr (e, down) ↦
        let stopped : false ≡ true = rw down at (rw over.stored at accepted) in
        ground (arith, stopped)
  ]

-- A block that returns no error is in the table, with every block that was there before; after the
-- unblock that follows and returns no error as well, this target is not blocked, and every other is as it was.
pub block-unblock :
    {V : Type 0} (s : AdminBlacklistService (Blocks × V))
    → IsOverTable s
    → (t : TargetType) (value reason : String) (w : Blocks × V)
    → (let blocked = block s t value reason w in
        let unblocked = unblock s t value blocked.1 in
        is_ok blocked.0 ≡ true
        → is_ok unblocked.0 ≡ true
        → (u : TargetType) (v : String)
        → (exists u v blocked.1.0.rows ≡ (same t u value v || exists u v w.0.rows))
          × (exists u v unblocked.1.0.rows ≡ (not (same t u value v) && exists u v w.0.rows)))
block-unblock s over t value reason w accepted lifted u v =
    let w' = (block s t value reason w).1 in
    let after_block =
      ap (exists u v) (block-rows s over t value w reason accepted)
      ∙ exists-upsert w.0.now t u value reason v w.0.rows in
    let after_unblock =
      ap (exists u v) (unblock-rows s over t value w' lifted)
      ∙ exists-deleted t u value v w'.0.rows in
    (
      after_block,
      after_unblock
          ∙ ap (λ b. not (same t u value v) && b) after_block
          ∙ dropped_again (same t u value v) (exists u v w.0.rows),
    )
