-- ===== src/Resilient/Sessions/Refresh.antt =====
-- How the refresh of a token meets the decorated store: the lock with the circuit open, and the
-- reads of a caller without the lock.
use central_auth.Common.{
  ℕ, zero, suc, ◌/◌, ◌+◌, ◌≡◌, ◌∙◌, ap, String, Option, false, none, some, arith,
}
use central_auth.Common.Int.{ℤ, pos}
use central_auth.Failure.{ok, sentinel, session_not_found}
use central_auth.Ports.Types.{BffSession}
use central_auth.Bff.{BffService}
use central_auth.Bff.Refresh.{
  do_refresh, poll, reread, lock_ttl, poll_fuel, poll_interval, refresh_with,
}
use central_auth.Resilient.Guarded.{Finds, Apart, cached_read-hit}
use central_auth.Resilient.Sessions.{
  ResilientSessionStore, l1_key, get, acquire_refresh_lock, as_store,
}

module _ {W : Type 0} (s : BffService W) (r : ResilientSessionStore W)
    (found : String → W → Option BffSession) (finds : Finds r.l1 found)
    (apart : Apart r.cb found) where
  -- The service on the decorated store
  abbrev pub bff : BffService W
  bff = record s { session_store = as_store r }

  abbrev key : BffSession → String
  key sess = l1_key sess.session_id

  reread-cached :
      (sess : BffSession) (w : W) → found (key sess) w ≡ some sess → (reread bff sess w).0 ≡ ok sess
  unfolding reread get
  reread-cached sess w here = ground (
    arith,
    cached_read-hit r.l1 r.cb (sentinel session_not_found) found finds apart (key sess) sess
        (r.delegate.get sess.session_id) w here,
  )

  -- Redis' own calls and a wait that runs to its end leave the cache alone.
  pub record Aside (sess : BffSession) : Type 0 where
    pub waits :
        (d : ℕ) (v : W)
        → ((s.runtime.wait d v).0 ≡ none)
          × (found (key sess) (s.runtime.wait d v).1 ≡ found (key sess) v)
    pub locks :
        (id : String) (t : ℤ) (v : W)
        → found (key sess) (r.delegate.acquire_refresh_lock id t v).1 ≡ found (key sess) v

  module _ (sess : BffSession) (aside : Aside sess) where
    poll-cached :
        (fuel deadline : ℕ) (w : W)
        → found (key sess) w ≡ some sess
        → (poll bff fuel deadline sess w).0 ≡ ok sess
    unfolding poll get
    poll-cached zero deadline w here = reread-cached sess w here
    poll-cached (suc fuel) deadline w here =
        let w₁ = (r.l1.get (key sess) w).1 in
        let w₂ = (s.runtime.wait poll_interval w₁).1 in
        let hit =
          cached_read-hit r.l1 r.cb (sentinel session_not_found) found finds apart (key sess) sess
            (r.delegate.get sess.session_id) w here in
        let still : (found (key sess) w₂ ≡ some sess) =
          (aside.waits poll_interval w₁).1 ∙ finds.get_keeps (key sess) (key sess) w ∙ here in
        ground (
          arith,
          hit,
          (aside.waits poll_interval w₁).0,
          reread-cached sess w here,
          poll-cached fuel deadline w₂ still,
        )

    found-acquire :
        (t : ℤ) (w : W)
        → found (key sess) (acquire_refresh_lock r sess.session_id t w).1 ≡ found (key sess) w
    unfolding acquire_refresh_lock
    found-acquire t w =
        let w₁ = (r.cb.allow w).1 in
        let w₂ = (r.delegate.acquire_refresh_lock sess.session_id t w₁).1 in
        ground (
          arith,
          apart.allow_keeps (key sess) w,
          aside.locks sess.session_id t w₁,
          apart.success_keeps (key sess) w₂,
          apart.failure_keeps (key sess) w₂,
        )

    -- Of a session that is in the cache, a `doRefresh` that does not get the lock returns the old
    -- tokens, whatever another process has written to Redis meanwhile, as long as the cache keeps
    -- its entries and no wait is cut short. With the circuit open no caller gets the lock.
    pub do_refresh-Unseen :
        (w : W)
        → found (key sess) w ≡ some sess
        → ((acquire_refresh_lock r sess.session_id (pos lock_ttl) w).0 ≡ ok false
            → (do_refresh bff sess w).0 ≡ ok sess)
          × ((r.cb.allow w).0 ≡ false
              → (acquire_refresh_lock r sess.session_id (pos lock_ttl) w).0 ≡ ok false)
    unfolding do_refresh
    do_refresh-Unseen w here =
        let w₁ = (acquire_refresh_lock r sess.session_id (pos lock_ttl) w).1 in
        (
          (λ lost.
              ap (λ v. (refresh_with bff sess v w₁).0) lost
              ∙ unfold refresh_with in
                poll-cached poll_fuel (s.runtime.now w₁ + lock_ttl / 2) w₁
                  (found-acquire (pos lock_ttl) w ∙ here)),
          (λ refused. unfold acquire_refresh_lock in ground (arith, refused)),
        )
