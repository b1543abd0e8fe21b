-- ===== src/Resilient/Blacklist/Closed.antt =====
-- Which way the decorated blacklist fails.
use central_auth.Common.{
  ◌≡◌, refl, String, Bool, true, false, Option, none, some, List, [], ◌∷◌, arith,
}
use central_auth.Common.Int.{ℤ}
use central_auth.Failure.{Failure, Result, ok, err}
use central_auth.Ports.{Blacklist}
use central_auth.Resilient.Blacklist.{
  ResilientBlacklist, is_blacklisted, check_fallback, after_l1, after_pg_check, add, add_batch,
  add_fallback, after_pg_add, batch_fallback, add_time,
}

-- An answer that denies access if it carries an error.
abbrev pub fails_closed : Bool × Option Failure → Bool
fails_closed (b, none) = true
fails_closed (b, some e) = b

module _ {W : Type 0} (r : ResilientBlacklist W) where
  after_pg_check-fails_closed :
      (id : String) (result : Result Bool) (w : W)
      → fails_closed (after_pg_check r id result w).0 ≡ true
  unfolding after_pg_check
  after_pg_check-fails_closed id (ok b) w = refl
  after_pg_check-fails_closed id (err e) w = refl

  after_l1-fails_closed :
      (id : String) (found : Option Bool) (w : W) → fails_closed (after_l1 r id found w).0 ≡ true
  unfolding after_l1
  after_l1-fails_closed id none w =
      after_pg_check-fails_closed id (r.pg_repo.is_blacklisted id w).0
        (r.pg_repo.is_blacklisted id w).1
  after_l1-fails_closed id (some b) w = refl

  check_fallback-fails_closed :
      (id : String) (w : W) → fails_closed (check_fallback r id w).0 ≡ true
  unfolding check_fallback
  check_fallback-fails_closed id w = after_l1-fails_closed id (r.l1.get id w).0 (r.l1.get id w).1

  -- The check fails closed: where the blacklist in Redis answers each of its errors with `true`, an
  -- answer of `IsBlacklisted` that carries an error, from Redis or from PostgreSQL, is `true`.
  pub is_blacklisted-fails_closed :
      (id : String)
      → ((w : W) → fails_closed (r.delegate.is_blacklisted id w).0 ≡ true)
      → (w : W) → fails_closed (is_blacklisted r id w).0 ≡ true
  unfolding is_blacklisted
  is_blacklisted-fails_closed id h w =
      let w1 = (r.cb.allow w).1 in
      let w2 = (r.delegate.is_blacklisted id w1).1 in
      ground (
        arith,
        h w1,
        check_fallback-fails_closed id w1,
        check_fallback-fails_closed id (r.cb.record_failure w2).1,
      )

  add_fallback-some : (id : String) (ttl : ℤ) (w : W) → ¬ ((add_fallback r id ttl w).0 ≡ none)
  unfolding add_fallback after_pg_add
  add_fallback-some id ttl w = ground arith

  -- An `Add` that returns no error has reached Redis: the circuit let the call through, and Redis
  -- answered it without an error.
  pub add-none :
      (id : String) (ttl : ℤ) (w : W)
      → (add r id ttl w).0 ≡ none
      → ((r.cb.allow w).0 ≡ true) × ((r.delegate.add id ttl (r.cb.allow w).1).0 ≡ none)
  unfolding add
  add-none id ttl w h = ground (arith, h, add_fallback-some id ttl)

-- The same decorator around another Redis.
abbrev pub with_delegate : {W : Type 0} → ResilientBlacklist W → Blacklist W → ResilientBlacklist W
with_delegate r d = record r { delegate = d }

module _ {W : Type 0} (r : ResilientBlacklist W) (d : Blacklist W) where
  check_fallback-with_delegate :
      (id : String) (w : W) → check_fallback (with_delegate r d) id w ≡ check_fallback r id w
  unfolding check_fallback after_l1 after_pg_check
  check_fallback-with_delegate id w = ground arith

  add_fallback-with_delegate :
      (id : String) (ttl : ℤ) (w : W)
      → add_fallback (with_delegate r d) id ttl w ≡ add_fallback r id ttl w
  unfolding add_fallback after_pg_add
  add_fallback-with_delegate id ttl w = ground arith

  batch_fallback-with_delegate :
      (t : ℤ) (ids : List String) (ttl : ℤ) (w : W)
      → batch_fallback (with_delegate r d) t ids ttl w ≡ batch_fallback r t ids ttl w
  unfolding batch_fallback
  batch_fallback-with_delegate t [] ttl w = refl
  batch_fallback-with_delegate t (id ∷ ids) ttl w =
      let w' = (r.pg_repo.add id t w).1 in
      ground (arith, batch_fallback-with_delegate t ids ttl (r.l1.set id true ttl w').1)

  add_batch-with_delegate :
      (ids : List String) (ttl : ℤ) (w : W)
      → (r.cb.allow w).0 ≡ false
      → add_batch (with_delegate r d) ids ttl w ≡ add_batch r ids ttl w
  unfolding add_batch
  add_batch-with_delegate [] ttl w refused = refl
  add_batch-with_delegate (id ∷ ids) ttl w refused =
      let w1 = (r.cb.allow w).1 in
      ground
        (arith, refused, batch_fallback-with_delegate (add_time (r.now w1) ttl) (id ∷ ids) ttl w1)

  -- While the circuit refuses, no operation calls Redis: each returns the same and leaves the same
  -- behind whatever stands in Redis' place.
  pub open_spares_redis :
      (id : String) (ids : List String) (ttl : ℤ) (w : W)
      → (r.cb.allow w).0 ≡ false
      → (is_blacklisted (with_delegate r d) id w ≡ is_blacklisted r id w)
        × (add (with_delegate r d) id ttl w ≡ add r id ttl w)
        × (add_batch (with_delegate r d) ids ttl w ≡ add_batch r ids ttl w)
  open_spares_redis id ids ttl w refused =
      let w1 = (r.cb.allow w).1 in
      (
        (unfold is_blacklisted in ground (arith, refused, check_fallback-with_delegate id w1)),
        (unfold add in ground (arith, refused, add_fallback-with_delegate id ttl w1)),
        add_batch-with_delegate ids ttl w refused,
      )
