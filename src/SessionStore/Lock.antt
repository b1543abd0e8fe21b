-- ===== src/SessionStore/Lock.antt =====
-- The lock of a token refresh.
use central_auth.Common.{◌≡◌, String, Bool, true, false, none, arith}
use central_auth.Common.Int.{ℤ, pos, lt_ℤ}
use central_auth.Failure.{ok}
use central_auth.RedisRepository.{is_none}
use central_auth.SessionStore.{
  RedisStore, refresh_lock_key, acquire_refresh_lock, release_refresh_lock,
}
use central_auth.SessionStore.Keys.{StoreLaws}

module _ {R : Type 0} (rs : RedisStore R) (laws : StoreLaws rs) where
  open rs use {rdb}
  open laws use {strings, sets, quiet}

  -- The key is there once it was asked for, whoever got it.
  acquire-held :
      (id : String) (t : ℤ) (r : R) (b : Bool)
      → lt_ℤ (pos 0) t ≡ true
      → (acquire_refresh_lock rs id t r).0 ≡ ok b
      → ¬ (rdb.get (refresh_lock_key id) (acquire_refresh_lock rs id t r).1 ≡ none)
  unfolding acquire_refresh_lock
  acquire-held id t r b positive done =
      let k = refresh_lock_key id in
      let r₁ = (rdb.link r).1 in
      ground
        (arith, done, sets.set_nx_lem k "1" t r₁ positive, strings.get-set_same k "1" t r₁ positive)

  acquire_lem :
      (id : String) (u : ℤ) (r : R)
      → lt_ℤ (pos 0) u ≡ true
      → (rdb.link r).0 ≡ none
      → (acquire_refresh_lock rs id u r).0 ≡ ok (is_none (rdb.get (refresh_lock_key id) r))
  unfolding acquire_refresh_lock
  acquire_lem id u r positive up =
      let k = refresh_lock_key id in
      ground (arith, up, sets.set_nx_lem k "1" u (rdb.link r).1 positive, quiet.get-link k r)

  release-free :
      (id : String) (r : R)
      → (release_refresh_lock rs id r).0 ≡ none
      → rdb.get (refresh_lock_key id) (release_refresh_lock rs id r).1 ≡ none
  unfolding release_refresh_lock
  release-free id r done =
      let k = refresh_lock_key id in ground (arith, done, strings.get-del_same k (rdb.link r).1)

  -- Only one caller holds the lock of a session: on a server that answers, with a positive time to live,
  -- a second caller that asks before the lock expires or is released is told no, and one that asks
  -- after the release gets it.
  pub acquire-release :
      (id : String) (t u : ℤ) (r : R) (b : Bool)
      → lt_ℤ (pos 0) t ≡ true
      → lt_ℤ (pos 0) u ≡ true
      → (acquire_refresh_lock rs id t r).0 ≡ ok b
      → (let r₁ = (acquire_refresh_lock rs id t r).1 in
          let (e, r₂) = release_refresh_lock rs id r₁ in
          ((rdb.link r₁).0 ≡ none → (acquire_refresh_lock rs id u r₁).0 ≡ ok false)
          × (e ≡ none → (rdb.link r₂).0 ≡ none → (acquire_refresh_lock rs id u r₂).0 ≡ ok true))
  acquire-release id t u r b positive positive' done =
      let r₁ = (acquire_refresh_lock rs id t r).1 in
      let (_, r₂) = release_refresh_lock rs id r₁ in
      (
        (λ up.
            ground (arith, acquire_lem id u r₁ positive' up, acquire-held id t r b positive done)),
        (λ released up.
            ground (arith, acquire_lem id u r₂ positive' up, release-free id r₁ released)),
      )
