-- ===== src/Resilient/Blacklist/Sync.antt =====
-- What the background sync brings into the cache.
use mathlib.Core.Path.{subst}
use central_auth.Common.{
  ℕ, ◌≡◌, String, Bool, true, false, ◌&&◌, ◌||◌, Option, some, List, [], ◌∷◌, arith, str_eq, eq_iff,
}
use central_auth.Common.Int.{ℤ, lt_ℤ, pos}
use central_auth.Failure.{ok}
use central_auth.Resilient.{CacheLaws, BlacklistEntry}
use central_auth.Resilient.Blacklist.{ResilientBlacklist, load, until, sync_from_pg, load_result}

-- A live entry of the session is among the entries.
abbrev pub is_listed : (now : ℕ) → String → List BlacklistEntry → Bool
is_listed now id [] = false
is_listed now id (e ∷ entries) =
    (str_eq e.session_id id && lt_ℤ (pos 0) (until e.expires_at now)) || is_listed now id entries

module _ {W : Type 0} (r : ResilientBlacklist W) (laws : CacheLaws r.l1) where
  found : String → W → Option Bool
  found id w = (r.l1.get id w).0

  set-found :
      (id i : String) (ttl : ℤ) (w : W)
      → lt_ℤ (pos 0) ttl ≡ true
      → found id w ≡ some true
      → found id (r.l1.set i true ttl w).1 ≡ some true
  unfolding found
  set-found id i ttl w positive h =
      ground (
        arith,
        eq_iff id i,
        laws.get_set id true ttl w positive,
        laws.get_set_ne id i true ttl w,
        h,
      )

  load-keeps :
      (now : ℕ) (id : String) (entries : List BlacklistEntry) (w : W)
      → found id w ≡ some true
      → found id (load r now entries w) ≡ some true
  unfolding load
  load-keeps now id [] w h = h
  load-keeps now id (e ∷ entries) w h =
      let ttl = until e.expires_at now in
      let w' = (r.l1.set e.session_id true ttl w).1 in
      ground (
        arith,
        load-keeps now id entries w h,
        load-keeps now id entries w',
        set-found id e.session_id ttl w,
        h,
      )

  set-own :
      (id i : String) (ttl : ℤ) (w : W)
      → i ≡ id
      → lt_ℤ (pos 0) ttl ≡ true
      → found id (r.l1.set i true ttl w).1 ≡ some true
  unfolding found
  set-own id i ttl w same positive =
      subst (λ j. (r.l1.get j (r.l1.set i true ttl w).1).0 ≡ some true) same
        (laws.get_set i true ttl w positive)

  load-found :
      (now : ℕ) (id : String) (entries : List BlacklistEntry) (w : W)
      → is_listed now id entries ≡ true
      → found id (load r now entries w) ≡ some true
  unfolding load
  load-found now id [] w h = ground arith
  load-found now id (e ∷ entries) w h =
      let ttl = until e.expires_at now in
      let w' = (r.l1.set e.session_id true ttl w).1 in
      ground (
        arith,
        load-found now id entries w,
        load-found now id entries w',
        load-keeps now id entries w',
        set-own id e.session_id ttl w,
        eq_iff e.session_id id,
        h,
      )

  -- After a background sync each session that PostgreSQL lists with an expiry in the future is
  -- found in the cache as revoked, by the laws of the cache.
  pub sync_from_pg-found :
      (id : String) (entries : List BlacklistEntry) (w : W)
      → (r.pg_repo.list_active w).0 ≡ ok entries
      → is_listed (r.now (r.pg_repo.list_active w).1) id entries ≡ true
      → (r.l1.get id (sync_from_pg r w)).0 ≡ some true
  unfolding sync_from_pg load_result found
  sync_from_pg-found id entries w h listed =
      let w' = (r.pg_repo.list_active w).1 in
      ground (arith, h, load-found (r.now w') id entries w' listed)
