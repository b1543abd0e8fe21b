-- ===== src/Resilient/Sessions/Evicted.antt =====
-- A session that was deleted is not served from the cache.
use central_auth.Common.{
  ◌≡◌, ◌∙◌, ap, refl, String, Option, true, false, none, some, arith, List, [], ◌∷◌, str_eq, eq_iff,
  Bool-cases, inl, inr, if◌then◌else◌,
}
use central_auth.Failure.{Failure, ok, err, sentinel, session_not_found}
use central_auth.Ports.Types.{BffSession}
use central_auth.Redis.{has}
use central_auth.Redis.Keys.{prefix_inj}
use central_auth.Resilient.Guarded.{
  Finds, Apart, guarded, guarded_try, cached_read-hit, cached_read-refused,
}
use central_auth.Resilient.Sessions.{
  ResilientSessionStore, l1_key, get, delete, delete_all_for_user, evict_all,
}

module _ {W : Type 0} (s : ResilientSessionStore W) (found : String → W → Option BffSession)
    (finds : Finds s.l1 found) (apart : Apart s.cb found) where
  open s use {delegate, cb, l1}

  found-guarded :
      (key : String) (call : W → Option Failure × W) (w : W)
      → ((v : W) → found key (call v).1 ≡ found key v)
      → found key (guarded cb (λ v. v) call w).1 ≡ found key w
  unfolding guarded
  found-guarded key call w keeps =
      let w₁ = (cb.allow w).1 in
      let w₂ = (call w₁).1 in
      ground (
        arith,
        apart.allow_keeps key w,
        keeps w₁,
        apart.success_keeps key w₂,
        apart.failure_keeps key w₂,
      )

  -- However `Delete` ends, also with the circuit open, the session is not in the cache afterwards: while
  -- the circuit refuses, `Get` returns `ErrNotFound`. Redis' own calls leave the cache alone.
  pub get-delete_refused :
      (id : String) (w : W)
      → ((key : String) (v : W) → found key (delegate.delete id v).1 ≡ found key v)
      → (let w' = (delete s id w).1 in
          (cb.allow (l1.get (l1_key id) w').1).0 ≡ false
          → (get s id w').0 ≡ err (sentinel session_not_found))
  unfolding get delete
  get-delete_refused id w keeps refused =
      let key = l1_key id in
      let w₁ = (l1.delete key w).1 in
      cached_read-refused l1 cb (sentinel session_not_found) found finds apart key (delegate.get id)
        (delete s id w).1
        (found-guarded key (delegate.delete id) w₁ (keeps key) ∙ finds.delete_same key w) refused

  found-delete :
      (id j : String) (w : W)
      → found (l1_key j) (l1.delete (l1_key id) w).1
        ≡ (if str_eq id j then none else found (l1_key j) w)
  found-delete id j w = elim (Bool-cases (str_eq id j)) [
    | inl h ↦ ground (arith, h, finds.delete_same (l1_key id) w, eq_iff id j)
    | inr h ↦ ground (
      arith,
      h,
      finds.delete_ne (l1_key id) (l1_key j) w
          (λ eq. ground (arith, h, eq_iff id j, prefix_inj "sess:" id j eq)),
    )
  ]

  found-evict_all :
      (j : String) (ids : List String) (w : W)
      → found (l1_key j) (evict_all s ids w) ≡ (if has j ids then none else found (l1_key j) w)
  unfolding evict_all
  found-evict_all j [] w = refl
  found-evict_all j (id ∷ ids) w =
      ground (arith, found-evict_all j ids (l1.delete (l1_key id) w).1, found-delete id j w)

  -- A `DeleteAllForUser` that returns a list has taken every session of the list out of the cache. One that
  -- returns an error, as with the circuit open, has taken none: each session that was in the cache is
  -- still served by `Get`. Redis' own calls leave the cache alone.
  pub get-delete_all :
      (k j : String) (w : W)
      → ((key : String) (v : W) → found key (delegate.delete_all_for_user k v).1 ≡ found key v)
      → (let (r, w') = delete_all_for_user s k w in
          ((ids : List String) → r ≡ ok ids → has j ids ≡ true → found (l1_key j) w' ≡ none)
          × ((e : Failure) (sess : BffSession)
              → r ≡ err e
              → found (l1_key j) w ≡ some sess
              → (get s j w').0 ≡ ok sess))
  unfolding delete_all_for_user get guarded_try
  get-delete_all k j w keeps =
      let key = l1_key j in
      let w₁ = (cb.allow w).1 in
      let w₂ = (delegate.delete_all_for_user k w₁).1 in
      (
        (λ ids done h. ground (arith, done, h, found-evict_all j ids (cb.record_success w₂).1)),
        (λ e sess failed here.
            let w' = (delete_all_for_user s k w).1 in
            let still : (found key w' ≡ some sess) = ground (
              arith,
              failed,
              here,
              apart.allow_keeps key w,
              keeps key w₁,
              apart.success_keeps key w₂,
              apart.failure_keeps key w₂,
            ) in
            ap (λ v. v.0)
              (cached_read-hit l1 cb (sentinel session_not_found) found finds apart key sess
                (delegate.get j) w' still)),
      )
