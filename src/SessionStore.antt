-- ===== src/SessionStore.antt =====
-- internal/session/store.go: the browser sessions in Redis. The JSON codec is a parameter.
pub mod Keys
pub mod Stored
pub mod Deleted
pub mod Index
pub mod Lock
use Prim.Native.String.{◌++◌}
use central_auth.Common.{
  ℕ, String, Bool, true, false, Option, none, some, List, [], ◌∷◌, if◌then◌else◌,
}
use central_auth.Common.Int.{ℤ, pos, lt_ℤ, sub_ℕ}
use central_auth.Common.Eff.{Eff, Try}
use central_auth.Failure.{
  Failure, Result, ok, err, wrap, sentinel, is, redis_nil, session_not_found,
}
use central_auth.Ports.{SessionStore}
use central_auth.Ports.Types.{BffSession}
use central_auth.Redis.{Redis, round_trip, send}

abbrev pub session_key : String → String
session_key session_id = "bff:session:" ++ session_id

abbrev pub user_sessions_key : String → String
user_sessions_key kratos_id = "bff:user_sessions:" ++ kratos_id

abbrev pub refresh_lock_key : String → String
refresh_lock_key session_id = "bff:refresh_lock:" ++ session_id

-- `json.Marshal` and `json.Unmarshal` of a session
pub record Codec : Type 0 where
  pub encode : BffSession → Result String
  pub decode : String → Result BffSession

-- `RedisStore`, with the clock
pub record RedisStore (R : Type 0) : Type 0 where
  pub rdb : Redis R
  pub session_ttl : ℤ
  pub codec : Codec
  pub now : R → ℕ

-- `fmt.Errorf` around an error that may be nil
abbrev wrapped : Option Failure → Option Failure
wrapped none = none
wrapped (some e) = some (wrap e)

module _ {R : Type 0} (rs : RedisStore R) where
  open rs use {rdb, session_ttl, codec, now}

  -- The transaction of `Create`
  unfoldable pub create_pipe : BffSession → String → ℤ → R → R
  create_pipe s b ttl r =
      let r₁ = rdb.set (session_key s.session_id) b ttl r in
      let r₂ = rdb.s_add (user_sessions_key s.kratos_id) s.session_id r₁ in
      rdb.expire (user_sessions_key s.kratos_id) ttl r₂

  -- `time.Until(s.ExpiresAt)`, or the default
  abbrev pub ttl_of : BffSession → R → ℤ
  ttl_of s r = let ttl = sub_ℕ s.expires_at (now r) in if lt_ℤ (pos 0) ttl then ttl else session_ttl

  -- `Create`
  unfoldable pub create : BffSession → Eff R (Option Failure)
  unfolding create_pipe
  create s r = elim (codec.encode s) [
    | err e ↦ (some (wrap e), r)
    | ok b ↦ let (e, r') = send rdb (create_pipe s b (ttl_of s r)) r in (wrapped e, r')
  ]

  abbrev decoded : Result BffSession → Result BffSession
  decoded (ok s) = ok s
  decoded (err e) = err (wrap e)

  abbrev get_reply : Result (Option String) → Result BffSession
  get_reply (ok none) = err (sentinel session_not_found)
  get_reply (ok (some val)) = decoded (codec.decode val)
  get_reply (err e) = if is redis_nil e then err (sentinel session_not_found) else err (wrap e)

  -- `Get`
  unfoldable pub get : String → Try R BffSession
  get session_id r =
      let (reply, r') = round_trip rdb (λ r. (rdb.get (session_key session_id) r, r)) r in
      (get_reply reply, r')

  -- `Update`
  unfoldable pub update : BffSession → Eff R (Option Failure)
  update s r = elim (codec.encode s) [
    | err e ↦ (some (wrap e), r)
    | ok b ↦
        let ttl = sub_ℕ s.expires_at (now r) in
        if lt_ℤ (pos 0) ttl
        then send rdb (rdb.set (session_key s.session_id) b ttl) r
        else (some (sentinel session_not_found), r)
  ]

  -- `Delete`, after `Get`
  unfoldable pub delete_found : String → Result BffSession → Eff R (Option Failure)
  delete_found session_id (err e) r = (if is session_not_found e then none else some e, r)
  delete_found session_id (ok s) r =
      let (e, r') =
        send rdb
          (λ r.
            rdb.s_rem (user_sessions_key s.kratos_id) session_id
              (rdb.del (session_key session_id) r))
          r in
      (wrapped e, r')

  -- `Delete`
  unfoldable pub delete : String → Eff R (Option Failure)
  unfolding delete_found get
  delete session_id r = let (s, r') = get session_id r in delete_found session_id s r'

  -- `SMEMBERS` of a user
  abbrev pub list_ids : String → Try R (List String)
  list_ids kratos_id = round_trip rdb (λ r. (rdb.s_members (user_sessions_key kratos_id) r, r))

  -- The commands of the pipeline of `GetAllForUser`
  unfoldable pub get_values : List String → R → List (Option String)
  get_values [] r = []
  get_values (id ∷ ids) r = rdb.get (session_key id) r ∷ get_values ids r

  abbrev add_session : Result BffSession → Result (List BffSession) → Result (List BffSession)
  add_session (err e) rest = err (wrap e)
  add_session (ok s) (err e) = err e
  add_session (ok s) (ok ss) = ok (s ∷ ss)

  -- The loop over the commands; the first value that is no session ends it.
  unfoldable pub collect : List (Option String) → Result (List BffSession)
  collect [] = ok []
  collect (none ∷ vals) = collect vals
  collect (some val ∷ vals) = let rest = collect vals in add_session (codec.decode val) rest

  abbrev collect_reply : Result (List (Option String)) → Result (List BffSession)
  collect_reply (ok vals) = collect vals
  collect_reply (err e) = err (wrap e)

  unfoldable pub get_all_listed : Result (List String) → Try R (List BffSession)
  unfolding get_values collect
  get_all_listed (err e) r = (err (wrap e), r)
  get_all_listed (ok []) r = (ok [], r)
  get_all_listed (ok (id ∷ ids)) r =
      let (vals, r') = round_trip rdb (λ r. (get_values (id ∷ ids) r, r)) r in
      (collect_reply vals, r')

  -- `GetAllForUser`
  unfoldable pub get_all_for_user : String → Try R (List BffSession)
  unfolding get_all_listed
  get_all_for_user kratos_id r = let (ids, r') = list_ids kratos_id r in get_all_listed ids r'

  unfoldable pub delete_keys : List String → R → R
  delete_keys [] r = r
  delete_keys (id ∷ ids) r = delete_keys ids (rdb.del (session_key id) r)

  abbrev deleted : List String → Option Failure → Result (List String)
  deleted ids none = ok ids
  deleted ids (some e) = err (wrap e)

  unfoldable pub delete_listed : String → Result (List String) → Try R (List String)
  unfolding delete_keys
  delete_listed kratos_id (err e) r = (err (wrap e), r)
  delete_listed kratos_id (ok []) r = (ok [], r)
  delete_listed kratos_id (ok (id ∷ ids)) r =
      let (e, r') =
        send rdb (λ r. rdb.del (user_sessions_key kratos_id) (delete_keys (id ∷ ids) r)) r in
      (deleted (id ∷ ids) e, r')

  -- `DeleteAllForUser`
  unfoldable pub delete_all_for_user : String → Try R (List String)
  unfolding delete_listed
  delete_all_for_user kratos_id r =
      let (ids, r') = list_ids kratos_id r in delete_listed kratos_id ids r'

  -- `AcquireRefreshLock`
  unfoldable pub acquire_refresh_lock : String → ℤ → Try R Bool
  acquire_refresh_lock session_id ttl =
      round_trip rdb (rdb.set_nx (refresh_lock_key session_id) "1" ttl)

  -- `ReleaseRefreshLock`
  unfoldable pub release_refresh_lock : String → Eff R (Option Failure)
  release_refresh_lock session_id = send rdb (rdb.del (refresh_lock_key session_id))

  -- The store, as the interface that the services use.
  abbrev pub as_store : SessionStore R
  as_store = record {
    create = create;
    get = get;
    update = update;
    delete = delete;
    get_all_for_user = get_all_for_user;
    delete_all_for_user = delete_all_for_user;
    acquire_refresh_lock = acquire_refresh_lock;
    release_refresh_lock = release_refresh_lock;
  }
