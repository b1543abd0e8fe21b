-- ===== src/Tests/SessionStore.antt =====
-- The sessions of a browser on the Redis in memory, with a codec that knows two sessions.
use central_auth.Common.{
  ◌*◌, ◌≡◌, refl, String, Bool, true, false, none, [], ◌∷◌, arith, str_eq, eq_iff, if◌then◌else◌,
  ◌&&◌, ◌==◌,
}
use central_auth.Common.Int.{pos}
use central_auth.Bff.{second}
use central_auth.Failure.{ok, err, is, plain}
use central_auth.Ports.Types.{BffSession}
use central_auth.Redis.{has}
use central_auth.SessionStore.{
  RedisStore, Codec, user_sessions_key, create, get, update, delete, delete_all_for_user,
  acquire_refresh_lock, release_refresh_lock,
}
use central_auth.SessionStore.Keys.{StoreLaws}
use central_auth.SessionStore.Stored.{stored, get-create}
use central_auth.SessionStore.Deleted.{delete_all-empties}
use central_auth.SessionStore.Index.{update-resurrects, members}
use central_auth.SessionStore.Lock.{acquire-release}
use central_auth.Tests.Server.{
  Server, server, empty, server-QuietLink, server-StringLaws, server-SetLaws,
}

abbrev session : BffSession
session = record {
  session_id = "s";
  kratos_id = "u";
  device_id = "d";
  kratos_session_id = "k";
  hydra_access_token = "a";
  hydra_refresh_token = "r";
  access_token_exp = 5;
  created_at = 0;
  expires_at = 1000 * second;
}

abbrev same : (s t : BffSession) → Bool
same s t =
    str_eq s.session_id t.session_id
    && str_eq s.kratos_id t.kratos_id
    && str_eq s.device_id t.device_id
    && str_eq s.kratos_session_id t.kratos_session_id
    && str_eq s.hydra_access_token t.hydra_access_token
    && str_eq s.hydra_refresh_token t.hydra_refresh_token
    && (s.access_token_exp == t.access_token_exp)
    && (s.created_at == t.created_at)
    && (s.expires_at == t.expires_at)

same→eq : (s t : BffSession) → same s t ≡ true → s ≡ t
same→eq s t h = ground (
  arith,
  h,
  eq_iff s.session_id t.session_id,
  eq_iff s.kratos_id t.kratos_id,
  eq_iff s.device_id t.device_id,
  eq_iff s.kratos_session_id t.kratos_session_id,
  eq_iff s.hydra_access_token t.hydra_access_token,
  eq_iff s.hydra_refresh_token t.hydra_refresh_token,
)

abbrev codec : Codec
codec = record {
  encode = λ s. if same session s then ok "json" else err plain;
  decode = λ b. if str_eq b "json" then ok session else err plain;
}

decoded : (s : BffSession) (b : String) → codec.encode s ≡ ok b → codec.decode b ≡ ok s
decoded s b h = ground (arith, h, same→eq session s, eq_iff b "json")

abbrev store : RedisStore Server
store = record { rdb = server; session_ttl = pos (60 * second); codec = codec; now = λ r. 0 }

store-StoreLaws : StoreLaws store
unfolding is
store-StoreLaws = record {
  strings = server-StringLaws;
  sets = server-SetLaws;
  quiet = server-QuietLink;
  link_err = λ r e h. ground (arith, h);
  decode_err = λ b e h. ground (arith, h);
  decode-encode = decoded;
}

get-create_example :
    (let r' = (create store session empty).1 in
      ((server.link r').0 ≡ none → (get store "s" r').0 ≡ ok session)
      × ((j : String)
          → str_eq "s" j ≡ false
          → stored store store-StoreLaws j r' ≡ stored store store-StoreLaws j empty))
unfolding create
get-create_example = get-create store store-StoreLaws session empty refl refl

abbrev created : Server
unfolding create
created = (create store session empty).1

delete_all-empties_example :
    (let r' = (delete_all_for_user store "u" created).1 in
      (("s" ∷ []) ≡ server.s_members (user_sessions_key "u") created)
      × (server.s_members (user_sessions_key "u") r' ≡ [])
      × ((j : String)
          → stored store store-StoreLaws j r'
            ≡ (if has j ("s" ∷ []) then none else stored store store-StoreLaws j created)))
unfolding create delete_all_for_user
delete_all-empties_example = delete_all-empties store store-StoreLaws "u" ("s" ∷ []) created refl

update-resurrects_example :
    (let r' = (update store session (delete store "s" created).1).1 in
      ((server.link r').0 ≡ none → (get store "s" r').0 ≡ ok session)
      × (has "s" (members store store-StoreLaws "u" r') ≡ false))
unfolding create delete stored update
update-resurrects_example =
    update-resurrects store store-StoreLaws session session "json" created refl refl refl refl refl

acquire-release_example :
    (let r₁ = (acquire_refresh_lock store "s" (pos second) empty).1 in
      let (e, r₂) = release_refresh_lock store "s" r₁ in
      ((server.link r₁).0 ≡ none → (acquire_refresh_lock store "s" (pos second) r₁).0 ≡ ok false)
      × (e ≡ none
          → (server.link r₂).0 ≡ none
          → (acquire_refresh_lock store "s" (pos second) r₂).0 ≡ ok true))
unfolding acquire_refresh_lock
acquire-release_example =
    acquire-release store store-StoreLaws "s" (pos second) (pos second) empty true refl refl refl
