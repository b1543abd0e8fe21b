-- ===== src/SessionStore/Keys.antt =====
-- The keys of the sessions, of the index of a user and of the locks are apart; what the store
-- relies on.
use Prim.Native.String.{◌++◌}
use text.Mathlib.TextLemmas.{append_assoc}
use central_auth.Common.{◌≡◌, refl, sym, ◌∙◌, String, false, some, arith, str_eq, eq_iff}
use central_auth.Failure.{Failure, ok, err, is, redis_nil, session_not_found}
use central_auth.Ports.Types.{BffSession}
use central_auth.Redis.{StringLaws, SetLaws, QuietLink}
use central_auth.Redis.Keys.{prefix_ne, prefix_inj}
use central_auth.SessionStore.{RedisStore, session_key, user_sessions_key, refresh_lock_key}

pub session_key_ne : (i j : String) → str_eq i j ≡ false → ¬ (session_key i ≡ session_key j)
session_key_ne i j h eq = ground (arith, eq_iff i j, h, prefix_inj "bff:session:" i j eq)

pub session_key-user_sessions_key : (i k : String) → ¬ (session_key i ≡ user_sessions_key k)
session_key-user_sessions_key i k eq =
    prefix_ne "bff:s" "bff:u" ("ession:" ++ i) ("ser_sessions:" ++ k) refl
      (ground (arith, eq_iff "bff:s" "bff:u"))
      (sym (append_assoc "bff:s" "ession:" i) ∙ eq ∙ append_assoc "bff:u" "ser_sessions:" k)

pub refresh_lock_key-session_key : (i j : String) → ¬ (refresh_lock_key i ≡ session_key j)
refresh_lock_key-session_key i j eq =
    prefix_ne "bff:r" "bff:s" ("efresh_lock:" ++ i) ("ession:" ++ j) refl
      (ground (arith, eq_iff "bff:r" "bff:s"))
      (sym (append_assoc "bff:r" "efresh_lock:" i) ∙ eq ∙ append_assoc "bff:s" "ession:" j)

-- Redis by its documentation; JSON that decodes what it encoded; and errors of the link and of the
-- decoder that are none of the sentinels the store compares with.
pub record StoreLaws {R : Type 0} (rs : RedisStore R) : Type 0 where
  pub strings : StringLaws rs.rdb
  pub sets : SetLaws rs.rdb
  pub quiet : QuietLink rs.rdb
  pub link_err :
      (r : R) (e : Failure)
      → (rs.rdb.link r).0 ≡ some e
      → (is redis_nil e ≡ false) × (is session_not_found e ≡ false)
  pub decode_err :
      (b : String) (e : Failure) → rs.codec.decode b ≡ err e → is session_not_found e ≡ false
  pub decode-encode :
      (s : BffSession) (b : String) → rs.codec.encode s ≡ ok b → rs.codec.decode b ≡ ok s
