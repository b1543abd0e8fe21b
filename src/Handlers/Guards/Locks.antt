-- ===== src/Handlers/Guards/Locks.antt =====
-- Who reads the metrics.
use central_auth.Common.{◌≡◌, ◌↔◌, String, Bool, true, false, ◌||◌, Option, List, arith, str_eq}
use central_auth.Handlers.Guards.{abort, run, metrics_allowlist, ip_allowed, basic_auth}

module _ {Ip : Type 0} (decode_base64 : String → Option String) (nets : List (Ip → Bool))
    (user password : String) (remote : Option Ip) (h : String) where
  -- The metrics are served exactly if both locks are open: the address is in a listed range, or no
  -- range is listed, and the credentials match, or the user or the password that is configured is
  -- empty. An address that is not allowed is answered 403 whatever credentials it sends.
  pub metrics_allowlist-Both :
      ((metrics_allowlist decode_base64 nets user password remote h ≡ run) ↔ (
        (ip_allowed decode_base64 nets user password remote ≡ true)
        × ((basic_auth decode_base64 nets user password h || str_eq user "" || str_eq password "")
            ≡ true)))
      × (ip_allowed decode_base64 nets user password remote ≡ false
          → metrics_allowlist decode_base64 nets user password remote h ≡ abort 403)
  unfolding metrics_allowlist
  metrics_allowlist-Both = ground arith
