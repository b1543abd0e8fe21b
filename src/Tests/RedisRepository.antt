-- ===== src/Tests/RedisRepository.antt =====
-- The devices of a user on the Redis in memory.
use central_auth.Common.{
  ℕ, String, ◌≡◌, ◌≢◌, ◌⊎◌, ◌≤◌, refl, true, not, ◌||◌, ◌&&◌, none, some, [], length, arith, str_eq,
  if◌then◌else◌, ◌*◌,
}
use central_auth.Common.Int.{pos}
use central_auth.Bff.{second}
use central_auth.Redis.{has}
use central_auth.RedisRepository.{devices_key, refresh_key, save_login, logout_all}
use central_auth.RedisRepository.Limit.{evicts, save_login-AtMost}
use central_auth.RedisRepository.Tokens.{save_login-evicts}
use central_auth.RedisRepository.Logout.{Ended, logout_all-ends}
use central_auth.Tests.SortedSet.{placed}
use central_auth.Tests.Server.{
  Server, server, update, empty, server-QuietLink, server-SortedSetLaws, server-StringLaws,
  server-ScoreLaws,
}

-- A user at the limit.
abbrev full : Server
full = record empty {
  sorted_sets =
      update (devices_key "u")
        (placed 5 "d5" (placed 3 "d3" (placed 4 "d4" (placed 1 "d1" (placed 2 "d2" [])))))
        (λ k. []);
  strings =
      update (refresh_key "u" "d1") (some "t1")
        (update (refresh_key "u" "d2") (some "t2") (λ k. none));
}

save_login-AtMost_example :
    (let (e, r') = save_login server "u" 7 "d6" "t6" (pos (60 * second)) full in
      (length (server.z_range (devices_key "u") r') ≤ 5)
      × (e ≡ none → has "d6" (server.z_range (devices_key "u") r') ≡ true))
save_login-AtMost_example =
    save_login-AtMost server server-SortedSetLaws "u" server-QuietLink 7 (60 * second) "d6" "t6"
      full (omega arith) (omega arith)

save_login-evicts_example :
    (let r' = (save_login server "u" 7 "d6" "t6" (pos (60 * second)) full).1 in
      let ids = server.z_range (devices_key "u") full in
      let score = server.z_score (devices_key "u") in
      (has "d1" (server.z_range (devices_key "u") r')
        ≡ (str_eq "d6" "d1" || (has "d1" ids && not (evicts 5 "d6" "d1" ids))))
      × (server.get (refresh_key "u" "d1") r' ≡ (
          if str_eq "d6" "d1"
          then some "t6"
          else if evicts 5 "d6" "d1" ids
          then none
          else server.get (refresh_key "u" "d1") full))
      × (score "d1" r' ≡ (
          if str_eq "d6" "d1"
          then some 7
          else if evicts 5 "d6" "d1" ids
          then none
          else score "d1" full))
      × (evicts 5 "d6" "d1" ids ≡ true
          → (o : String) (s t : ℕ) → score "d1" full ≡ some s
          → score o full ≡ some t
          → s ≤ t))
unfolding save_login
save_login-evicts_example =
    save_login-evicts server server-SortedSetLaws server-StringLaws "u" server-QuietLink
      server-ScoreLaws 7 (60 * second) "d6" "d1" "t6" full (omega arith) refl

logout_all-ends_example :
    ((logout_all server "u" full).0 ≡ none
      → Ended server server-SortedSetLaws server-StringLaws server-QuietLink "u" full
          (logout_all server "u" full).1)
    × ((logout_all server "u" full).0 ≢ none
        → (server.z_range (devices_key "u") (logout_all server "u" full).1
            ≡ server.z_range (devices_key "u") full)
          ⊎ Ended server server-SortedSetLaws server-StringLaws server-QuietLink "u" full
              (logout_all server "u" full).1)
logout_all-ends_example =
    logout_all-ends server server-SortedSetLaws server-StringLaws server-QuietLink "u" full
