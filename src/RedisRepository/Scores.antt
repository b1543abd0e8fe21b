-- ===== src/RedisRepository/Scores.antt =====
-- The scores of a user's devices, the times of their logins, under `SaveLogin`.
use central_auth.Common.{
  ℕ, ◌≤◌, ◌≡◌, refl, ap, String, true, ◌∙◌, Option, none, some, List, [], ◌∷◌, arith, str_eq,
  eq_iff, if◌then◌else◌,
}
use central_auth.Common.Int.{ℤ, pos, lt_ℤ}
use central_auth.Redis.{Redis, SortedSetLaws, ScoreLaws}
use central_auth.RedisRepository.{
  devices_key, refresh_key, make_room, evict_oldest, extend_ttl, save_login_script,
}
use central_auth.RedisRepository.Limit.{evicts, is_oldest, devices_key_ne}

module _ {R : Type 0} (c : Redis R) (sorted : SortedSetLaws c) (scores : ScoreLaws c)
    (k : String) where
  -- The score of a device, if it is logged in
  abbrev pub score : String → R → Option ℕ
  score e r = c.z_score (devices_key k) e r

  abbrev devices : R → List String
  devices r = c.z_range (devices_key k) r

  score-evict_oldest :
      (e : String) (ids : List String) (r : R)
      → score e (evict_oldest c k ids r) ≡ (if is_oldest e ids then none else score e r)
  unfolding evict_oldest
  score-evict_oldest e [] r = refl
  score-evict_oldest e (x ∷ ids) r =
      scores.z_score-del_ne (devices_key k) (refresh_key k x) e (c.z_rem (devices_key k) x r)
        (devices_key_ne k x k)
      ∙ scores.z_score-z_rem (devices_key k) x e r

  score-make_room :
      (max : ℕ) (d e : String) (r : R)
      → score e (make_room c k max d r) ≡ (if evicts max d e (devices r) then none else score e r)
  unfolding make_room
  score-make_room max d e r = ground (
    arith,
    sorted.z_score_lem (devices_key k) d r,
    sorted.z_card_lem (devices_key k) r,
    score-evict_oldest e (devices r) r,
  )

  score-extend_ttl :
      (e : String) (ttl : ℤ) (r : R)
      → lt_ℤ (pos 0) ttl ≡ true
      → score e (extend_ttl c k ttl r) ≡ score e r
  unfolding extend_ttl
  score-extend_ttl e ttl r positive =
      ground
        (arith, scores.z_score-expire_seconds (devices_key k) (devices_key k) e ttl r, positive)

  pub score-save_login_script :
      (now max : ℕ) (d e token : String) (ttl : ℤ) (r : R)
      → lt_ℤ (pos 0) ttl ≡ true
      → score e (save_login_script c k now max d token ttl r)
        ≡ (if str_eq d e then some now else if evicts max d e (devices r) then none else score e r)
  unfolding save_login_script
  score-save_login_script now max d e token ttl r positive =
      let r₁ = make_room c k max d r in
      let r₂ = c.z_add (devices_key k) now d r₁ in
      score-extend_ttl e ttl (c.set_seconds (refresh_key k d) token ttl r₂) positive
      ∙ scores.z_score-set_seconds (devices_key k) (refresh_key k d) token e ttl r₂
          (devices_key_ne k d k)
      ∙ ground (arith, scores.z_score-z_add (devices_key k) d e now r₁, score-make_room max d e r)

  oldest-score :
      (e o : String) (ids : List String) (s t : ℕ) (r : R)
      → devices r ≡ ids
      → is_oldest e ids ≡ true
      → score e r ≡ some s
      → score o r ≡ some t
      → s ≤ t
  oldest-score e o [] s t r same first here there = ground (arith, first)
  oldest-score e o (x ∷ ids) s t r same first here there =
      scores.z_range_lem (devices_key k) x o ids s t r same
        (ap (λ y. score y r) (ground (arith, first, eq_iff x e)) ∙ here) there

  -- A device that a login evicts has been logged in for the longest time.
  pub evicts-score :
      (max : ℕ) (d e o : String) (s t : ℕ) (r : R)
      → evicts max d e (devices r) ≡ true
      → score e r ≡ some s
      → score o r ≡ some t
      → s ≤ t
  evicts-score max d e o s t r out = oldest-score e o (devices r) s t r refl (ground (arith, out))
