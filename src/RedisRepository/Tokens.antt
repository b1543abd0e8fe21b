-- ===== src/RedisRepository/Tokens.antt =====
-- Which refresh tokens `SaveLogin` writes and removes.
use central_auth.Bff.{second}
use central_auth.Common.{
  ℕ, ◌≤◌, ◌≡◌, refl, String, true, false, ◌||◌, ◌&&◌, not, ◌∙◌, none, Bool-cases, inl, inr, some,
  List, [], ◌∷◌, arith, str_eq, eq_iff, if◌then◌else◌,
}
use central_auth.Common.Int.{ℤ, pos, lt_ℤ}
use central_auth.Redis.{Redis, SortedSetLaws, ScoreLaws, StringLaws, QuietLink, has}
use central_auth.RedisRepository.{
  devices_key, refresh_key, make_room, evict_oldest, extend_ttl, save_login_script, max_devices,
  save_login, seconds_of,
}
use central_auth.RedisRepository.Limit.{
  evicts, is_oldest, refresh_key_ne, positive_seconds, has-save_login_script,
}
use central_auth.RedisRepository.Scores.{score-save_login_script, evicts-score}

module _ {R : Type 0} (c : Redis R) (sorted : SortedSetLaws c) (strings : StringLaws c)
    (k : String) where
  key_ne : (x e : String) → str_eq x e ≡ false → ¬ (refresh_key k x ≡ refresh_key k e)
  key_ne x e h = refresh_key_ne k x e (ground (arith, eq_iff x e, h))

  pub get-del_token :
      (x e : String) (r : R)
      → c.get (refresh_key k e) (c.del (refresh_key k x) r)
        ≡ (if str_eq x e then none else c.get (refresh_key k e) r)
  get-del_token x e r = elim (Bool-cases (str_eq x e)) [
    | inl h ↦ ground (arith, h, strings.get-del_same (refresh_key k x) r, eq_iff x e)
    | inr h ↦
        ground (arith, h, strings.get-del_ne (refresh_key k x) (refresh_key k e) r (key_ne x e h))
  ]

  get-set_token :
      (x e v : String) (ttl : ℤ) (r : R)
      → lt_ℤ (pos 0) ttl ≡ true
      → c.get (refresh_key k e) (c.set_seconds (refresh_key k x) v ttl r)
        ≡ (if str_eq x e then some v else c.get (refresh_key k e) r)
  get-set_token x e v ttl r positive = elim (Bool-cases (str_eq x e)) [
    | inl h ↦
        ground
          (arith, h, strings.get-set_seconds_same (refresh_key k x) v ttl r positive, eq_iff x e)
    | inr h ↦ ground (
      arith,
      h,
      strings.get-set_seconds_ne (refresh_key k x) (refresh_key k e) v ttl r (key_ne x e h),
    )
  ]

  get-evict_oldest :
      (e : String) (ids : List String) (r : R)
      → c.get (refresh_key k e) (evict_oldest c k ids r)
        ≡ (if is_oldest e ids then none else c.get (refresh_key k e) r)
  unfolding evict_oldest
  get-evict_oldest e [] r = refl
  get-evict_oldest e (x ∷ ids) r =
      let r' = c.z_rem (devices_key k) x r in
      ground (
        arith,
        get-del_token x e r',
        strings.get-z_rem (devices_key k) (refresh_key k e) x r,
        eq_iff x e,
      )

  get-make_room :
      (max : ℕ) (d e : String) (r : R)
      → c.get (refresh_key k e) (make_room c k max d r)
        ≡ (if evicts max d e (c.z_range (devices_key k) r) then none else c.get (refresh_key k e) r)
  unfolding make_room
  get-make_room max d e r = ground (
    arith,
    sorted.z_score_lem (devices_key k) d r,
    sorted.z_card_lem (devices_key k) r,
    get-evict_oldest e (c.z_range (devices_key k) r) r,
  )

  get-extend_ttl :
      (e : String) (ttl : ℤ) (r : R)
      → lt_ℤ (pos 0) ttl ≡ true
      → c.get e (extend_ttl c k ttl r) ≡ c.get e r
  unfolding extend_ttl
  get-extend_ttl e ttl r positive =
      ground (arith, strings.get-expire_seconds (devices_key k) e ttl r, positive)

  pub get-save_login_script :
      (score max : ℕ) (d e token : String) (ttl : ℤ) (r : R)
      → lt_ℤ (pos 0) ttl ≡ true
      → c.get (refresh_key k e) (save_login_script c k score max d token ttl r) ≡ (
          if str_eq d e
          then some token
          else if evicts max d e (c.z_range (devices_key k) r)
          then none
          else c.get (refresh_key k e) r)
  unfolding save_login_script
  get-save_login_script score max d e token ttl r positive =
      let r₁ = make_room c k max d r in
      let r₂ = c.z_add (devices_key k) score d r₁ in
      let r₃ = c.set_seconds (refresh_key k d) token ttl r₂ in
      get-extend_ttl (refresh_key k e) ttl r₃ positive
      ∙ ground (
        arith,
        get-set_token d e token ttl r₂ positive,
        strings.get-z_add (devices_key k) (refresh_key k e) d score r₁,
        get-make_room max d e r,
      )

  module _ (quiet : QuietLink c) (scores : ScoreLaws c) where
    -- By what Redis documents, after a `SaveLogin` that returned no error with a time to live of at
    -- least a second, the new token is the one that is stored for the device, and its score is the
    -- time of this login. A device that was logged in already drives out no other; a new one at the
    -- limit of five drives out one other, whose token is deleted, and no device of the user has an
    -- older login, by the scores, than the one driven out. The tokens, places and scores of all others
    -- stay.
    pub save_login-evicts :
        (now ttl : ℕ) (d e token : String) (r : R)
        → second ≤ ttl
        → (save_login c k now d token (pos ttl) r).0 ≡ none
        → (let r' = (save_login c k now d token (pos ttl) r).1 in
            let ids = c.z_range (devices_key k) r in
            let score = c.z_score (devices_key k) in
            (has e (c.z_range (devices_key k) r')
              ≡ (str_eq d e || (has e ids && not (evicts 5 d e ids))))
            × (c.get (refresh_key k e) r' ≡ (
                if str_eq d e
                then some token
                else if evicts 5 d e ids
                then none
                else c.get (refresh_key k e) r))
            × (score e r'
                ≡ (if str_eq d e then some now else if evicts 5 d e ids then none else score e r))
            × (evicts 5 d e ids ≡ true
                → (o : String) (s t : ℕ) → score e r ≡ some s
                → score o r ≡ some t
                → s ≤ t))
    unfolding save_login
    save_login-evicts now ttl d e token r long h =
        let r' = (c.link r).1 in
        let t = seconds_of (pos ttl) in
        let positive = positive_seconds ttl long in
        let same = quiet.z_range-link (devices_key k) r in
        (
          ground (
            arith,
            h,
            same,
            has-save_login_script c sorted k now max_devices d e token t r' positive,
          ),
          ground (
            arith,
            h,
            quiet.get-link (refresh_key k e) r,
            same,
            get-save_login_script now max_devices d e token t r' positive,
          ),
          ground (
            arith,
            h,
            scores.z_score-link (devices_key k) e r,
            same,
            score-save_login_script c sorted scores k now max_devices d e token t r' positive,
          ),
          (λ out o s t. evicts-score c sorted scores k 5 d e o s t r out),
        )
