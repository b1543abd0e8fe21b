-- ===== src/SessionStore/Stored.antt =====
-- What the session store keeps under the key of a session.
use central_auth.Common.{
  ◌≡◌, ap, ◌∙◌, String, true, false, Option, none, some, arith, str_eq, eq_iff, Bool-cases, inl,
  inr, if◌then◌else◌,
}
use central_auth.Common.Int.{ℤ, pos, lt_ℤ, sub_ℕ}
use central_auth.Failure.{ok, sentinel, Result-cases, session_not_found}
use central_auth.Ports.Types.{BffSession}
use central_auth.SessionStore.{
  RedisStore, session_key, user_sessions_key, create, create_pipe, ttl_of, get, update, get_reply,
}
use central_auth.SessionStore.Keys.{StoreLaws, session_key_ne}

module _ {R : Type 0} (rs : RedisStore R) (laws : StoreLaws rs) where
  open rs use {rdb, codec, now}
  open laws use {strings, sets, quiet}

  unfoldable pub stored : String → R → Option String
  stored id r = rdb.get (session_key id) r

  pub stored-set :
      (i j b : String) (t : ℤ) (r : R)
      → lt_ℤ (pos 0) t ≡ true
      → stored j (rdb.set (session_key i) b t r) ≡ (if str_eq i j then some b else stored j r)
  unfolding stored
  stored-set i j b t r positive = elim (Bool-cases (str_eq i j)) [
    | inl h ↦ ground (arith, h, strings.get-set_same (session_key i) b t r positive, eq_iff i j)
    | inr h ↦
        ground (
          arith,
          h,
          strings.get-set_ne (session_key i) (session_key j) b t r (session_key_ne i j h),
        )
  ]

  pub stored-del :
      (i j : String) (r : R)
      → stored j (rdb.del (session_key i) r) ≡ (if str_eq i j then none else stored j r)
  unfolding stored
  stored-del i j r = elim (Bool-cases (str_eq i j)) [
    | inl h ↦ ground (arith, h, strings.get-del_same (session_key i) r, eq_iff i j)
    | inr h ↦
        ground
          (arith, h, strings.get-del_ne (session_key i) (session_key j) r (session_key_ne i j h))
  ]

  stored-create_pipe :
      (s : BffSession) (j b : String) (t : ℤ) (r : R)
      → lt_ℤ (pos 0) t ≡ true
      → stored j (create_pipe rs s b t r) ≡ (if str_eq s.session_id j then some b else stored j r)
  unfolding create_pipe stored
  stored-create_pipe s j b t r positive =
      let u = user_sessions_key s.kratos_id in
      let r₁ = rdb.set (session_key s.session_id) b t r in
      let r₂ = rdb.s_add u s.session_id r₁ in
      strings.get-expire u (session_key j) t r₂ positive
      ∙ strings.get-s_add u (session_key j) s.session_id r₁
      ∙ stored-set s.session_id j b t r positive

  -- `Get` on a server that answers
  pub get-stored :
      (id : String) (r : R)
      → (rdb.link r).0 ≡ none
      → (get rs id r).0 ≡ get_reply rs (ok (stored id r))
  unfolding get stored
  get-stored id r up = ground (arith, up, quiet.get-link (session_key id) r)

  -- A stored text that a session was encoded to reads back as that session.
  pub get-encoded :
      (s : BffSession) (b : String) (r : R)
      → codec.encode s ≡ ok b
      → stored s.session_id r ≡ some b
      → (rdb.link r).0 ≡ none
      → (get rs s.session_id r).0 ≡ ok s
  get-encoded s b r h here up =
      ground (arith, get-stored s.session_id r up, here, laws.decode-encode s b h)

  -- A `Create` without error has run its transaction.
  pub create-none :
      (s : BffSession) (r : R)
      → (create rs s r).0 ≡ none
      → (b : String) × (codec.encode s ≡ ok b)
        × ((create rs s r).1 ≡ create_pipe rs s b (ttl_of rs s r) (rdb.link r).1)
  unfolding create
  create-none s r done = elim (Result-cases (codec.encode s)) [
    | inl (b, h) ↦ (b, h, ground (arith, h, done))
    | inr (e, h) ↦ ground (arith, h, done)
  ]

  -- And so has an `Update`, of a session that has not expired.
  pub update-none :
      (s : BffSession) (r : R)
      → (update rs s r).0 ≡ none
      → (b : String) × (codec.encode s ≡ ok b)
        × (lt_ℤ (pos 0) (sub_ℕ s.expires_at (now r)) ≡ true)
        × ((update rs s r).1
            ≡ rdb.set (session_key s.session_id) b (sub_ℕ s.expires_at (now r)) (rdb.link r).1)
  unfolding update
  update-none s r done = elim (Result-cases (codec.encode s)) [
    | inl (b, h) ↦ (b, h, ground (arith, h, done), ground (arith, h, done))
    | inr (e, h) ↦ ground (arith, h, done)
  ]

  pub stored-s_rem : (k m j : String) (r : R) → stored j (rdb.s_rem k m r) ≡ stored j r
  unfolding stored
  stored-s_rem k m j r = strings.get-s_rem k (session_key j) m r

  pub stored-link : (j : String) (r : R) → stored j (rdb.link r).1 ≡ stored j r
  unfolding stored
  stored-link j r = quiet.get-link (session_key j) r

  stored-create :
      (s : BffSession) (j : String) (r : R)
      → lt_ℤ (pos 0) (ttl_of rs s r) ≡ true
      → (done : (create rs s r).0 ≡ none)
      → stored j (create rs s r).1
        ≡ (if str_eq s.session_id j then some (create-none s r done).0 else stored j r)
  stored-create s j r positive done =
      let (b, _, end) = create-none s r done in
      ap (stored j) end
      ∙ stored-create_pipe s j b (ttl_of rs s r) (rdb.link r).1 positive
      ∙ ap (λ o. if str_eq s.session_id j then some b else o) (stored-link j r)

  pub stored-update :
      (s : BffSession) (j : String) (r : R)
      → (done : (update rs s r).0 ≡ none)
      → stored j (update rs s r).1
        ≡ (if str_eq s.session_id j then some (update-none s r done).0 else stored j r)
  stored-update s j r done =
      let (b, _, future, end) = update-none s r done in
      ap (stored j) end
      ∙ stored-set s.session_id j b (sub_ℕ s.expires_at (now r)) (rdb.link r).1 future
      ∙ ap (λ o. if str_eq s.session_id j then some b else o) (stored-link j r)

  -- A session reads back: after a `Create` without error, whose time to live is positive, `Get`
  -- returns the same session, as long as Redis answers, and the stored values of all other
  -- sessions are as before.
  pub get-create :
      (s : BffSession) (r : R)
      → lt_ℤ (pos 0) (ttl_of rs s r) ≡ true
      → (create rs s r).0 ≡ none
      → (let r' = (create rs s r).1 in
          ((rdb.link r').0 ≡ none → (get rs s.session_id r').0 ≡ ok s)
          × ((j : String) → str_eq s.session_id j ≡ false → stored j r' ≡ stored j r))
  get-create s r positive done =
      let r' = (create rs s r).1 in
      let (b, h, _) = create-none s r done in
      (
        get-encoded s b r' h (
            ground (
              arith,
              stored-create s s.session_id r positive done,
              eq_iff s.session_id s.session_id,
            )),
        (λ j ne. ground (arith, stored-create s j r positive done, ne)),
      )

  -- `Update` of a session that has expired, and that JSON can encode, returns `ErrNotFound` and
  -- writes nothing. An `Update` without error reads back, as long as Redis answers, and leaves the
  -- stored values of all other sessions.
  pub get-update :
      (s : BffSession) (r : R)
      → ((lt_ℤ (pos 0) (sub_ℕ s.expires_at (now r)) ≡ false)
          → (b : String) → codec.encode s ≡ ok b
          → update rs s r ≡ (some (sentinel session_not_found), r))
        × ((update rs s r).0 ≡ none
            → (let r' = (update rs s r).1 in
                ((rdb.link r').0 ≡ none → (get rs s.session_id r').0 ≡ ok s)
                × ((j : String) → str_eq s.session_id j ≡ false → stored j r' ≡ stored j r)))
  get-update s r = (
    (λ expired b h. unfold update in ground (arith, expired, h)),
    (λ done.
        let r' = (update rs s r).1 in
        let (b, h, _, _) = update-none s r done in
        (
          get-encoded s b r' h (
              ground
                (arith, stored-update s s.session_id r done, eq_iff s.session_id s.session_id)),
          (λ j ne. ground (arith, stored-update s j r done, ne)),
        )),
  )
