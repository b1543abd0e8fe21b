-- ===== src/SessionStore/Index.antt =====
-- The index of the sessions of a user.
use central_auth.Common.{
  ℕ, suc, ◌*◌, ◌≡◌, ap, ◌∙◌, String, true, false, ◌||◌, none, some, List, arith, str_eq, inl, inr,
}
use central_auth.Common.Int.{ℤ, pos, lt_ℤ, sub_ℕ}
use central_auth.Bff.{second}
use central_auth.Failure.{ok}
use central_auth.Ports.Types.{BffSession}
use central_auth.Redis.{has}
use central_auth.SessionStore.{
  RedisStore, session_key, user_sessions_key, create, create_pipe, ttl_of, get, update, delete,
}
use central_auth.SessionStore.Keys.{StoreLaws, session_key-user_sessions_key}
use central_auth.SessionStore.Stored.{stored, create-none, update-none, get-update}
use central_auth.SessionStore.Deleted.{delete-none}
use central_auth.Redis.Members.{has-remove_same}

module _ {R : Type 0} (rs : RedisStore R) (laws : StoreLaws rs) where
  open rs use {rdb, codec, now}
  open laws use {strings, sets, quiet}

  abbrev pub members : String → R → List String
  members kratos_id r = rdb.s_members (user_sessions_key kratos_id) r

  members-create_pipe :
      (s : BffSession) (b : String) (t : ℤ) (id : String) (r : R)
      → lt_ℤ (pos 0) t ≡ true
      → has id (members s.kratos_id (create_pipe rs s b t r))
        ≡ (str_eq s.session_id id || has id (members s.kratos_id r))
  unfolding create_pipe
  members-create_pipe s b t id r positive =
      let u = user_sessions_key s.kratos_id in
      let r₁ = rdb.set (session_key s.session_id) b t r in
      ground (
        arith,
        sets.s_members-expire u u t (rdb.s_add u s.session_id r₁) positive,
        sets.s_members-s_add u s.session_id id r₁,
        sets.s_members-set u (session_key s.session_id) b t r
            (session_key-user_sessions_key s.session_id s.kratos_id),
      )

  -- A `Create` without error, with a positive time to live, adds the session to the index of its
  -- user, and keeps the others there.
  has-create :
      (s : BffSession) (id : String) (r : R)
      → lt_ℤ (pos 0) (ttl_of rs s r) ≡ true
      → (create rs s r).0 ≡ none
      → has id (members s.kratos_id (create rs s r).1)
        ≡ (str_eq s.session_id id || has id (members s.kratos_id r))
  has-create s id r positive done =
      let (b, _, end) = create-none rs laws s r done in
      let u = user_sessions_key s.kratos_id in
      ap (λ v. has id (members s.kratos_id v)) end
      ∙ members-create_pipe s b (ttl_of rs s r) id (rdb.link r).1 positive
      ∙ ap (λ ids. str_eq s.session_id id || has id ids) (quiet.s_members-link u r)

  has-delete :
      (id kratos_id b : String) (t : BffSession) (r : R)
      → stored rs laws id r ≡ some b
      → codec.decode b ≡ ok t
      → t.kratos_id ≡ kratos_id
      → (delete rs id r).0 ≡ none
      → has id (members kratos_id (delete rs id r).1) ≡ false
  has-delete id k b t r here h same done = elim (delete-none rs laws id r done) [
    | inl (absent, _) ↦ ground (arith, here, absent)
    | inr (b', t', here', h', end) ↦
        let r' = rdb.del (session_key id) (rdb.link (rdb.link r).1).1 in
        let owner : (t'.kratos_id ≡ k) = ground (arith, here, here', h, h', same) in
        ap (λ v. has id (members k v)) end
        ∙ ap (λ j. has id (members k (rdb.s_rem (user_sessions_key j) id r'))) owner
        ∙ ap (has id) (sets.s_members-s_rem (user_sessions_key k) id r')
        ∙ has-remove_same id (members k r')
  ]

  members-update :
      (s : BffSession) (k : String) (r : R)
      → (update rs s r).0 ≡ none
      → members k (update rs s r).1 ≡ members k r
  members-update s k r done =
      let (b, _, _, end) = update-none rs laws s r done in
      ap (members k) end
      ∙ sets.s_members-set (user_sessions_key k) (session_key s.session_id) b
          (sub_ℕ s.expires_at (now r)) (rdb.link r).1 (session_key-user_sessions_key s.session_id k)
      ∙ quiet.s_members-link (user_sessions_key k) r

  -- `Update` brings back a session that was deleted: of a session that was stored, a `Delete` and
  -- then an `Update` without error leave a session that `Get` returns, as long as Redis answers,
  -- and that is not in the index of its user, where the deletion of all sessions of the user would
  -- look for it.
  pub update-resurrects :
      (s t : BffSession) (b : String) (r : R)
      → stored rs laws s.session_id r ≡ some b
      → codec.decode b ≡ ok t
      → t.kratos_id ≡ s.kratos_id
      → (delete rs s.session_id r).0 ≡ none
      → (update rs s (delete rs s.session_id r).1).0 ≡ none
      → (let r' = (update rs s (delete rs s.session_id r).1).1 in
          ((rdb.link r').0 ≡ none → (get rs s.session_id r').0 ≡ ok s)
          × (has s.session_id (members s.kratos_id r') ≡ false))
  update-resurrects s t b r here h same done updated =
      let r₁ = (delete rs s.session_id r).1 in
      (
        ((get-update rs laws s r₁).1 updated).0,
        ap (has s.session_id) (members-update s s.kratos_id r₁ updated)
            ∙ has-delete s.session_id s.kratos_id b t r here h same done,
      )

  -- The index lives exactly as long as the last session that was created, also where it held an
  -- older session that lives longer: after a `Create` without error of a session that expires in a
  -- whole number of seconds, that number is the time to live of the index.
  pub ttl-create :
      (s : BffSession) (n : ℕ) (r : R)
      → sub_ℕ s.expires_at (now r) ≡ pos (suc n * second)
      → (create rs s r).0 ≡ none
      → rdb.ttl (user_sessions_key s.kratos_id) (create rs s r).1 ≡ pos (suc n)
  unfolding create_pipe
  ttl-create s n r left done =
      let (b, _, end) = create-none rs laws s r done in
      let u = user_sessions_key s.kratos_id in
      let life : (ttl_of rs s r ≡ pos (suc n * second)) = ground (arith, left) in
      ap (rdb.ttl u) (end ∙ ap (λ t. create_pipe rs s b t (rdb.link r).1) life)
      ∙ sets.ttl-expire u s.session_id n
          (rdb.set (session_key s.session_id) b (pos (suc n * second)) (rdb.link r).1)
