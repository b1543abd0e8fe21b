-- ===== src/SessionStore/Deleted.antt =====
-- What a `Delete` and a `DeleteAllForUser` leave.
use central_auth.Common.{
  ◌≡◌, refl, sym, ap, ◌∙◌, String, none, some, List, [], ◌∷◌, arith, eq_iff, inl, inr, ◌⊎◌,
  Option-cases, if◌then◌else◌,
}
use central_auth.Failure.{Result, ok, err, sentinel, is, Result-cases, session_not_found}
use central_auth.Ports.Types.{BffSession}
use central_auth.Redis.{has, reply}
use central_auth.SessionStore.{
  RedisStore, session_key, user_sessions_key, get, delete, delete_found, delete_keys, delete_listed,
  delete_all_for_user,
}
use central_auth.SessionStore.Keys.{StoreLaws, session_key-user_sessions_key}
use central_auth.SessionStore.Stored.{stored, stored-del, stored-link, stored-s_rem, get-stored}

module _ {R : Type 0} (rs : RedisStore R) (laws : StoreLaws rs) where
  open rs use {rdb, codec, now}
  open laws use {strings, sets, quiet}

  -- A deletion without error met no session, or a session that it took out of the index as well.
  pub delete-none :
      (id : String) (r : R)
      → (delete rs id r).0 ≡ none
      → ((stored rs laws id r ≡ none) × ((delete rs id r).1 ≡ (rdb.link r).1))
        ⊎ ((b : String) × (s : BffSession) × (stored rs laws id r ≡ some b)
            × (codec.decode b ≡ ok s)
            × ((delete rs id r).1
                ≡ rdb.s_rem
                    (user_sessions_key s.kratos_id)
                    id
                    (rdb.del (session_key id) (rdb.link (rdb.link r).1).1)))
  unfolding delete delete_found get stored is
  delete-none id r done =
      let r₁ = (rdb.link r).1 in
      let same = quiet.get-link (session_key id) r in
      elim (Option-cases (rdb.link r).0) [
        | inr (e, down) ↦ ground (arith, down, done, laws.link_err r e down)
        | inl up ↦ elim (Option-cases (rdb.get (session_key id) r₁)) [
          | inl absent ↦ inl (sym same ∙ absent, ground (arith, up, absent))
          | inr (b, here) ↦ elim (Result-cases (codec.decode b)) [
            | inl (s, h) ↦ inr (b, s, sym same ∙ here, h, ground (arith, up, here, h, done))
            | inr (e, h) ↦ ground (arith, up, here, h, done, laws.decode_err b e h)
          ]
        ]
      ]

  stored-delete_same :
      (id : String) (r : R)
      → (delete rs id r).0 ≡ none
      → stored rs laws id (delete rs id r).1 ≡ none
  stored-delete_same id r done = elim (delete-none id r done) [
    | inl (absent, end) ↦ ap (stored rs laws id) end ∙ stored-link rs laws id r ∙ absent
    | inr (b, s, here, h, end) ↦
        let r₁ = (rdb.link (rdb.link r).1).1 in
        ap (stored rs laws id) end
        ∙ stored-s_rem rs laws (user_sessions_key s.kratos_id) id id (rdb.del (session_key id) r₁)
        ∙ stored-del rs laws id id r₁
        ∙ ground (arith, eq_iff id id)
  ]

  -- A `Delete` that returns no error, also of a session that is not there, leaves nothing: `Get`
  -- returns `ErrNotFound`, as long as Redis answers.
  pub get-delete :
      (id : String) (r : R)
      → (delete rs id r).0 ≡ none
      → (rdb.link (delete rs id r).1).0 ≡ none
      → (get rs id (delete rs id r).1).0 ≡ err (sentinel session_not_found)
  get-delete id r done up =
      ground (arith, get-stored rs laws id (delete rs id r).1 up, stored-delete_same id r done)

  stored-delete_keys :
      (ids : List String) (j : String) (r : R)
      → stored rs laws j (delete_keys rs ids r) ≡ (if has j ids then none else stored rs laws j r)
  unfolding delete_keys
  stored-delete_keys [] j r = refl
  stored-delete_keys (id ∷ ids) j r =
      let r' = rdb.del (session_key id) r in
      ground (arith, stored-delete_keys ids j r', stored-del rs laws id j r)

  stored-user_del :
      (k j : String) (r : R)
      → stored rs laws j (rdb.del (user_sessions_key k) r) ≡ stored rs laws j r
  unfolding stored
  stored-user_del k j r =
      strings.get-del_ne (user_sessions_key k) (session_key j) r
        (λ eq. session_key-user_sessions_key j k (sym eq))

  -- What a deletion of listed sessions leaves
  Emptied : (kratos_id : String) (ids : List String) (before after : R) → Type 0
  Emptied k ids r r' =
      (rdb.s_members (user_sessions_key k) r' ≡ [])
      × ((j : String) → stored rs laws j r' ≡ (if has j ids then none else stored rs laws j r))

  delete_listed-Emptied :
      (k : String) (found ids : List String) (r : R)
      → rdb.s_members (user_sessions_key k) r ≡ found
      → (delete_listed rs k (ok found) r).0 ≡ ok ids
      → (ids ≡ found) × Emptied k found r (delete_listed rs k (ok found) r).1
  unfolding delete_listed Emptied
  delete_listed-Emptied k [] ids r same done = (ground (arith, done), (same, λ j. refl))
  delete_listed-Emptied k (id ∷ found) ids r same done =
      let r₁ = (rdb.link r).1 in
      let r₂ = delete_keys rs (id ∷ found) r₁ in
      (
        ground (arith, done),
        (
          ground (arith, done, sets.s_members-del_same (user_sessions_key k) r₂),
          (λ j. ground (
            arith,
            done,
            stored-user_del k j r₂,
            stored-delete_keys (id ∷ found) j r₁,
            stored-link rs laws j r,
          )),
        ),
      )

  after_list : String → Result (List String) × R → Result (List String) × R
  after_list k (ids, r) = delete_listed rs k ids r

  delete_all-listed :
      (k : String) (ids : List String) (r : R)
      → (delete_all_for_user rs k r).0 ≡ ok ids
      → delete_all_for_user rs k r
        ≡ delete_listed rs k
            (ok (rdb.s_members (user_sessions_key k) (rdb.link r).1))
            (rdb.link r).1
  unfolding delete_all_for_user delete_listed after_list
  delete_all-listed k ids r done = elim (Option-cases (rdb.link r).0) [
    | inl up ↦
        ap
          (λ e. after_list k (
            reply rdb (rdb.ran r) (λ v. (rdb.s_members (user_sessions_key k) v, v)) e
              (rdb.link r).1))
          up
    | inr (e, down) ↦ ground (arith, down, done)
  ]

  -- `DeleteAllForUser` that returns a list of sessions returns the whole index of the user, which is
  -- empty afterwards; the sessions of the list are gone, and the stored values of all others are as
  -- before.
  pub delete_all-empties :
      (k : String) (ids : List String) (r : R)
      → (delete_all_for_user rs k r).0 ≡ ok ids
      → (let r' = (delete_all_for_user rs k r).1 in
          (ids ≡ rdb.s_members (user_sessions_key k) r)
          × (rdb.s_members (user_sessions_key k) r' ≡ [])
          × ((j : String) → stored rs laws j r' ≡ (if has j ids then none else stored rs laws j r)))
  unfolding Emptied
  delete_all-empties k ids r done =
      let r₁ = (rdb.link r).1 in
      let found = rdb.s_members (user_sessions_key k) r₁ in
      let listed = delete_all-listed k ids r done in
      let (all, (none_left, gone)) =
        delete_listed-Emptied k found ids r₁ refl (ap (λ v. v.0) (sym listed) ∙ done) in
      (
        all ∙ quiet.s_members-link (user_sessions_key k) r,
        ap (λ v. rdb.s_members (user_sessions_key k) v.1) listed ∙ none_left,
        (λ j.
            ap (λ v. stored rs laws j v.1) listed
            ∙ gone j
            ∙ ap (λ o. if has j found then none else o) (stored-link rs laws j r)
            ∙ ap (λ f. if has j f then none else stored rs laws j r) (sym all)),
      )
