-- ===== src/RedisRepository/Logout.antt =====
-- What `LogoutDevice` and `LogoutAll` leave of a user's devices and tokens.
use mathlib.Core.Path.{subst}
use central_auth.Common.{
  ℕ, zero, suc, ◌≤◌, ◌≡◌, ◌≢◌, refl, sym, ap, String, true, ◌∙◌, Option, none, some, Option-cases,
  ◌⊎◌, inl, inr, List, [], ◌∷◌, length, take, drop, arith, if◌then◌else◌,
}
use central_auth.Failure.{Failure}
use central_auth.Redis.{Redis, SortedSetLaws, StringLaws, QuietLink, has}
use central_auth.Redis.Members.{has-take-drop, length-drop, either_has, run_of-cases}
use central_auth.RedisRepository.{
  devices_key, refresh_key, delete_tokens, delete_chunks, delete_devices, logout_all, chunk_size,
}
use central_auth.RedisRepository.Limit.{devices_key_ne}
use central_auth.RedisRepository.Tokens.{get-del_token}

module _ {R : Type 0} (c : Redis R) (sorted : SortedSetLaws c) (strings : StringLaws c)
    (quiet : QuietLink c) (k : String) where
  abbrev devices : R → List String
  devices r = c.z_range (devices_key k) r

  abbrev token : String → R → Option String
  token e r = c.get (refresh_key k e) r

  token-delete_tokens :
      (e : String) (ids : List String) (r : R)
      → token e (delete_tokens c k ids r) ≡ (if has e ids then none else token e r)
  unfolding delete_tokens
  token-delete_tokens e [] r = refl
  token-delete_tokens e (x ∷ ids) r =
      let r' = c.del (refresh_key k x) r in
      ground (arith, token-delete_tokens e ids r', get-del_token c sorted strings k x e r)

  devices-delete_tokens :
      (ids : List String) (r : R) → devices (delete_tokens c k ids r) ≡ devices r
  unfolding delete_tokens
  devices-delete_tokens [] r = refl
  devices-delete_tokens (x ∷ ids) r =
      devices-delete_tokens ids (c.del (refresh_key k x) r)
      ∙ sorted.z_range-del_ne (devices_key k) (refresh_key k x) r (devices_key_ne k x k)

  delete_chunks-step :
      (n fuel : ℕ) (x : String) (ids : List String) (r : R)
      → (delete_chunks c k (suc n) (suc fuel) (x ∷ ids) r).0 ≡ none
      → delete_chunks c k (suc n) (suc fuel) (x ∷ ids) r
        ≡ delete_chunks c k
            (suc n)
            fuel
            (drop (suc n) (x ∷ ids))
            (delete_tokens c k (take (suc n) (x ∷ ids)) (c.link r).1)
  unfolding delete_chunks
  delete_chunks-step n fuel x ids r done = ground (arith, done)

  -- A run of the chunks that ends without an error has deleted the tokens of all devices.
  token-delete_chunks :
      (e : String) (n fuel : ℕ) (ids : List String) (r : R)
      → length ids ≤ fuel
      → (delete_chunks c k (suc n) fuel ids r).0 ≡ none
      → token e (delete_chunks c k (suc n) fuel ids r).1 ≡ (if has e ids then none else token e r)
  unfolding delete_chunks
  token-delete_chunks e n zero [] r h done = refl
  token-delete_chunks e n zero (x ∷ ids) r h done = ground (arith, h)
  token-delete_chunks e n (suc fuel) [] r h done = refl
  token-delete_chunks e n (suc fuel) (x ∷ ids) r h done =
      let r₁ = (c.link r).1 in
      let chunk = take (suc n) (x ∷ ids) in
      let rest = drop (suc n) (x ∷ ids) in
      let r₂ = delete_tokens c k chunk r₁ in
      let step = delete_chunks-step n fuel x ids r done in
      ap (λ v. token e v.1) step
      ∙ token-delete_chunks e n fuel rest r₂ (omega (arith, h, length-drop n ids))
          (ap (λ v. v.0) (sym step) ∙ done)
      ∙ ap (λ t. if has e rest then none else t)
          (token-delete_tokens e chunk r₁
            ∙ ap (λ t. if has e chunk then none else t) (quiet.get-link (refresh_key k e) r))
      ∙ either_has (has e chunk) (has e rest) (token e r)
      ∙ ap (λ b. if b then none else token e r) (has-take-drop (suc n) e (x ∷ ids))

  devices-delete_chunks :
      (n fuel : ℕ) (ids : List String) (r : R)
      → devices (delete_chunks c k (suc n) fuel ids r).1 ≡ devices r
  unfolding delete_chunks
  devices-delete_chunks n zero ids r = refl
  devices-delete_chunks n (suc fuel) [] r = refl
  devices-delete_chunks n (suc fuel) (x ∷ ids) r =
      let r₁ = (c.link r).1 in
      let r₂ = delete_tokens c k (take (suc n) (x ∷ ids)) r₁ in
      ground (
        arith,
        devices-delete_chunks n fuel (drop (suc n) (x ∷ ids)) r₂,
        devices-delete_tokens (take (suc n) (x ∷ ids)) r₁,
        devices-delete_tokens (take (c.ran r) (take (suc n) (x ∷ ids))) r₁,
        quiet.z_range-link (devices_key k) r,
      )

  delete_devices-none :
      (f : Option Failure) (r : R)
      → (delete_devices c k f r).0 ≡ none
      → (f ≡ none) × ((delete_devices c k f r).1 ≡ c.del (devices_key k) (c.link r).1)
  unfolding delete_devices
  delete_devices-none f r done = ground (arith, done)

  -- The last deletion that returns an error has not run, or only its reply is lost.
  delete_devices-failed :
      (f : Option Failure) (r : R)
      → (delete_devices c k f r).0 ≢ none
      → (devices (delete_devices c k f r).1 ≡ devices r)
        ⊎ ((f ≡ none) × ((delete_devices c k f r).1 ≡ c.del (devices_key k) (c.link r).1))
  unfolding delete_devices
  delete_devices-failed (some e) r failed = inl refl
  delete_devices-failed none r failed =
      let r' = (c.link r).1 in
      elim (Option-cases (c.link r).0) [
        | inl up ↦ ground (arith, up, failed)
        | inr (e, down) ↦ elim (run_of-cases (c.ran r) (c.del (devices_key k)) r') [
          | inl lost ↦ inl (ground (arith, down, lost, quiet.z_range-link (devices_key k) r))
          | inr done ↦ inr (refl, ground (arith, down, done))
        ]
      ]

  -- What is left when the loop over the chunks and the last deletion return no error
  module _ (ids : List String) (r : R) where
    abbrev after_chunks : Option Failure × R
    after_chunks = delete_chunks c k chunk_size (length ids) ids r

    abbrev after_all : Option Failure × R
    after_all = delete_devices c k after_chunks.0 after_chunks.1

    -- All chunks were deleted, and the set of the devices as well.
    Complete : Type 0
    Complete =
        (after_chunks.0 ≡ none) × (after_all.1 ≡ c.del (devices_key k) (c.link after_chunks.1).1)

    token-after_all : (e : String) → Complete → has e ids ≡ true → token e after_all.1 ≡ none
    unfolding Complete
    token-after_all e (chunks_done, end) h =
        let r' = (c.link after_chunks.1).1 in
        ap (token e) end
        ∙ strings.get-del_ne (devices_key k) (refresh_key k e) r'
            (λ eq. devices_key_ne k e k (sym eq))
        ∙ quiet.get-link (refresh_key k e) after_chunks.1
        ∙ token-delete_chunks e 49 (length ids) ids r (omega arith) chunks_done
        ∙ ground (arith, h)

    devices-after_all : Complete → devices after_all.1 ≡ []
    unfolding Complete
    devices-after_all (chunks_done, end) =
        ap devices end ∙ sorted.z_range-del_same (devices_key k) (c.link after_chunks.1).1

    after_all-failed : after_all.0 ≢ none → (devices after_all.1 ≡ devices r) ⊎ Complete
    unfolding Complete
    after_all-failed failed = elim (delete_devices-failed after_chunks.0 after_chunks.1 failed) [
      | inl same ↦ inl (same ∙ devices-delete_chunks 49 (length ids) ids r)
      | inr complete ↦ inr complete
    ]

  -- Nothing is left of the devices of `r` and their tokens.
  pub record Ended (r r' : R) : Type 0 where
    pub no_devices : devices r' ≡ []
    pub no_tokens : (e : String) → has e (devices r) ≡ true → token e r' ≡ none

  logout_all-step :
      (r : R)
      → (let r₁ = (c.link r).1 in
          (logout_all c k r ≡ after_all (devices r₁) r₁)
          ⊎ (((logout_all c k r).0 ≢ none) × (devices (logout_all c k r).1 ≡ devices r)))
  unfolding logout_all
  logout_all-step r = elim (Option-cases (c.link r).0) [
    | inl up ↦ inl (ground (arith, up))
    | inr (e, down) ↦ elim (run_of-cases (c.ran r) (λ (v : R). v) (c.link r).1) [
      | inl same ↦
          inr
            (ground (arith, down), ground (arith, down, same, quiet.z_range-link (devices_key k) r))
      | inr same ↦
          inr
            (ground (arith, down), ground (arith, down, same, quiet.z_range-link (devices_key k) r))
    ]
  ]

  after_all-Ended :
      (r : R)
      → (let r₁ = (c.link r).1 in Complete (devices r₁) r₁ → Ended r (after_all (devices r₁) r₁).1)
  after_all-Ended r complete =
      let r₁ = (c.link r).1 in
      record {
        no_devices = devices-after_all (devices r₁) r₁ complete;
        no_tokens = λ e h.
            token-after_all (devices r₁) r₁ e complete
              (ap (has e) (quiet.z_range-link (devices_key k) r) ∙ h);
      }

  -- By what Redis documents, a `LogoutAll` that returns no error, with any number of devices, has
  -- deleted the token of each device of the user, and the set of the devices. When it returns an
  -- error, either the set of the devices is as it was, so that a second try finds them all, whichever
  -- of the deletions the server has run; or the server has run them all and only the last reply is
  -- lost, and then the tokens and the set are deleted as well.
  pub logout_all-ends :
      (r : R)
      → ((logout_all c k r).0 ≡ none → Ended r (logout_all c k r).1)
        × ((logout_all c k r).0 ≢ none
            → (devices (logout_all c k r).1 ≡ devices r) ⊎ Ended r (logout_all c k r).1)
  unfolding Complete
  logout_all-ends r =
      let r₁ = (c.link r).1 in
      let w = after_chunks (devices r₁) r₁ in
      elim (logout_all-step r) [
        | inr (failed, same) ↦ ((λ done. absurd (failed done)), λ still. inl same)
        | inl listed ↦ (
          (λ done.
              subst (λ v. Ended r v.1) (sym listed)
                (after_all-Ended r
                  (delete_devices-none w.0 w.1 (ap (λ v. v.0) (sym listed) ∙ done)))),
          (λ failed.
              elim (after_all-failed (devices r₁) r₁
                (λ done. failed (ap (λ v. v.0) listed ∙ done))) [
                  | inl same ↦
                      inl
                        (ap (λ v. devices v.1) listed ∙ same ∙ quiet.z_range-link (devices_key k) r)
                  | inr complete ↦
                      inr (subst (λ v. Ended r v.1) (sym listed) (after_all-Ended r complete))
                ]),
        )
      ]
