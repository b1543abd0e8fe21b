-- ===== src/Csrf/Binding.antt =====
-- A token is bound to its session.
use central_auth.Common.{
  ℕ, suc, ◌+◌, ◌*◌, ◌≤◌, ◌≡◌, ◌↔◌, ◌∙◌, ap, sym, refl, true, false, Option, [], ◌∷◌, ◌++◌, length,
  take, drop, ltb, arith,
}
use central_auth.Csrf.{
  Bytes, bytes_eq, byte_at, dash, encode_to_string, csrf_hmac, csrf_rand_bytes, new_token, validate,
  Request, next, csrf_middleware, is_state_changing,
}

bytes_eq→eq : (a b : Bytes) → bytes_eq a b ≡ true → a ≡ b
bytes_eq→eq [] [] h = refl
bytes_eq→eq [] (y ∷ b) h = ground (arith, h)
bytes_eq→eq (x ∷ a) [] h = ground (arith, h)
bytes_eq→eq (x ∷ a) (y ∷ b) h = ground (arith, h, bytes_eq→eq a b)

bytes_eq_refl : (a : Bytes) → bytes_eq a a ≡ true
bytes_eq_refl [] = refl
bytes_eq_refl (x ∷ a) = ground (arith, bytes_eq_refl a)

length-encode_to_string : (b : Bytes) → length (encode_to_string b) ≡ 2 * length b
length-encode_to_string [] = refl
length-encode_to_string (x ∷ b) = omega (arith, length-encode_to_string b)

-- Around the separator
byte_at-append : (a : Bytes) (x : ℕ) (b : Bytes) → byte_at (length a) (a ++ (x ∷ b)) ≡ x
byte_at-append [] x b = refl
byte_at-append (y ∷ a) x b = byte_at-append a x b

take-append : (a b : Bytes) → take (length a) (a ++ b) ≡ a
take-append [] b = refl
take-append (y ∷ a) b = ap (λ l. y ∷ l) (take-append a b)

drop-append : (a : Bytes) (x : ℕ) (b : Bytes) → drop (suc (length a)) (a ++ (x ∷ b)) ≡ b
drop-append [] x b = refl
drop-append (y ∷ a) x b = drop-append a x b

module _ (hmac : (secret message : Bytes) → Bytes) (secret : Bytes) where
  -- A token of a given random part
  token_of : (random mac : Bytes) → Bytes
  token_of random mac = random ++ (dash ∷ mac)

  length-token :
      (random mac : Bytes) → length (token_of random mac) ≡ length random + 1 + length mac
  unfolding token_of
  length-token [] mac = omega arith
  length-token (x ∷ random) mac = omega (arith, length-token random mac)

  validate-token :
      (session_id random mac : Bytes)
      → length random ≡ 32
      → 1 ≤ length mac
      → validate hmac secret session_id (token_of random mac)
        ≡ bytes_eq mac (csrf_hmac hmac secret (session_id ++ random))
  unfolding validate token_of
  validate-token session_id random mac h some_mac =
      let token = token_of random mac in
      let at_dash : (byte_at 32 token ≡ dash) =
        ap (λ n. byte_at n token) (sym h) ∙ byte_at-append random dash mac in
      let front : (take 32 token ≡ random) =
        ap (λ n. take n token) (sym h) ∙ take-append random (dash ∷ mac) in
      let back : (drop 33 token ≡ mac) =
        ap (λ n. drop (suc n) token) (sym h) ∙ drop-append random dash mac in
      let long : (ltb (length token) 34 ≡ false) =
        ground (arith, length-token random mac, h, some_mac) in
      ground (arith, at_dash, long)
      ∙ ap (λ m. bytes_eq m (csrf_hmac hmac secret (session_id ++ take 32 token))) back
      ∙ ap (λ t. bytes_eq mac (csrf_hmac hmac secret (session_id ++ t))) front

  -- A token that `NewCSRFToken` makes for session `a` from sixteen random bytes is valid in session
  -- `b` exactly if the two HMACs, of each session id with the token's random part, agree as
  -- hexadecimal text: it is always valid in its own session, and in
  -- another only by a collision. The HMAC is not empty.
  pub validate-new_token :
      (a b random : Bytes)
      → length random ≡ csrf_rand_bytes
      → ((message : Bytes) → 1 ≤ length (hmac secret message))
      → (validate hmac secret b (new_token hmac secret a random) ≡ true) ↔ (
          csrf_hmac hmac secret (a ++ encode_to_string random)
          ≡ csrf_hmac hmac secret (b ++ encode_to_string random))
  unfolding new_token token_of
  validate-new_token a b random h nonempty =
      let part = encode_to_string random in
      let mac = csrf_hmac hmac secret (a ++ part) in
      let checked =
        validate-token b part mac (omega (arith, length-encode_to_string random, h)) (
          omega (arith, length-encode_to_string (hmac secret (a ++ part)), nonempty (a ++ part))) in
      (
        (λ valid. bytes_eq→eq mac (csrf_hmac hmac secret (b ++ part)) (sym checked ∙ valid)),
        (λ same. checked ∙ ap (bytes_eq mac) (sym same) ∙ bytes_eq_refl mac),
      )

  -- The handler runs only after the check: where the method changes state, the header is not
  -- empty, it equals the cookie, and its token is valid for the session of the request.
  pub csrf-Next :
      (r : Request) (random : Option Bytes) (cookie : Bytes)
      → csrf_middleware hmac secret r random ≡ next cookie
      → is_state_changing r.method ≡ true
      → (bytes_eq r.header [] ≡ false)
        × (r.header ≡ r.cookie)
        × (validate hmac secret r.session_id r.header ≡ true)
  unfolding csrf_middleware
  csrf-Next r random cookie h changing = ground (arith, h, changing, bytes_eq→eq r.header r.cookie)
