-- ===== src/Csrf.antt =====
-- internal/http/middleware/csrf.go: the tokens of the double-submit cookie. Go's strings are lists of
-- bytes here, and HMAC-SHA256 and the random generator are parameters.
pub mod Binding
use central_auth.Common.{
  ℕ, zero, suc, ◌+◌, ◌-◌, ◌*◌, ◌/◌, ◌%◌, Bool, true, false, not, ◌||◌, ◌&&◌, Option, none, some,
  List, [], ◌∷◌, ◌++◌, length, take, drop, ltb, ◌==◌, if◌then◌else◌,
}

abbrev pub Bytes : Type 0
Bytes = List ℕ

abbrev pub bytes_eq : Bytes → Bytes → Bool
bytes_eq [] [] = true
bytes_eq [] (b ∷ bs) = false
bytes_eq (a ∷ more) [] = false
bytes_eq (a ∷ more) (b ∷ bs) = (a == b) && bytes_eq more bs

-- `csrfRandBytes`
abbrev pub csrf_rand_bytes : ℕ
csrf_rand_bytes = 16

-- '-'
abbrev pub dash : ℕ
dash = 45

-- A digit of `hex.EncodeToString`: '0' to '9', 'a' to 'f'
abbrev pub hex_digit : ℕ → ℕ
hex_digit n = if ltb n 10 then 48 + n else 87 + n

abbrev pub encode_to_string : Bytes → Bytes
encode_to_string [] = []
encode_to_string (b ∷ bs) = hex_digit (b / 16) ∷ hex_digit (b % 16) ∷ encode_to_string bs

-- `token[i]`, where `i` is in range
abbrev pub byte_at : ℕ → Bytes → ℕ
byte_at n [] = 0
byte_at zero (b ∷ bs) = b
byte_at (suc n) (b ∷ bs) = byte_at n bs

module _ (hmac : (secret message : Bytes) → Bytes) (secret : Bytes) where
  -- `csrfHMAC`
  abbrev pub csrf_hmac : Bytes → Bytes
  csrf_hmac message = encode_to_string (hmac secret message)

  -- `NewCSRFToken`, on the bytes that were read
  unfoldable pub new_token : (session_id random : Bytes) → Bytes
  new_token session_id b =
      let random = encode_to_string b in random ++ (dash ∷ csrf_hmac (session_id ++ random))

  -- `validateCSRFToken`
  unfoldable pub validate : (session_id token : Bytes) → Bool
  validate session_id token =
      if ltb (length token) 34 || not (byte_at 32 token == dash)
      then false
      else bytes_eq (drop 33 token) (csrf_hmac (session_id ++ take 32 token))

pub data Method : Type 0 where
  get head options post put delete patch : Method

-- `isStateChangingMethod`
abbrev pub is_state_changing : Method → Bool
is_state_changing post = true
is_state_changing put = true
is_state_changing delete = true
is_state_changing patch = true
is_state_changing _ = false

-- What the middleware reads of a request; an absent header or cookie is empty.
pub record Request : Type 0 where
  pub method : Method
  pub session_id : Bytes
  pub header : Bytes
  pub cookie : Bytes

pub data Outcome : Type 0 where
  forbidden internal_error : Outcome
  next : (cookie : Bytes) → Outcome

module _ (hmac : (secret message : Bytes) → Bytes) (secret : Bytes) where
  -- The cookie that is issued before the handler runs
  issue : Bytes → Option Bytes → Outcome
  issue session_id none = internal_error
  issue session_id (some b) = next (new_token hmac secret session_id b)

  abbrev pub is_mismatch : Request → Bool
  is_mismatch r = bytes_eq r.header [] || bytes_eq r.cookie [] || not (bytes_eq r.header r.cookie)

  -- `CSRFMiddleware`; `random` is what the generator returns.
  unfoldable pub csrf_middleware : Request → (random : Option Bytes) → Outcome
  unfolding issue
  csrf_middleware r random =
      if is_state_changing r.method
        && (is_mismatch r || not (validate hmac secret r.session_id r.header))
      then forbidden
      else issue r.session_id random
