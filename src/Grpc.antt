-- ===== src/Grpc.antt =====
-- internal/grpc: the status codes, and the check of the service key. Go's status error is its code;
-- the messages are left out.
pub mod Server
pub mod Idempotency
pub mod Envelope
use central_auth.Common.{
  ℕ, String, Bool, true, false, ◌||◌, Option, none, some, List, [], ◌∷◌, ◌==◌, if◌then◌else◌,
  str_eq,
}
use central_auth.Common.Eff.{Eff}

-- `codes.OK` and the codes that the program answers
abbrev pub ok_code : ℕ
ok_code = 0

abbrev pub invalid_argument : ℕ
invalid_argument = 3

abbrev pub already_exists : ℕ
already_exists = 6

abbrev pub internal : ℕ
internal = 13

abbrev pub unauthenticated : ℕ
unauthenticated = 16

-- What a handler returns: a response, or a status error by its code.
pub data Answer (A : Type 0) : Type 0 where
  response : A → Answer A
  failed : ℕ → Answer A

-- `st.Code()` of `status.FromError`
abbrev pub code_of : {A : Type 0} → Answer A → ℕ
code_of (response a) = ok_code
code_of (failed code) = code

-- `md.Get`: the values of a metadata key; `none` for a context without metadata
abbrev check_key : (expected : String) → Option (List String) → Bool
check_key expected none = false
check_key expected (some []) = false
check_key expected (some (v ∷ vs)) = str_eq v expected

-- `ServiceAuth`
unfoldable pub service_auth :
    {W A : Type 0}
    → (expected_key : String) → (service_keys : Option (List String)) → (handler : Eff W (Answer A))
    → Eff W (Answer A)
service_auth expected_key service_keys handler w =
    if check_key expected_key service_keys then handler w else (failed unauthenticated, w)
