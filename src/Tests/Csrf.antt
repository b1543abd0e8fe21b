-- ===== src/Tests/Csrf.antt =====
-- The tokens with a stand-in for the HMAC: the sum of the bytes, of which one byte is kept.
use central_auth.Common.{◌≡◌, ◌↔◌, refl, ◌+◌, ◌%◌, ℕ, true, [], ◌∷◌, arith}
use central_auth.Csrf.{Bytes, encode_to_string, csrf_hmac, new_token, validate, Request, post}
use central_auth.Csrf.Binding.{validate-new_token}

abbrev sum : Bytes → ℕ
sum [] = 0
sum (b ∷ bs) = b + sum bs

abbrev hmac : (secret message : Bytes) → Bytes
hmac secret message = ((sum secret + sum message) % 256) ∷ []

abbrev random : Bytes
random = 1 ∷ 2 ∷ 3 ∷ 4 ∷ 5 ∷ 6 ∷ 7 ∷ 8 ∷ 9 ∷ 10 ∷ 11 ∷ 12 ∷ 13 ∷ 14 ∷ 15 ∷ 200 ∷ []

abbrev secret : Bytes
secret = 42 ∷ 7 ∷ []

validate-new_token_example :
    (validate hmac secret (66 ∷ []) (new_token hmac secret (65 ∷ []) random) ≡ true) ↔ (
      csrf_hmac hmac secret (65 ∷ encode_to_string random)
      ≡ csrf_hmac hmac secret (66 ∷ encode_to_string random))
validate-new_token_example =
    validate-new_token hmac secret (65 ∷ []) (66 ∷ []) random refl (λ message. omega arith)

abbrev token : Bytes
unfolding new_token
token = new_token hmac secret (65 ∷ []) random

abbrev request : Request
request = record { method = post; session_id = 65 ∷ []; header = token; cookie = token }
