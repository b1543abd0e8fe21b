-- ===== src/Grpc/Envelope.antt =====
-- The interceptors around every handler: recovery.go and request_id.go of internal/grpc/interceptor,
-- with internal/requestid/requestid.go. The request id is the one value of the context.
use central_auth.Common.{
  ◌≡◌, refl, String, false, Option, none, some, List, [], ◌∷◌, arith, if◌then◌else◌, str_eq,
  Bool-cases, inl, inr,
}
use central_auth.Common.Eff.{Eff}
use central_auth.Grpc.{Answer, failed, internal}

-- A handler that may panic, which is `none`
abbrev pub Handler : Type 0 → Type 0 → Type 0
Handler W A = Eff W (Option (Answer A))

abbrev pub recovered : {A : Type 0} → Option (Answer A) → Answer A
recovered none = failed internal
recovered (some a) = a

-- `Recovery`
unfoldable pub recovery : {W A : Type 0} → Handler W A → Eff W (Answer A)
recovery handler w = let (a, w') = handler w in (recovered a, w')

-- The value that a context carries under the key of the request id, where it does
abbrev pub Context : Type 0
Context = Option String

-- `WithRequestID`
abbrev pub with_request_id : Context → String → Context
with_request_id ctx id = some id

-- `FromContext`
abbrev pub from_context : Context → String
from_context none = ""
from_context (some id) = id

-- `md.Get("x-request-id")`: `none` for a context without metadata
abbrev pub first_value : Option (List String) → String
first_value none = ""
first_value (some []) = ""
first_value (some (v ∷ vs)) = v

module _ {W A : Type 0} (new_request_id : Eff W String) where
  -- `RequestID`
  unfoldable pub request_id :
      Option (List String) → Context → (handler : Context → Handler W A) → Handler W A
  request_id values ctx handler w =
      let rid = first_value values in
      if str_eq rid ""
      then (let (fresh, w') = new_request_id w in handler (with_request_id ctx fresh) w')
      else handler (with_request_id ctx rid) w

  -- A handler behind both: it runs once, with the id of the caller where it sent one and a fresh one
  -- where it did not, and a panic of it is answered with the code for an internal error.
  pub recovery-request_id :
      (values : Option (List String)) (ctx : Context) (handler : Context → Handler W A) (w : W)
      → (id : String) × (start : W) × (recovery (request_id values ctx handler) w
          ≡ (recovered (handler (some id) start).0, (handler (some id) start).1))
        × ((str_eq (first_value values) "" ≡ false) → (id ≡ first_value values) × (start ≡ w))
  unfolding recovery request_id
  recovery-request_id values ctx handler w = elim (Bool-cases (str_eq (first_value values) "")) [
    | inl absent ↦
        let (fresh, w') = new_request_id w in
        (fresh, w', rw absent refl, λ sent. ground (arith, absent, sent))
    | inr sent ↦ (first_value values, w, rw sent refl, λ same. (refl, refl))
  ]
