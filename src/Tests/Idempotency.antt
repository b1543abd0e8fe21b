-- ===== src/Tests/Idempotency.antt =====
-- The idempotency cache over a map, with the code as a row of ones.
use Prim.Native.String.{◌++◌, count}
use central_auth.Common.{ℕ, zero, suc, ◌+◌, String, Option, none, some, if◌then◌else◌, str_eq}
use central_auth.Common.Eff.{Eff}
use central_auth.Failure.{ok, err, sentinel, redis_nil}
use central_auth.Grpc.{Answer, response}
use central_auth.Grpc.Idempotency.{IdempotencyCache, CodeCodec}

-- The map, and how often a handler has run.
record World : Type 0 where
  map : String → Option String
  runs : ℕ

abbrev cache : IdempotencyCache World
cache = record {
  get = λ k w. (elim (w.map k) [ none ↦ err (sentinel redis_nil) | some v ↦ ok v ], w);
  set = λ k v t w. (none, record w { map = λ j. if str_eq k j then some v else w.map j });
}

abbrev ones : ℕ → String
ones zero = ""
ones (suc n) = let rest = ones n in "1" ++ rest

abbrev codec : CodeCodec
codec = record { encode = λ n. some (ones n); decode = λ s. some (count s) }

abbrev signup : String
signup = "/auth.v1.AuthService/Signup"

abbrev creates : Eff World (Answer ℕ)
creates w = (response w.runs, record w { runs = w.runs + 1 })

abbrev empty : World
empty = record { map = λ k. none; runs = 0 }
