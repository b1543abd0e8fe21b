-- ===== src/Tests/Limit.antt =====
-- The rate limiters on a few requests.
use Prim.Native.Nat.{min}
use central_auth.Common.{ℕ, ◌≡◌, refl, List, [], ◌∷◌, arith}
use central_auth.Limit.Window.Quota.{Request, granted, granted-fresh}
use central_auth.Limit.Window.Sweep.{Event, request, tick, live}
use central_auth.Common.Assoc.{lookup}

abbrev requests : List Request
requests = (5, "a") ∷ (6, "b") ∷ (7, "a") ∷ []

granted-fresh_example : granted 2 "a" ((5, "a") ∷ requests) [] ≡ min 3 2
unfolding lookup live
granted-fresh_example =
    granted-fresh 2 5 "a" requests [] (omega arith) refl
      ((omega arith, omega arith), ((omega arith, omega arith), ((omega arith, omega arith), tt)))

abbrev events : List (ℕ × Event)
events =
    (5, request "a")
    ∷ (60_000_000_006, tick)
    ∷ (60_000_000_007, request "a")
    ∷ (190_000_000_000, tick)
    ∷ (190_000_000_001, request "a")
    ∷ []

abbrev times : List ℕ
times = 100 ∷ 200 ∷ 300 ∷ []
