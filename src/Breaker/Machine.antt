-- ===== src/Breaker/Machine.antt =====
-- The breaker under any sequence of calls: its invariant, the transitions that it can make, and
-- that it reports each of them.
use central_auth.Common.{
  Option-cases, ℕ, ◌<◌, ◌^◌, ◌≡◌, ◌≢◌, inl, inr, refl, ap, Bool, true, false, ◌++◌, Option, some,
  List, [], ◌∷◌, arith, ◌>>=◌,
}
use central_auth.Breaker.Word.{widen, lt64}
use central_auth.Breaker.{
  Breaker, State, closed, opened, half_open, Report, changed, captured, allow, record_success,
  record_failure,
}

-- A call of one of the three methods, with what it reads of the clock and of the generator.
pub data Call : Type 0 where
  allows : (now : ℕ) → Call
  succeeds : Call
  fails : (now : ℕ) (draw : ℕ → ℕ) → Call

-- One call; `none` is a panic.
unfoldable pub step : Breaker → Call → Option (Breaker × List Report)
unfolding allow record_success record_failure
step b (allows now) = let (b', admitted, reports) = allow now b in some (b', reports)
step b succeeds = some (record_success b)
step b (fails now draw) = record_failure now draw b

pub record IsCoherent (b : Breaker) : Type 0 where
  pub threshold_pos : 0 < b.failure_threshold
  pub threshold_small : b.failure_threshold < 2 ^ 31
  pub probing : b.state ≡ half_open → b.probe_in_flight ≡ 1
  pub free_closed : b.state ≡ closed → b.probe_in_flight ≡ 0
  pub free_opened : b.state ≡ opened → b.probe_in_flight ≡ 0
  pub below : b.state ≡ closed → b.failures < b.failure_threshold

-- Every call that does not panic keeps the invariant: the probe slot is taken exactly in
-- HALF-OPEN, and a closed breaker has counted fewer failures than the threshold.
step-IsCoherent :
    (b : Breaker) (c : Call) {b' : Breaker} {reports : List Report}
    → IsCoherent b
    → step b c ≡ some (b', reports)
    → IsCoherent b'
unfolding step widen lt64
step-IsCoherent b (allows now) v e = ground arith
step-IsCoherent b succeeds v e = ground arith
step-IsCoherent b (fails now draw) v e = ground (arith)

-- From CLOSED the breaker never goes to HALF-OPEN; every other change of state occurs.
abbrev pub is_move : State → State → Bool
is_move closed half_open = false
is_move _ _ = true

abbrev pub changes : List Report → List (State × State)
changes [] = []
changes (changed from to ∷ rs) = (from, to) ∷ changes rs
changes (captured ∷ rs) = changes rs

changes-append : (xs ys : List Report) → changes (xs ++ ys) ≡ changes xs ++ changes ys
changes-append [] ys = refl
changes-append (changed from to ∷ xs) ys = ap (◌∷◌ (from, to)) (changes-append xs ys)
changes-append (captured ∷ xs) ys = changes-append xs ys

-- The changes lead from the first state to the last, each from where the one before it ended.
abbrev pub Leads : State → List (State × State) → State → Type 0
Leads s [] t = s ≡ t
Leads s ((from, to) ∷ cs) t = (s ≡ from) × (is_move from to ≡ true) × (from ≢ to) × Leads to cs t

Leads-append :
    (s t u : State) (xs ys : List (State × State))
    → Leads s xs t
    → Leads t ys u
    → Leads s (xs ++ ys) u
Leads-append s t u [] ys h k = rw h k
Leads-append s t u ((from, to) ∷ xs) ys h k = (h.0, h.1, h.2, Leads-append to t u xs ys h.3 k)

step-Leads :
    (b : Breaker) (c : Call) {b' : Breaker} {reports : List Report}
    → step b c ≡ some (b', reports)
    → Leads b.state (changes reports) b'.state
unfolding step
step-Leads b (allows now) e = ground arith
step-Leads b succeeds e = ground arith
step-Leads b (fails now draw) e = ground arith

-- A history of calls with all its reports; it ends at a panic.
unfoldable pub run : Breaker → List Call → Option (Breaker × List Report)
run b [] = some (b, [])
run b (c ∷ cs) = do (b', reports) ← step b c; (b'', later) ← run b' cs; some (b'', reports ++ later)

-- A history that does not panic is its first call and the rest.
run-cons :
    (b : Breaker) (c : Call) (cs : List Call) {b' : Breaker} {reports : List Report}
    → run b (c ∷ cs) ≡ some (b', reports)
    → (m : Breaker) × (now later : List Report) × (step b c ≡ some (m, now))
      × (run m cs ≡ some (b', later))
      × (reports ≡ now ++ later)
unfolding run
run-cons b c cs e = elim (Option-cases (step b c)) [
  | inl h ↦ cc (h)
  | inr ((m, now), h) ↦ elim (Option-cases (run m cs)) [
    | inl k ↦ ground (arith)
    | inr ((b'', later), k) ↦ (m, now, later, h, ground arith, ground arith)
  ]
]

-- After any history that does not panic, the calls of `onStateChange` lead from the first state to
-- the last, each from where the one before it ended, and none goes from CLOSED to HALF-OPEN.
pub run-Leads :
    (b : Breaker) (cs : List Call) {b' : Breaker} {reports : List Report}
    → run b cs ≡ some (b', reports)
    → Leads b.state (changes reports) b'.state
unfolding run
run-Leads b [] e = ground arith
run-Leads b (c ∷ cs) {b'} e =
    let (m, now, later, h, k, r) = run-cons b c cs e in
    rw (r, changes-append now later)
      (Leads-append b.state m.state b'.state (changes now) (changes later) (step-Leads b c h)
        (run-Leads m cs k))

-- A coherent breaker is coherent after any history of calls that does not panic: the probe slot is
-- taken exactly in HALF-OPEN, and while closed it has counted fewer failures than the threshold.
pub run-IsCoherent :
    (b : Breaker) (cs : List Call) {b' : Breaker} {reports : List Report}
    → IsCoherent b
    → run b cs ≡ some (b', reports)
    → IsCoherent b'
unfolding run
run-IsCoherent b [] v e = ground arith
run-IsCoherent b (c ∷ cs) v e =
    let (m, now, later, h, k, r) = run-cons b c cs e in
    run-IsCoherent m cs (step-IsCoherent b c v h) k
