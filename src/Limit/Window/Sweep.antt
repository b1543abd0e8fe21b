-- ===== src/Limit/Window/Sweep.antt =====
-- The sweep of stale buckets bounds the memory and changes no decision.
use mathlib.Core.Path.{ap₂}
use central_auth.Common.{
  ℕ, ◌-◌, ◌≤◌, String, ◌≡◌, refl, sym, ap, ◌∙◌, Bool, Option, none, some, List, [], ◌∷◌, leb,
  if◌then◌else◌, arith, eq_iff,
}
use central_auth.Common.Assoc.{Assoc, lookup, lookup-insert, lookup-erase}
use central_auth.Limit.Window.{Slot, window, bump, current, allow, evict}

-- What a request at `now` can tell of a bucket: one whose window is over is as good as none.
unfoldable pub live : ℕ → Option Slot → Option Slot
live now none = none
live now (some b) = if leb window (now - b.window_start) then none else some b

live-live : (now later : ℕ) (o : Option Slot) → now ≤ later → live later (live now o) ≡ live later o
unfolding live
live-live now later o h = ground arith

current-live : (now : ℕ) (o : Option Slot) → current now (live now o) ≡ current now o
unfolding live current
current-live now o = ground arith

-- Two tables that no request from `now` on can tell apart.
abbrev pub Agree : ℕ → Assoc Slot → Assoc Slot → Type 0
Agree now m m' = (ip : String) → live now (lookup ip m) ≡ live now (lookup ip m')

Agree-evict : (now : ℕ) (m : Assoc Slot) → Agree now (evict now m) m
unfolding evict lookup live
Agree-evict now [] ip = refl
Agree-evict now ((j, b) ∷ m) ip =
    ground (arith, Agree-evict now m ip, lookup-erase j ip (evict now m), eq_iff j ip)

Agree-mono : (now later : ℕ) (m m' : Assoc Slot) → now ≤ later → Agree now m m' → Agree later m m'
Agree-mono now later m m' h a ip =
    sym (live-live now later (lookup ip m) h)
    ∙ ap (live later) (a ip)
    ∙ live-live now later (lookup ip m') h

current-Agree :
    (now : ℕ) (m m' : Assoc Slot) (ip : String)
    → Agree now m m'
    → current now (lookup ip m) ≡ current now (lookup ip m')
current-Agree now m m' ip a =
    sym (current-live now (lookup ip m)) ∙ ap (current now) (a ip) ∙ current-live now (lookup ip m')

-- Tables that agree give the same answer, and agree afterwards.
allow-Agree :
    (limit : ℕ) (ip : String) (now : ℕ) (m m' : Assoc Slot)
    → Agree now m m'
    → ((allow limit ip now m).1 ≡ (allow limit ip now m').1)
      × Agree now (allow limit ip now m).0 (allow limit ip now m').0
allow-Agree limit ip now m m' a = (
  unfold allow in ground (arith, current-Agree now m m' ip a),
  λ j.
      unfold allow in
      ground (
        arith,
        current-Agree now m m' ip a,
        a j,
        lookup-insert ip j (bump (current now (lookup ip m))) m,
        lookup-insert ip j (bump (current now (lookup ip m'))) m',
      ),
)

-- A request from an address, or a tick of the sweep, at a time.
pub data Event : Type 0 where
  request : String → Event
  tick : Event

-- The answers to the requests of a history.
unfoldable pub answers : ℕ → List (ℕ × Event) → Assoc Slot → List Bool
answers limit [] m = []
answers limit ((now, request ip) ∷ es) m =
    let (m', ok) = allow limit ip now m in ok ∷ answers limit es m'
answers limit ((now, tick) ∷ es) m = answers limit es (evict now m)

abbrev pub without_ticks : List (ℕ × Event) → List (ℕ × Event)
without_ticks [] = []
without_ticks ((now, request ip) ∷ es) = (now, request ip) ∷ without_ticks es
without_ticks ((now, tick) ∷ es) = without_ticks es

-- The times do not fall, and none is before `start`.
abbrev pub Ordered : ℕ → List (ℕ × Event) → Type 0
Ordered start [] = Unit
Ordered start ((now, e) ∷ es) = (start ≤ now) × Ordered now es

answers-Agree :
    (limit start : ℕ) (es : List (ℕ × Event)) (m m' : Assoc Slot)
    → Ordered start es
    → Agree start m m'
    → answers limit es m ≡ answers limit (without_ticks es) m'
unfolding answers
answers-Agree limit start [] m m' o a = refl
answers-Agree limit start ((now, request ip) ∷ es) m m' o a =
    let same = allow-Agree limit ip now m m' (Agree-mono start now m m' o.0 a) in
    ap₂ ◌∷◌ same.0
      (answers-Agree limit now es (allow limit ip now m).0 (allow limit ip now m').0 o.1 same.1)
answers-Agree limit start ((now, tick) ∷ es) m m' o a =
    answers-Agree limit now es (evict now m) m' o.1
      (λ ip. Agree-evict now m ip ∙ Agree-mono start now m m' o.0 a ip)

-- The sweeps change no answer: over a history whose times do not fall, the limiter answers every
-- request as it would if no bucket were ever evicted.
pub answers-without_ticks :
    (limit start : ℕ) (es : List (ℕ × Event)) (m : Assoc Slot)
    → Ordered start es
    → answers limit es m ≡ answers limit (without_ticks es) m
answers-without_ticks limit start es m o = answers-Agree limit start es m m o (λ ip. refl)
