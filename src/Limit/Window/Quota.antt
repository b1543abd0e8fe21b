-- ===== src/Limit/Window/Quota.antt =====
-- What one address gets in one window, whatever the other addresses do.
use Prim.Native.Nat.{min}
use central_auth.Common.{
  ◌∙◌, Bool-cases, inl, inr, ℕ, ◌+◌, ◌-◌, ◌≤◌, ◌<◌, String, ◌≡◌, true, false, none, some, List, [],
  ◌∷◌, leb, if◌then◌else◌, arith, str_eq, eq_iff, All, ◌&&◌,
}
use central_auth.Common.Assoc.{Assoc, lookup, lookup-insert}
use central_auth.Limit.Window.{Slot, window, bump, current, allow}
use central_auth.Limit.Window.Sweep.{live}

abbrev pub Request : Type 0
Request = ℕ × String

-- How many requests of the address a history holds, and how many of them are admitted.
abbrev pub asked : String → List Request → ℕ
asked ip [] = 0
asked ip ((now, from) ∷ rs) = let rest = asked ip rs in if str_eq from ip then rest + 1 else rest

unfoldable pub granted : ℕ → String → List Request → Assoc Slot → ℕ
granted limit ip [] m = 0
granted limit ip ((now, from) ∷ rs) m =
    let (m', ok) = allow limit from now m in
    let rest = granted limit ip rs m' in if str_eq from ip && ok then rest + 1 else rest

-- The request falls in the window that starts at `start`.
abbrev pub Within : ℕ → Request → Type 0
Within start (now, from) = (start ≤ now) × (now < start + window)

-- A request of another address leaves the bucket alone.
pub lookup-allow_ne :
    (limit now : ℕ) (from ip : String) (m : Assoc Slot)
    → str_eq from ip ≡ false
    → lookup ip (allow limit from now m).0 ≡ lookup ip m
unfolding allow
lookup-allow_ne limit now from ip m h =
    ground (arith, lookup-insert from ip (bump (current now (lookup from m))) m)

module _ (limit start count : ℕ) (ip : String) (m : Assoc Slot) (pos : 0 < limit) where
  -- A request in the running window is counted, and admitted while the count is in the limit.
  allow_running :
      (now : ℕ) (from : String)
      → str_eq from ip ≡ true
      → lookup ip m ≡ some (record { count = count; window_start = start })
      → Within start (now, from)
      → ((allow limit from now m).1 ≡ leb (count + 1) limit)
        × (lookup ip (allow limit from now m).0
            ≡ some (record { count = count + 1; window_start = start }))
  unfolding allow current
  allow_running now from e h w =
      ground (arith, eq_iff from ip, lookup-insert from ip (bump (current now (lookup from m))) m)

  -- So is the first request of a window.
  allow_fresh :
      live start (lookup ip m) ≡ none
      → ((allow limit ip start m).1 ≡ true)
        × (lookup ip (allow limit ip start m).0 ≡ some (record { count = 1; window_start = start }))
  unfolding allow current live
  allow_fresh h =
      ground (arith, eq_iff ip ip, lookup-insert ip ip (bump (current start (lookup ip m))) m)

granted_running :
    (limit start count : ℕ) (ip : String) (rs : List Request) (m : Assoc Slot)
    → 0 < limit
    → lookup ip m ≡ some (record { count = count; window_start = start })
    → All (Within start) rs
    → granted limit ip rs m ≡ min (asked ip rs) (limit - count)
unfolding granted
granted_running limit start count ip [] m p h w = omega arith
granted_running limit start count ip ((now, from) ∷ rs) m p h w =
    elim (Bool-cases (str_eq from ip)) [
      | inl e ↦
          let (admitted, found) = allow_running limit start count ip m p now from e h w.0 in
          let ih =
            granted_running limit start (count + 1) ip rs (allow limit from now m).0 p found w.1 in
          ground (arith)
      | inr e ↦
          let ih =
            granted_running limit start count ip rs (allow limit from now m).0 p
              (lookup-allow_ne limit now from ip m e ∙ h) w.1 in
          ground (arith)
    ]

-- At a positive limit, from the first request of an address in a window to the end of that window,
-- the address is granted exactly as many requests as it makes, up to the limit, whatever the
-- others ask.
pub granted-fresh :
    (limit start : ℕ) (ip : String) (rs : List Request) (m : Assoc Slot)
    → 0 < limit
    → live start (lookup ip m) ≡ none
    → All (Within start) rs
    → granted limit ip ((start, ip) ∷ rs) m ≡ min (asked ip rs + 1) limit
unfolding granted
granted-fresh limit start ip rs m p h w =
    let (admitted, found) = allow_fresh limit start 0 ip m p h in
    let rest = granted_running limit start 1 ip rs (allow limit ip start m).0 p found w in
    ground (arith, eq_iff ip ip)
