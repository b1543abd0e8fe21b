-- ===== src/Kafka/Consumer.antt =====
-- `Run` of internal/kafka/consumer.go: the loop that fetches, processes and commits. What Kafka and the
-- context answer in each round is an argument; the lag sampler is left out.
use central_auth.Common.{
  ◌≡◌, refl, sym, ap, Bool-cases, inl, inr, ◌∙◌, ℕ, ◌*◌, ◌/◌, ◌≤◌, Bool, true, false, ◌||◌, Option,
  List, [], ◌∷◌, ◌++◌, arith, ltb, if◌then◌else◌,
}
use mathlib.Core.List.{append-nil, append_assoc}
use mathlib.Core.Path.{subst}
use central_auth.Failure.{Failure, is, canceled, eof}
use central_auth.Ports.Types.{DeviceSession}
use central_auth.Devices.{
  Table, Message, malformed, other_type, login, Write, done, refused, lost, attempt, process, save,
  row_of, or_now,
}

abbrev pub backoff_min : ℕ
backoff_min = 100_000_000

abbrev pub backoff_max : ℕ
backoff_max = 30_000_000_000

-- A round of the loop: a message, the time at which it is processed, what becomes of its write, and the
-- error of its commit, or an error of the fetch and whether the context ends during the wait.
pub data Round : Type 0 where
  fetched : Message → (now : ℕ) → Write → (commit_error : Option Failure) → Round
  failed : Failure → (ended : Bool) → Round

-- The state of the loop: the next backoff, the table that the messages are written to, the messages
-- that were given to `CommitMessages`, and the waits so far.
pub record Consumer : Type 0 where
  pub backoff : ℕ
  pub table : Table
  pub committed : List Message
  pub waits : List ℕ
  pub returned : Bool

unfoldable pub start : Table → Consumer
start t = record { backoff = backoff_min; table = t; committed = []; waits = []; returned = false }

-- `time.Duration(float64(backoff) * 1.5)`, cut off at the maximum. The product is exact in this range.
unfoldable pub next_backoff : ℕ → ℕ
next_backoff b = if ltb (b * 3 / 2) backoff_max then b * 3 / 2 else backoff_max

-- One round
unfoldable pub round : Round → Consumer → Consumer
unfolding next_backoff
round (fetched m now write commit_error) c = record c {
  backoff = backoff_min;
  table = process now m write c.table;
  committed = c.committed ++ (m ∷ []);
}
round (failed e ended) c =
    if is canceled e || is eof e
    then record c { returned = true }
    else if ended
    then record c { waits = c.waits ++ (c.backoff ∷ []); returned = true }
    else record c { waits = c.waits ++ (c.backoff ∷ []); backoff = next_backoff c.backoff }

-- `Run`, for as many rounds as are given, or until it returns
unfoldable pub run : List Round → Consumer → Consumer
unfolding round
run [] c = c
run (r ∷ rs) c = let rest = run rs (round r c) in if c.returned then c else rest

-- The messages of the rounds up to the one in which the loop returns, with the times at which they are
-- processed and what becomes of their writes
abbrev pub ends : Failure → Bool → Bool
ends e ended = (is canceled e || is eof e) || ended

unfoldable pub reached : List Round → List (ℕ × Message × Write)
reached [] = []
reached (fetched m now write commit_error ∷ rs) = (now, m, write) ∷ reached rs
reached (failed e ended ∷ rs) = let rest = reached rs in if ends e ended then [] else rest

-- The rows of the logins among them whose writes reach the table
unfoldable pub rows_of : List (ℕ × Message × Write) → List DeviceSession
rows_of [] = []
rows_of ((now, malformed, write) ∷ ms) = rows_of ms
rows_of ((now, other_type, write) ∷ ms) = rows_of ms
rows_of ((now, login e timestamp, refused f) ∷ ms) = rows_of ms
rows_of ((now, login e timestamp, done) ∷ ms) = row_of (or_now now timestamp) e ∷ rows_of ms
rows_of ((now, login e timestamp, lost f) ∷ ms) = row_of (or_now now timestamp) e ∷ rows_of ms

unfoldable pub save_all : List DeviceSession → Table → Table
save_all [] t = t
save_all (s ∷ ss) t = save_all ss (save s t)

abbrev pub messages : List (ℕ × Message × Write) → List Message
messages [] = []
messages ((now, m, write) ∷ ms) = m ∷ messages ms

-- A wait within the bounds
abbrev pub InBounds : ℕ → Type 0
InBounds b = (backoff_min ≤ b) × (b ≤ backoff_max)

abbrev pub AllInBounds : List ℕ → Type 0
AllInBounds [] = Unit {0}
AllInBounds (b ∷ bs) = InBounds b × AllInBounds bs

run-returned : (rs : List Round) (c : Consumer) → c.returned ≡ true → run rs c ≡ c
unfolding run
run-returned [] c h = refl
run-returned (r ∷ rs) c h = ground (arith, h)

run-round :
    (r : Round) (rs : List Round) (c : Consumer)
    → c.returned ≡ false
    → run (r ∷ rs) c ≡ run rs (round r c)
unfolding run
run-round r rs c h = ground (arith, h)

save_all-process :
    (now : ℕ) (m : Message) (write : Write) (ms : List (ℕ × Message × Write)) (t : Table)
    → save_all (rows_of ms) (process now m write t) ≡ save_all (rows_of ((now, m, write) ∷ ms)) t
unfolding save_all rows_of process attempt
save_all-process now malformed write ms t = refl
save_all-process now other_type write ms t = refl
save_all-process now (login e timestamp) done ms t = refl
save_all-process now (login e timestamp) (refused f) ms t = refl
save_all-process now (login e timestamp) (lost f) ms t = refl

-- Whatever Kafka and PostgreSQL answer: the table is what the rows of the logins that the loop reached
-- make of it, upserted in the order of their messages, each once, but for those whose write PostgreSQL
-- has refused, which are passed over. All messages that the loop reached are given to be committed, in
-- the same order and each once, also those that do not parse, whose write was refused, or whose commit
-- fails.
pub run-replay :
    (rs : List Round) (c : Consumer)
    → c.returned ≡ false
    → ((run rs c).table ≡ save_all (rows_of (reached rs)) c.table)
      × ((run rs c).committed ≡ c.committed ++ messages (reached rs))
unfolding run round reached rows_of save_all
run-replay [] c h = (refl, sym (append-nil c.committed))
run-replay (fetched m now write e ∷ rs) c h =
    let ih = run-replay rs (round (fetched m now write e) c) h in
    let on = run-round (fetched m now write e) rs c h in
    (
      ap (λ (d : Consumer). d.table) on ∙ ih.0 ∙ save_all-process now m write (reached rs) c.table,
      ap (λ (d : Consumer). d.committed) on
          ∙ ih.1
          ∙ append_assoc c.committed (m ∷ []) (messages (reached rs)),
    )
run-replay (failed e ended ∷ rs) c h =
    let c' = round (failed e ended) c in
    elim (Bool-cases (ends e ended)) [
      | inl last ↦
          let same = run-returned rs c' (ground (arith, last)) in
          ground (arith, h, last, same, append-nil c.committed)
      | inr more ↦
          let ih = run-replay rs c' (ground (arith, h, more)) in ground (arith, h, more, ih)
    ]

AllInBounds-append :
    (ws : List ℕ) (b : ℕ) → AllInBounds ws → InBounds b → AllInBounds (ws ++ (b ∷ []))
AllInBounds-append [] b h k = (k, tt)
AllInBounds-append (w ∷ ws) b (g, h) k = (g, AllInBounds-append ws b h k)

next_backoff-InBounds : (b : ℕ) → InBounds b → InBounds (next_backoff b)
unfolding next_backoff
next_backoff-InBounds b h = ground (arith, h)

record IsPatient (c : Consumer) : Type 0 where
  within : InBounds c.backoff
  waited : AllInBounds c.waits

round-IsPatient : (r : Round) (c : Consumer) → IsPatient c → IsPatient (round r c)
unfolding round
round-IsPatient (fetched m now write e) c h = record { within = omega arith; waited = h.waited }
round-IsPatient (failed e ended) c h =
    let longer = AllInBounds-append c.waits c.backoff h.waited h.within in
    elim (Bool-cases (is canceled e || is eof e)) [
      | inl over ↦ rw over (record { within = h.within; waited = h.waited })
      | inr on ↦ rw on (elim (Bool-cases ended) [
        | inl last ↦ rw last (record { within = h.within; waited = longer })
        | inr more ↦
            rw more (record { within = next_backoff-InBounds c.backoff h.within; waited = longer })
      ])
    ]

run-IsPatient : (rs : List Round) (c : Consumer) → IsPatient c → IsPatient (run rs c)
unfolding run
run-IsPatient [] c h = h
run-IsPatient (r ∷ rs) c h = elim (Bool-cases c.returned) [
  | inl over ↦ subst IsPatient (sym (run-returned (r ∷ rs) c over)) h
  | inr on ↦
      subst IsPatient (sym (run-round r rs c on))
        (run-IsPatient rs (round r c) (round-IsPatient r c h))
]

-- No wait of the loop is shorter than a tenth of a second or longer than thirty seconds.
pub run-InBounds : (rs : List Round) (t : Table) → AllInBounds (run rs (start t)).waits
unfolding start
run-InBounds rs t =
    (run-IsPatient rs (start t) (record { within = omega arith; waited = tt })).waited
