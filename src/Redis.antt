-- ===== src/Redis.antt =====
-- The commands of Redis that the repository sends by go-redis, as operations on what the server
-- holds, `R`, and what Redis documents of them. A call that fails by the link may have run.
pub mod Keys
pub mod Members
use central_auth.Common.{
  ℕ, zero, suc, ◌+◌, ◌*◌, ◌≤◌, ◌≡◌, String, Bool, true, false, not, ◌||◌, Option, none, some, List,
  [], ◌∷◌, length, str_eq, if◌then◌else◌,
}
use central_auth.Common.Int.{ℤ, pos, lt_ℤ}
use central_auth.Common.Eff.{Eff, Try}
use central_auth.Bff.{second}
use central_auth.Failure.{Failure, Result, ok, err}

-- Commands that write return the server's state alone where nothing reads their reply. A time to
-- live is nanoseconds, or seconds where the name says so; it is positive, since Redis refuses
-- another, and the laws below speak of such only.
pub record Redis (R : Type 0) : Type 0 where
  pub get : String → R → Option String
  pub set : (key value : String) → ℤ → R → R
  pub set_seconds : (key value : String) → ℤ → R → R
  pub set_nx : (key value : String) → ℤ → R → Bool × R
  pub del : String → R → R
  pub expire : String → ℤ → R → R
  pub expire_seconds : String → ℤ → R → R
  pub ttl : String → R → ℤ
  pub s_add : (key member : String) → R → R
  pub s_rem : (key member : String) → R → R
  pub s_members : String → R → List String
  pub z_score : (key member : String) → R → Option ℕ
  pub z_card : String → R → ℕ
  pub z_range : String → R → List String  -- ZRANGE key 0 -1, in the order of the scores
  pub z_add : String → ℕ → String → R → R
  pub z_rem : (key member : String) → R → R
  -- What a round trip meets: the server, or an error of the link.
  pub link : R → Option Failure × R
  -- How much of a round trip that fails the server has run before the link was lost, in commands,
  -- of which a transaction or a script is one: 0 when it was lost before they arrived.
  pub ran : R → ℕ

abbrev pub has : String → List String → Bool
has x [] = false
has x (y ∷ ys) = str_eq y x || has x ys

abbrev pub remove : String → List String → List String
remove x [] = []
remove x (y ∷ ys) = let rest = remove x ys in if str_eq y x then rest else y ∷ rest

-- What a command makes of the server that has run so many.
abbrev pub run_of {ℓ} : {A : Type ℓ} → ℕ → (A → A) → A → A
run_of zero f r = r
run_of (suc n) f r = f r

module _ {R : Type 0} (c : Redis R) where
  abbrev pub reply : {A : Type 0} → (ran : ℕ) → (R → A × R) → Option Failure → R → Result A × R
  reply n f none r = let (a, r') = f r in (ok a, r')
  reply n f (some e) r = (err e, run_of n (λ r. (f r).1) r)

  -- A command, a transaction or a script, sent to the server in one round trip. On an error of
  -- the link the server may have run it, and only the reply is lost.
  abbrev pub round_trip : {A : Type 0} → (R → A × R) → Try R A
  round_trip f r = let (e, r') = c.link r in reply (c.ran r) f e r'

  -- The same for commands whose reply nothing reads.
  abbrev pub send : (R → R) → Eff R (Option Failure)
  send f r =
      let (e, r') = c.link r in
      elim e [ none ↦ (none, f r') | some e ↦ (some e, run_of (c.ran r) f r') ]

-- The round trip by itself changes no key, only the commands in it do: no other client acts
-- meanwhile and no time passes.
pub record QuietLink {R : Type 0} (c : Redis R) : Type 0 where
  pub get-link : (k : String) (r : R) → c.get k (c.link r).1 ≡ c.get k r
  pub z_range-link : (k : String) (r : R) → c.z_range k (c.link r).1 ≡ c.z_range k r
  pub s_members-link : (k : String) (r : R) → c.s_members k (c.link r).1 ≡ c.s_members k r

-- The sorted set of a key, as the list of its members in the order of their scores. Commands on
-- other keys leave it alone.
pub record SortedSetLaws {R : Type 0} (c : Redis R) : Type 0 where
  pub z_score_lem :
      (k d : String) (r : R)
      → (elim (c.z_score k d r) [ none ↦ false | some s ↦ true ]) ≡ has d (c.z_range k r)
  pub z_card_lem : (k : String) (r : R) → c.z_card k r ≡ length (c.z_range k r)
  pub z_range-z_rem :
      (k d : String) (r : R) → c.z_range k (c.z_rem k d r) ≡ remove d (c.z_range k r)
  pub has-z_add :
      (k d e : String) (s : ℕ) (r : R)
      → has e (c.z_range k (c.z_add k s d r)) ≡ (str_eq d e || has e (c.z_range k r))
  pub length-z_add :
      (k d : String) (s : ℕ) (r : R)
      → length (c.z_range k (c.z_add k s d r))
        ≤ (if has d (c.z_range k r) then length (c.z_range k r) else length (c.z_range k r) + 1)
  pub z_range-del_same : (k : String) (r : R) → c.z_range k (c.del k r) ≡ []
  pub z_range-del_ne : (k j : String) (r : R) → ¬ (j ≡ k) → c.z_range k (c.del j r) ≡ c.z_range k r
  pub z_range-set_seconds :
      (k j v : String) (t : ℤ) (r : R)
      → ¬ (j ≡ k)
      → c.z_range k (c.set_seconds j v t r) ≡ c.z_range k r
  pub z_range-expire_seconds :
      (k j : String) (t : ℤ) (r : R)
      → lt_ℤ (pos 0) t ≡ true
      → c.z_range k (c.expire_seconds j t r) ≡ c.z_range k r

-- The scores of its members: `ZRANGE` begins with a lowest one.
pub record ScoreLaws {R : Type 0} (c : Redis R) : Type 0 where
  pub z_range_lem :
      (k d e : String) (ids : List String) (s t : ℕ) (r : R)
      → c.z_range k r ≡ d ∷ ids
      → c.z_score k d r ≡ some s
      → c.z_score k e r ≡ some t
      → s ≤ t
  pub z_score-z_add :
      (k d e : String) (s : ℕ) (r : R)
      → c.z_score k e (c.z_add k s d r) ≡ (if str_eq d e then some s else c.z_score k e r)
  pub z_score-z_rem :
      (k d e : String) (r : R)
      → c.z_score k e (c.z_rem k d r) ≡ (if str_eq d e then none else c.z_score k e r)
  pub z_score-del_ne :
      (k j e : String) (r : R) → ¬ (j ≡ k) → c.z_score k e (c.del j r) ≡ c.z_score k e r
  pub z_score-set_seconds :
      (k j v e : String) (t : ℤ) (r : R)
      → ¬ (j ≡ k)
      → c.z_score k e (c.set_seconds j v t r) ≡ c.z_score k e r
  pub z_score-expire_seconds :
      (k j e : String) (t : ℤ) (r : R)
      → lt_ℤ (pos 0) t ≡ true
      → c.z_score k e (c.expire_seconds j t r) ≡ c.z_score k e r
  pub z_score-link : (k e : String) (r : R) → c.z_score k e (c.link r).1 ≡ c.z_score k e r

-- The values of the plain keys.
pub record StringLaws {R : Type 0} (c : Redis R) : Type 0 where
  pub get-set_same :
      (k v : String) (t : ℤ) (r : R) → lt_ℤ (pos 0) t ≡ true → c.get k (c.set k v t r) ≡ some v
  pub get-set_ne :
      (k j v : String) (t : ℤ) (r : R) → ¬ (k ≡ j) → c.get j (c.set k v t r) ≡ c.get j r
  pub get-set_seconds_same :
      (k v : String) (t : ℤ) (r : R)
      → lt_ℤ (pos 0) t ≡ true
      → c.get k (c.set_seconds k v t r) ≡ some v
  pub get-set_seconds_ne :
      (k j v : String) (t : ℤ) (r : R) → ¬ (k ≡ j) → c.get j (c.set_seconds k v t r) ≡ c.get j r
  pub get-del_same : (k : String) (r : R) → c.get k (c.del k r) ≡ none
  pub get-del_ne : (k j : String) (r : R) → ¬ (k ≡ j) → c.get j (c.del k r) ≡ c.get j r
  pub get-expire :
      (k j : String) (t : ℤ) (r : R) → lt_ℤ (pos 0) t ≡ true → c.get j (c.expire k t r) ≡ c.get j r
  pub get-expire_seconds :
      (k j : String) (t : ℤ) (r : R)
      → lt_ℤ (pos 0) t ≡ true
      → c.get j (c.expire_seconds k t r) ≡ c.get j r
  pub get-z_add : (k j d : String) (s : ℕ) (r : R) → c.get j (c.z_add k s d r) ≡ c.get j r
  pub get-z_rem : (k j d : String) (r : R) → c.get j (c.z_rem k d r) ≡ c.get j r
  pub get-s_add : (k j m : String) (r : R) → c.get j (c.s_add k m r) ≡ c.get j r
  pub get-s_rem : (k j m : String) (r : R) → c.get j (c.s_rem k m r) ≡ c.get j r

-- The sets, and `SET NX`.
pub record SetLaws {R : Type 0} (c : Redis R) : Type 0 where
  pub s_members-s_add :
      (k m n : String) (r : R)
      → has n (c.s_members k (c.s_add k m r)) ≡ (str_eq m n || has n (c.s_members k r))
  pub s_members-s_rem :
      (k m : String) (r : R) → c.s_members k (c.s_rem k m r) ≡ remove m (c.s_members k r)
  pub s_members-del_same : (k : String) (r : R) → c.s_members k (c.del k r) ≡ []
  pub s_members-del_ne :
      (k j : String) (r : R) → ¬ (j ≡ k) → c.s_members k (c.del j r) ≡ c.s_members k r
  pub s_members-set :
      (k j v : String) (t : ℤ) (r : R) → ¬ (j ≡ k) → c.s_members k (c.set j v t r) ≡ c.s_members k r
  pub s_members-expire :
      (k j : String) (t : ℤ) (r : R)
      → lt_ℤ (pos 0) t ≡ true
      → c.s_members k (c.expire j t r) ≡ c.s_members k r
  pub set_nx_lem :
      (k v : String) (t : ℤ) (r : R)
      → lt_ℤ (pos 0) t ≡ true
      → c.set_nx k v t r ≡ (elim (c.get k r) [ none ↦ (true, c.set k v t r) | some _ ↦ (false, r) ])
  -- `TTL` after `EXPIRE`, for whole seconds and a set that exists
  pub ttl-expire :
      (k m : String) (n : ℕ) (r : R)
      → c.ttl k (c.expire k (pos (suc n * second)) (c.s_add k m r)) ≡ pos (suc n)
