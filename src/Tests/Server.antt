-- ===== src/Tests/Server.antt =====
-- A Redis in memory: no key ever expires, and the link is up or down by hand.
use central_auth.Common.{
  ℕ, ◌≡◌, refl, String, Bool, true, false, ◌||◌, Option, none, some, List, [], ◌∷◌, ◌++◌, length,
  arith, str_eq, eq_iff, if◌then◌else◌,
}
use central_auth.Common.Int.{ℤ, pos}
use central_auth.Failure.{plain}
use central_auth.Redis.{
  Redis, QuietLink, SortedSetLaws, ScoreLaws, StringLaws, SetLaws, has, remove,
}
use central_auth.RedisRepository.{seconds_of}
use central_auth.Tests.SortedSet.{
  SortedSet, members, score_of, without, placed, members-without, has-placed, length-placed,
  score-has, score-without, score-placed, score-first,
}

pub record Server : Type 0 where
  pub strings : String → Option String
  pub sorted_sets : String → SortedSet
  pub sets : String → List String
  pub lives : String → ℤ
  pub up : Bool
  pub ran : ℕ

abbrev pub update {ℓ} : {A : Type ℓ} → String → A → (String → A) → String → A
update k a f j = if str_eq k j then a else f j

abbrev add_last : String → List String → List String
add_last d ids = if has d ids then ids else ids ++ (d ∷ [])

abbrev set_string : String → String → Server → Server
set_string k v r = record r { strings = update k (some v) r.strings }

abbrev set_life : String → ℤ → Server → Server
set_life k t r = record r { lives = update k t r.lives }

abbrev pub server : Redis Server
server = record {
  get = λ k r. r.strings k;
  set = λ k v t r. set_string k v r;
  set_seconds = λ k v t r. set_string k v r;
  set_nx = λ k v t r. elim (r.strings k) [ none ↦ (true, set_string k v r) | some _ ↦ (false, r) ];
  del = λ k r. record r {
    strings = update k none r.strings;
    sorted_sets = update k [] r.sorted_sets;
    sets = update k [] r.sets;
  };
  expire = λ k t r. set_life k (seconds_of t) r;
  expire_seconds = λ k t r. set_life k t r;
  ttl = λ k r. r.lives k;
  s_add = λ k m r. record r { sets = update k (add_last m (r.sets k)) r.sets };
  s_rem = λ k m r. record r { sets = update k (remove m (r.sets k)) r.sets };
  s_members = λ k r. r.sets k;
  z_score = λ k d r. score_of d (r.sorted_sets k);
  z_card = λ k r. length (members (r.sorted_sets k));
  z_range = λ k r. members (r.sorted_sets k);
  z_add =
      λ k s d r. record r { sorted_sets = update k (placed s d (r.sorted_sets k)) r.sorted_sets };
  z_rem = λ k d r. record r { sorted_sets = update k (without d (r.sorted_sets k)) r.sorted_sets };
  link = λ r. (if r.up then none else some plain, r);
  ran = λ r. r.ran;
}

has-append :
    (e d : String) (ids : List String) → has e (ids ++ (d ∷ [])) ≡ (str_eq d e || has e ids)
has-append e d [] = refl
has-append e d (x ∷ ids) = ground (arith, has-append e d ids)

has-add_last :
    (d e : String) (ids : List String) → has e (add_last d ids) ≡ (str_eq d e || has e ids)
has-add_last d e ids = ground (arith, has-append e d ids, eq_iff d e)

pub server-QuietLink : QuietLink server
server-QuietLink = record {
  get-link = λ k r. refl;
  z_range-link = λ k r. refl;
  s_members-link = λ k r. refl;
}

pub server-SortedSetLaws : SortedSetLaws server
server-SortedSetLaws = record {
  z_score_lem = λ k d r. score-has d (r.sorted_sets k);
  z_card_lem = λ k r. refl;
  z_range-z_rem = λ k d r. ground (arith, eq_iff k k, members-without d (r.sorted_sets k));
  has-z_add = λ k d e s r. ground (arith, eq_iff k k, has-placed s d e (r.sorted_sets k));
  length-z_add = λ k d s r. ground (arith, eq_iff k k, length-placed s d (r.sorted_sets k));
  z_range-del_same = λ k r. ground (arith, eq_iff k k);
  z_range-del_ne = λ k j r ne. ground (arith, eq_iff j k, ne);
  z_range-set_seconds = λ k j v t r ne. refl;
  z_range-expire_seconds = λ k j t r positive. refl;
}

pub server-ScoreLaws : ScoreLaws server
server-ScoreLaws = record {
  z_range_lem = λ k d e ids s t r. score-first d e ids s t (r.sorted_sets k);
  z_score-z_add = λ k d e s r. ground (arith, eq_iff k k, score-placed s d e (r.sorted_sets k));
  z_score-z_rem = λ k d e r. ground (arith, eq_iff k k, score-without d e (r.sorted_sets k));
  z_score-del_ne = λ k j e r ne. ground (arith, eq_iff j k, ne);
  z_score-set_seconds = λ k j v e t r ne. refl;
  z_score-expire_seconds = λ k j e t r positive. refl;
  z_score-link = λ k e r. refl;
}

pub server-StringLaws : StringLaws server
server-StringLaws = record {
  get-set_same = λ k v t r positive. ground (arith, eq_iff k k);
  get-set_ne = λ k j v t r ne. ground (arith, eq_iff k j, ne);
  get-set_seconds_same = λ k v t r positive. ground (arith, eq_iff k k);
  get-set_seconds_ne = λ k j v t r ne. ground (arith, eq_iff k j, ne);
  get-del_same = λ k r. ground (arith, eq_iff k k);
  get-del_ne = λ k j r ne. ground (arith, eq_iff k j, ne);
  get-expire = λ k j t r positive. refl;
  get-expire_seconds = λ k j t r positive. refl;
  get-z_add = λ k j d s r. refl;
  get-z_rem = λ k j d r. refl;
  get-s_add = λ k j m r. refl;
  get-s_rem = λ k j m r. refl;
}

pub server-SetLaws : SetLaws server
server-SetLaws = record {
  s_members-s_add = λ k m n r. ground (arith, eq_iff k k, has-add_last m n (r.sets k));
  s_members-s_rem = λ k m r. ground (arith, eq_iff k k);
  s_members-del_same = λ k r. ground (arith, eq_iff k k);
  s_members-del_ne = λ k j r ne. ground (arith, eq_iff j k, ne);
  s_members-set = λ k j v t r ne. refl;
  s_members-expire = λ k j t r positive. refl;
  set_nx_lem = λ k v t r positive. ground arith;
  ttl-expire = λ k m n r. ground (arith, eq_iff k k);
}

abbrev pub empty : Server
empty = record {
  strings = λ k. none;
  sorted_sets = λ k. [];
  sets = λ k. [];
  lives = λ k. pos 0;
  up = true;
  ran = 0;
}
