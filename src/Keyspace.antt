-- ===== src/Keyspace.antt =====
-- What Redis documents of its keys: the values, the time to live that is left, in milliseconds, and
-- the messages published. A string value is the JSON value that it is the text of, an integer, or
-- another text. The gateway uses each key with one type of value; the WRONGTYPE error that Redis has
-- for the others is left out. The laws of `Redis` are stated with these functions; no code of the
-- gateway is here.
use code_runner.Prelude.{
  ℕ, suc, ◌*◌, String, Bool, true, false, ◌||◌, Option, none, some, List, [], ◌∷◌, ◌++◌, ◌==◌,
  is_some, length, if◌then◌else◌,
}
use code_runner.Prelude.Int.{ℤ, pos, negsuc, ◌+ℤ◌, ◌-ℤ◌, Number, int}
use code_runner.Prelude.Json.{Json}

pub data Stored : Type 0 where
  json : Json → Stored
  counter : ℤ → Stored
  raw : String → Stored

pub record Keyspace : Type 0 where
  pub strings : String → Option Stored
  pub lists : String → List String
  pub sets : String → List String
  pub hashes : String → List (String × String)
  pub ttls : String → Option ℕ
  pub published : List (String × Json)

abbrev pub update {ℓ} : {A : Type ℓ} → (String → A) → String → A → String → A
update f k a j = if k == j then a else f j

abbrev pub is_nonempty {ℓ} : {A : Type ℓ} → List A → Bool
is_nonempty [] = false
is_nonempty (_ ∷ _) = true

-- EXISTS, for a value of any type; an empty list, set or hash is no key
abbrev pub exists : String → Keyspace → Bool
exists k s =
    is_some (s.strings k)
    || is_nonempty (s.hashes k)
    || is_nonempty (s.lists k)
    || is_nonempty (s.sets k)

-- SET k v EX n; Redis refuses a time that is not a positive integer, and then writes nothing
abbrev pub set_ex : String → Stored → Number → Keyspace → Keyspace
set_ex k v (int (pos (suc n))) s = record s {
  strings = update s.strings k (some v);
  ttls = update s.ttls k (some (suc n * 1000));
}
set_ex k v _ s = s

-- INCRBY: a missing key counts as 0; a value that is no integer is an error
abbrev pub added : ℕ → Option Stored → Option ℤ
added n none = some (pos n)
added n (some (counter z)) = some (z +ℤ pos n)
added n (some _) = none

abbrev pub incremented : String → ℕ → Keyspace → Option ℤ
incremented k n s = added n (s.strings k)

abbrev write_counter : String → Option ℤ → Keyspace → Keyspace
write_counter k none s = s
write_counter k (some z) s = record s { strings = update s.strings k (some (counter z)) }

abbrev pub incrby : String → ℕ → Keyspace → Keyspace
incrby k n s = write_counter k (added n (s.strings k)) s

abbrev subtracted : ℕ → Option Stored → Option ℤ
subtracted n none = some (pos 0 -ℤ pos n)
subtracted n (some (counter z)) = some (z -ℤ pos n)
subtracted n (some _) = none

abbrev pub decrby : String → ℕ → Keyspace → Keyspace
decrby k n s = write_counter k (subtracted n (s.strings k)) s

-- PEXPIRE and EXPIRE with a positive time
abbrev pub pexpire : String → ℕ → Keyspace → Keyspace
pexpire k n s = if exists k s then record s { ttls = update s.ttls k (some n) } else s

abbrev pub expire : String → ℕ → Keyspace → Keyspace
expire k n s = pexpire k (n * 1000) s

-- PTTL: -2 with no key, -1 with no time to live
abbrev pub left : Bool → Option ℕ → ℤ
left false o = negsuc 1
left true none = negsuc 0
left true (some n) = pos n

abbrev pub pttl : String → Keyspace → ℤ
pttl k s = left (exists k s) (s.ttls k)

abbrev pub llen : String → Keyspace → ℕ
llen k s = length (s.lists k)

abbrev pub lpush : String → String → Keyspace → Keyspace
lpush k v s = record s { lists = update s.lists k (v ∷ s.lists k) }

abbrev pub publish : String → Json → Keyspace → Keyspace
publish c m s = record s { published = s.published ++ (c, m) ∷ [] }

-- SISMEMBER
abbrev pub contains : String → List String → Bool
contains v [] = false
contains v (w ∷ l) = if w == v then true else contains v l

abbrev pub with_member : String → List String → List String
with_member v l = if contains v l then l else v ∷ l

abbrev pub sadd : String → String → Keyspace → Keyspace
sadd k v s = record s { sets = update s.sets k (with_member v (s.sets k)) }

abbrev pub field? : String → List (String × String) → Option String
field? f [] = none
field? f ((g, v) ∷ r) = if g == f then some v else field? f r

abbrev pub hsetnx_fields :
    String → String → Option String → List (String × String) → List (String × String)
hsetnx_fields f v none r = (f, v) ∷ r
hsetnx_fields f v (some _) r = r

abbrev pub hsetnx : String → String → String → Keyspace → Keyspace
hsetnx k f v s = record s {
  hashes = update s.hashes k (hsetnx_fields f v (field? f (s.hashes k)) (s.hashes k));
}
