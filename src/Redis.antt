-- ===== src/Redis.antt =====
-- The Redis server, which the gateway only calls: a parameter. `Redis` lists the commands that the
-- gateway sends, and for each one law: its documented effect on the keyspace (Keyspace).
-- Every command is answered; a lost connection is outside the model.
pub mod Memory
use code_runner.Prelude.{ℕ, ◌<◌, String, ◌≡◌, Bool, Option, List}
use code_runner.Prelude.Int.{ℤ, Number}
use code_runner.Prelude.Json.{Json}
use code_runner.Keyspace
use code_runner.Keyspace.{Keyspace, Stored}

pub record Redis : Type 1 where
  pub Db : Type 0
  pub view : Db → Keyspace
  pub get : String → Db → Option Stored
  pub set_ex : String → Stored → Number → Db → Db
  pub incrby : String → ℕ → Db → Option ℤ × Db
  pub decrby : String → ℕ → Db → Db
  pub expire : String → ℕ → Db → Db
  pub llen : String → Db → ℕ
  pub lpush : String → String → Db → Db
  pub publish : String → Json → Db → Db
  pub exists : String → Db → Bool
  pub sadd : String → String → Db → Db
  pub hsetnx : String → String → String → Db → Db
  pub pttl : String → Db → ℤ
  pub pexpire : String → ℕ → Db → Db
  pub get_lem : (k : String) (d : Db) → get k d ≡ (view d).strings k
  pub view-set_ex :
      (k : String) (v : Stored) (n : Number) (d : Db)
      → view (set_ex k v n d) ≡ Keyspace.set_ex k v n (view d)
  pub reply-incrby :
      (k : String) (n : ℕ) (d : Db) → (incrby k n d).0 ≡ Keyspace.incremented k n (view d)
  pub view-incrby :
      (k : String) (n : ℕ) (d : Db) → view (incrby k n d).1 ≡ Keyspace.incrby k n (view d)
  pub view-decrby :
      (k : String) (n : ℕ) (d : Db) → view (decrby k n d) ≡ Keyspace.decrby k n (view d)
  pub view-expire :
      (k : String) (n : ℕ) (d : Db) → 0 < n → view (expire k n d) ≡ Keyspace.expire k n (view d)
  pub llen_lem : (k : String) (d : Db) → llen k d ≡ Keyspace.llen k (view d)
  pub view-lpush : (k v : String) (d : Db) → view (lpush k v d) ≡ Keyspace.lpush k v (view d)
  pub view-publish :
      (c : String) (m : Json) (d : Db) → view (publish c m d) ≡ Keyspace.publish c m (view d)
  pub exists_lem : (k : String) (d : Db) → exists k d ≡ Keyspace.exists k (view d)
  pub view-sadd : (k v : String) (d : Db) → view (sadd k v d) ≡ Keyspace.sadd k v (view d)
  pub view-hsetnx :
      (k f v : String) (d : Db) → view (hsetnx k f v d) ≡ Keyspace.hsetnx k f v (view d)
  pub pttl_lem : (k : String) (d : Db) → pttl k d ≡ Keyspace.pttl k (view d)
  pub view-pexpire :
      (k : String) (n : ℕ) (d : Db) → 0 < n → view (pexpire k n d) ≡ Keyspace.pexpire k n (view d)
