-- ===== src/Redis/Memory.antt =====
-- A value for the parameter `Redis`: the keyspace itself. It shows that the laws can hold, and runs
-- the tests.
use code_runner.Prelude.{refl, [], none}
use code_runner.Redis.{Redis}
use code_runner.Keyspace
use code_runner.Keyspace.{Keyspace}

abbrev pub memory : Redis
memory = record {
  Db = Keyspace;
  view = λ s. s;
  get = λ k s. s.strings k;
  set_ex = Keyspace.set_ex;
  incrby = λ k n s. (Keyspace.incremented k n s, Keyspace.incrby k n s);
  decrby = Keyspace.decrby;
  expire = Keyspace.expire;
  llen = Keyspace.llen;
  lpush = Keyspace.lpush;
  publish = Keyspace.publish;
  exists = Keyspace.exists;
  sadd = Keyspace.sadd;
  hsetnx = Keyspace.hsetnx;
  pttl = Keyspace.pttl;
  pexpire = Keyspace.pexpire;
  get_lem = λ k d. refl;
  view-set_ex = λ k v n d. refl;
  reply-incrby = λ k n d. refl;
  view-incrby = λ k n d. refl;
  view-decrby = λ k n d. refl;
  view-expire = λ k n d h. refl;
  llen_lem = λ k d. refl;
  view-lpush = λ k v d. refl;
  view-publish = λ c m d. refl;
  exists_lem = λ k d. refl;
  view-sadd = λ k v d. refl;
  view-hsetnx = λ k f v d. refl;
  pttl_lem = λ k d. refl;
  view-pexpire = λ k n d h. refl;
}

abbrev pub empty : Keyspace
empty = record {
  strings = λ _. none;
  lists = λ _. [];
  sets = λ _. [];
  hashes = λ _. [];
  ttls = λ _. none;
  published = [];
}
