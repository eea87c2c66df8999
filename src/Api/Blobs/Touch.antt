-- ===== src/Api/Blobs/Touch.antt =====
-- The touch script: what it records of a blob, and that it never shortens the blob's life.
use code_runner.Prelude.{
  ℕ, ◌<◌, String, Bool, true, Option, none, some, ◌≡◌, ◌≢◌, refl, sym, ap, ◌∙◌, arith, eq_iff,
  eq_refl, ltb, or_default, Bool-cases, inl, inr, show, if◌then◌else◌,
}
use mathlib.Core.Path.{subst, ap₂}
use code_runner.Prelude.Int.{pos}
use code_runner.Keyspace
use code_runner.Keyspace.{Keyspace}
use code_runner.Redis.{Redis}
use code_runner.Contract.{blob_meta, blob_index}
use code_runner.Api.Blobs.{touch, extend}
use code_runner.Api.Blobs.Filled.{
  filled, filled_fields, hashes-filled, hashes-filled_ne, created-filled, size-filled,
  exists-filled, exists_same, contains-with_member_self, contains-with_member_ne, set-filled,
  sets-filled_ne,
}

-- The longer of the time to live that is left and the one asked for.
abbrev pub longest : Option ℕ → ℕ → ℕ
longest none req = req
longest (some n) req = if ltb n req then req else n

-- What a touch leaves of a blob, beside the keyspace before it.
pub record IsTouched (hash size created : String) (req : ℕ) (s t : Keyspace) : Type 0 where
  pub indexed : Keyspace.contains hash (t.sets blob_index) ≡ true
  pub there : Keyspace.exists (blob_meta hash) t ≡ true
  pub life : t.ttls (blob_meta hash) ≡ some (longest (s.ttls (blob_meta hash)) req)
  pub created_once :
      Keyspace.field? "createdAtMs" (t.hashes (blob_meta hash))
      ≡ some (or_default (Keyspace.field? "createdAtMs" (s.hashes (blob_meta hash))) created)
  pub size_once :
      Keyspace.field? "size" (t.hashes (blob_meta hash))
      ≡ some (or_default (Keyspace.field? "size" (s.hashes (blob_meta hash))) size)
  pub members :
      (h : String)
      → h ≢ hash
      → Keyspace.contains h (t.sets blob_index) ≡ Keyspace.contains h (s.sets blob_index)
  pub others :
      (k : String) → k ≢ blob_meta hash → k ≢ blob_index → Keyspace.exists k t ≡ Keyspace.exists k s
  pub lives : (k : String) → k ≢ blob_meta hash → t.ttls k ≡ s.ttls k
  pub hashes : (k : String) → k ≢ blob_meta hash → t.hashes k ≡ s.hashes k
  pub sets : (k : String) → k ≢ blob_index → t.sets k ≡ s.sets k
  pub strings : t.strings ≡ s.strings
  pub lists : t.lists ≡ s.lists
  pub published : t.published ≡ s.published

-- The keyspace with the longer life for the key.
record IsExtended (k : String) (req : ℕ) (s t : Keyspace) : Type 0 where
  strings : t.strings ≡ s.strings
  lists : t.lists ≡ s.lists
  published : t.published ≡ s.published
  sets : t.sets ≡ s.sets
  hashes : t.hashes ≡ s.hashes
  life : t.ttls k ≡ some (longest (s.ttls k) req)
  others : (j : String) → j ≢ k → t.ttls j ≡ s.ttls j

pexpire-IsExtended :
    (k : String) (req : ℕ) (s : Keyspace)
    → Keyspace.exists k s ≡ true
    → longest (s.ttls k) req ≡ req
    → IsExtended k req s (Keyspace.pexpire k req s)
pexpire-IsExtended k req s there long = record {
  strings = ground arith;
  lists = ground arith;
  published = ground arith;
  sets = ground arith;
  hashes = ground arith;
  life = ground (arith, eq_refl k);
  others = λ j apart. ground (arith, eq_iff k j);
}

same-IsExtended :
    (k : String) (req n : ℕ) (s : Keyspace)
    → s.ttls k ≡ some n
    → longest (some n) req ≡ n
    → IsExtended k req s s
same-IsExtended k req n s h long = record {
  strings = refl;
  lists = refl;
  published = refl;
  sets = refl;
  hashes = refl;
  life = rw h (rw long);
  others = λ j apart. refl;
}

IsTouched-of_IsExtended :
    (hash size created : String) (req : ℕ) (s t : Keyspace)
    → IsExtended (blob_meta hash) req (filled hash size created s) t
    → IsTouched hash size created req s t
IsTouched-of_IsExtended hash size created req s t x =
    let f = filled hash size created s in
    let meta = blob_meta hash in
    let fields : t.hashes meta ≡ filled_fields size created (s.hashes meta) =
      ap (λ h. h meta) x.hashes ∙ hashes-filled hash size created s in
    let kept : (k : String) → k ≢ meta → t.hashes k ≡ s.hashes k =
      λ k apart. ap (λ h. h k) x.hashes ∙ hashes-filled_ne hash size created s k apart in
    let set : t.sets blob_index ≡ Keyspace.with_member hash (s.sets blob_index) =
      ap (λ m. m blob_index) x.sets ∙ set-filled hash size created s in
    let sets : (k : String) → k ≢ blob_index → t.sets k ≡ s.sets k =
      λ k apart. ap (λ m. m k) x.sets ∙ sets-filled_ne hash size created s k apart in
    record {
      indexed = ap (Keyspace.contains hash) set ∙ contains-with_member_self hash _;
      there =
          exists_same meta f t x.strings (ap (λ h. h meta) x.hashes) x.lists
            (ap (λ m. m meta) x.sets)
          ∙ exists-filled hash size created s;
      life = x.life;
      created_once = ap (Keyspace.field? "createdAtMs") fields ∙ created-filled size created _;
      size_once = ap (Keyspace.field? "size") fields ∙ size-filled size created _;
      members = λ h apart. ap (Keyspace.contains h) set ∙ contains-with_member_ne hash h _ apart;
      others = λ k apart off. exists_same k s t x.strings (kept k apart) x.lists (sets k off);
      lives = x.others;
      hashes = kept;
      sets = sets;
      strings = x.strings;
      lists = x.lists;
      published = x.published;
    }

-- What `extend` does at the time to live `o` of an existing key.
module _ (r : Redis) (presign : String → ℕ → String) (configured : Bool)
    (idle upload created_ms : ℕ) where
  open r use {Db, view}

  extend-IsExtended :
      (k : String) (req : ℕ) (d : Db) (o : Option ℕ)
      → 0 < req
      → Keyspace.exists k (view d) ≡ true
      → (view d).ttls k ≡ o
      → ((extend r presign configured idle upload created_ms k req (Keyspace.left true o) d).0
          ≡ pos (longest o req))
        × IsExtended k req (view d) (
            view
              (extend r presign configured idle upload created_ms k req (Keyspace.left true o) d).1)
  unfolding extend
  extend-IsExtended k req d none h there life =
      (refl, rw (r.view-pexpire k req d h) (pexpire-IsExtended k req (view d) there (rw life)))
  extend-IsExtended k req d (some n) h there life = elim (Bool-cases (ltb n req)) [
    | inl shorter ↦
        let long : longest (some n) req ≡ req = rw shorter in
        let runs : (extend r presign configured idle upload created_ms k req (pos n) d)
            ≡ (pos req, r.pexpire k req d) =
          ground arith in
        (
          ap (λ o. o.0) runs ∙ ap pos (sym long),
          subst (λ o. IsExtended k req (view d) (view o.1)) (sym runs)
              (rw (r.view-pexpire k req d h)
                (pexpire-IsExtended k req (view d) there (rw life long))),
        )
    | inr longer ↦
        let long : longest (some n) req ≡ n = rw longer in
        let runs : (extend r presign configured idle upload created_ms k req (pos n) d)
            ≡ (pos n, d) =
          ground arith in
        (
          ap (λ o. o.0) runs ∙ ap pos (sym long),
          subst (λ o. IsExtended k req (view d) (view o.1)) (sym runs)
              (same-IsExtended k req n (view d) life long),
        )
  ]

  -- the three writes, seen from outside
  write_fields : String → String → Db → Db
  write_fields hash size d =
      r.hsetnx (blob_meta hash) "createdAtMs" (show created_ms)
        (r.hsetnx (blob_meta hash) "size" size (r.sadd blob_index hash d))

  view-write_fields :
      (hash size : String) (d : Db)
      → view (write_fields hash size d) ≡ filled hash size (show created_ms) (view d)
  unfolding write_fields
  view-write_fields hash size d = rw r.view-hsetnx (rw r.view-hsetnx (rw r.view-sadd))

  -- A touch with a positive time to live puts the blob on the index and makes its metadata exist. It
  -- records the size and the time of creation only where they are missing. The time to live becomes
  -- the longer of the one that was left and the one asked for, which is also the reply. Every other
  -- text is on the index exactly when it was. Apart from the index and the blob's own metadata no key
  -- of any type comes or goes: all texts and lists stay, and so do the hash and the time to live of
  -- every key but the metadata and the set of every key but the index. Nothing is published.
  pub touch-IsTouched :
      (hash size : String) (req : ℕ) (d : Db)
      → 0 < req
      → ((touch r presign configured idle upload created_ms hash size created_ms req d).0
          ≡ pos (longest ((view d).ttls (blob_meta hash)) req))
        × IsTouched hash size
            (show created_ms)
            req
            (view d)
            (view (touch r presign configured idle upload created_ms hash size created_ms req d).1)
  unfolding touch write_fields
  touch-IsTouched hash size req d h =
      let meta = blob_meta hash in
      let d' = write_fields hash size d in
      let written = view-write_fields hash size d in
      let there : Keyspace.exists meta (view d') ≡ true =
        rw written (exists-filled hash size (show created_ms) (view d)) in
      let life : (view d').ttls meta ≡ (view d).ttls meta = ap (λ s. s.ttls meta) written in
      let cur : r.pttl meta d' ≡ Keyspace.left true ((view d).ttls meta) =
        r.pttl_lem meta d' ∙ ap₂ Keyspace.left there life in
      let same = ap (λ c. extend r presign configured idle upload created_ms meta req c d') cur in
      let (replied, extended) = extend-IsExtended meta req d' ((view d).ttls meta) h there life in
      (
        ap (λ o. o.0) same ∙ replied,
        IsTouched-of_IsExtended hash size (show created_ms) req (view d) _ (
            subst
              (λ o. IsExtended meta req (filled hash size (show created_ms) (view d)) (view o.1))
              (sym same)
              (subst
                (λ s. IsExtended meta req s (
                  view
                    (extend r presign configured idle upload created_ms meta req
                      (Keyspace.left true ((view d).ttls meta)) d').1))
                written extended)),
      )
