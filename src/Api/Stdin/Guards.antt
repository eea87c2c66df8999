-- ===== src/Api/Stdin/Guards.antt =====
-- The two guards of the stdin route: which frames pass, and what they leave in Redis.
use code_runner.Prelude.{
  ℕ, suc, ◌+◌, String, none, some, ◌≡◌, ◌≢◌, ◌⊎◌, inl, inr, refl, Bool-cases, ap, ◌∙◌, arith,
  eq_iff, eq_refl, leb, ltb, if◌then◌else◌,
}
use Prim.Native.String.{len}
use code_runner.Prelude.Int.{pos}
use code_runner.Prelude.State.{State}
use code_runner.Keyspace
use code_runner.Keyspace.{Keyspace, Stored, counter}
use code_runner.Redis.{Redis}
use code_runner.Api.Http.{Response, Gateway}
use code_runner.Api.Stdin.{
  rate_limit_key, pending_bytes_key, stdin_rate_limit, stdin_byte_cap_check, too_many_frames,
  cap_exceeded, stdin_rate_limit_frames, stdin_pending_byte_cap,
}

-- The counter at the key reads `n`; a missing key reads 0.
abbrev pub Reads : String → ℕ → Keyspace → Type 0
Reads k n s = (s.strings k ≡ some (counter (pos n))) ⊎ ((n ≡ 0) × (s.strings k ≡ none))

-- Only the string at the key may differ, and nothing is published.
abbrev pub SameBut : String → Keyspace → Keyspace → Type 0
SameBut k s t = ((j : String) → j ≢ k → t.strings j ≡ s.strings j) × (t.published ≡ s.published)

pub incremented-Reads :
    (k : String) (n m : ℕ) (s : Keyspace)
    → Reads k n s
    → Keyspace.incremented k m s ≡ some (pos (n + m))
incremented-Reads k n m s h = ground arith

pub incrby-Reads :
    (k : String) (n m t : ℕ) (s : Keyspace)
    → Reads k n s
    → (Keyspace.expire k t (Keyspace.incrby k m s)).strings k ≡ some (counter (pos (n + m)))
incrby-Reads k n m t s h = ground (arith, eq_refl k)

pub incrby-SameBut :
    (k : String) (m t : ℕ) (s : Keyspace)
    → SameBut k s (Keyspace.expire k t (Keyspace.incrby k m s))
incrby-SameBut k m t s = ((λ j h. ground (arith, eq_iff k j)), ground arith)

pub decrby-Reads :
    (k : String) (n m : ℕ) (s : Keyspace)
    → s.strings k ≡ some (counter (pos (n + m)))
    → (Keyspace.decrby k m s).strings k ≡ some (counter (pos n))
decrby-Reads k n m s h = ground (arith, eq_refl k)

pub decrby-SameBut :
    (k : String) (n m : ℕ) (s : Keyspace)
    → s.strings k ≡ some (counter (pos (n + m)))
    → SameBut k s (Keyspace.decrby k m s)
decrby-SameBut k n m s h = ((λ j apart. ground (arith, eq_iff k j)), ground arith)

SameBut-trans : (k : String) (s t u : Keyspace) → SameBut k s t → SameBut k t u → SameBut k s u
SameBut-trans k s t u (h, p) (h', p') = ((λ j apart. h' j apart ∙ h j apart), p' ∙ p)

module _ (r : Redis) (job_id : String) where
  open r use {Db, view, incrby, decrby, expire}

  -- the gateway after INCRBY and EXPIRE of the key
  abbrev pub counted : String → ℕ → ℕ → Gateway Db → Gateway Db
  counted k m t g = record g { db = expire k t (incrby k m g.db).1 }

  pub view-counted :
      (k : String) (m t : ℕ) (g : Gateway Db)
      → view (counted k m (suc t) g).db
        ≡ Keyspace.expire k (suc t) (Keyspace.incrby k m (view g.db))
  view-counted k m t g =
      r.view-expire k (suc t) (incrby k m g.db).1 (omega arith)
      ∙ ap (Keyspace.expire k (suc t)) (r.view-incrby k m g.db)

  -- A frame of a job with an id that is not empty: where the counter of its window reads `n`, it reads `n + 1` afterwards, no
  -- other string has changed, and the frame goes on to the next handler exactly while `n` is below
  -- 30; otherwise it is answered by 429, and counted as a rejection.
  pub stdin_rate_limit_exact :
      (now_ms n : ℕ) (next : State (Gateway Db) Response) (g : Gateway Db)
      → job_id ≢ ""
      → Reads (rate_limit_key job_id now_ms) n (view g.db)
      → (g' : Gateway Db) × Reads (rate_limit_key job_id now_ms) (n + 1) (view g'.db)
        × SameBut (rate_limit_key job_id now_ms) (view g.db) (view g'.db)
        × (g'.metrics ≡ g.metrics)
        × (stdin_rate_limit r job_id now_ms next g ≡ (
            if ltb n stdin_rate_limit_frames then next g' else (
              too_many_frames,
              record g' {
                metrics = record g'.metrics {
                  frame_rate_rejected = g'.metrics.frame_rate_rejected + 1;
                };
              },
            )))
  unfolding stdin_rate_limit
  stdin_rate_limit_exact now_ms n next g named h =
      let k = rate_limit_key job_id now_ms in
      let after = view-counted k 1 1 g in
      (
        counted k 1 2 g,
        inl (rw after (incrby-Reads k n 1 2 (view g.db) h)),
        rw after (incrby-SameBut k 1 2 (view g.db)),
        refl,
        ground (
          arith,
          eq_iff job_id "",
          r.reply-incrby k 1 g.db ∙ incremented-Reads k n 1 (view g.db) h,
        ),
      )

  -- A chunk of a job with an id that is not empty: where `n` bytes are pending and the chunk fits under the cap, the pending bytes
  -- grow by it and the chunk goes on to the next handler; otherwise it is answered by 429 and counted,
  -- and the pending bytes read `n` again. No other string changes.
  pub stdin_byte_cap_check_exact :
      (n : ℕ) (chunk : String) (next : State (Gateway Db) Response) (g : Gateway Db)
      → job_id ≢ ""
      → Reads (pending_bytes_key job_id) n (view g.db)
      → (g' : Gateway Db) × SameBut (pending_bytes_key job_id) (view g.db) (view g'.db)
        × (if leb (n + len chunk) stdin_pending_byte_cap
            then Reads (pending_bytes_key job_id) (n + len chunk) (view g'.db)
              × (g'.metrics ≡ g.metrics)
              × (stdin_byte_cap_check r job_id (some chunk) next g ≡ next g')
            else Reads (pending_bytes_key job_id) n (view g'.db)
              × (g'.metrics
                  ≡ record g.metrics { byte_cap_rejected = g.metrics.byte_cap_rejected + 1 })
              × (stdin_byte_cap_check r job_id (some chunk) next g ≡ (cap_exceeded, g')))
  unfolding stdin_byte_cap_check
  stdin_byte_cap_check_exact n chunk next g named h = elim (Bool-cases (leb (n + m) cap)) [
    | inl fits ↦ (
      grown,
      rw after (incrby-SameBut k m 300 (view g.db)),
      rw fits (
        inl (rw after (incrby-Reads k n m 300 (view g.db) h)),
        refl,
        ground (arith, eq_iff job_id "", total),
      ),
    )
    | inr full ↦ (
      record {
        db = decrby k m grown.db;
        metrics = record g.metrics { byte_cap_rejected = g.metrics.byte_cap_rejected + 1 };
      },
      rw (r.view-decrby, after)
          (SameBut-trans k (view g.db) (Keyspace.expire k 300 (Keyspace.incrby k m (view g.db)))
            (Keyspace.decrby k m (Keyspace.expire k 300 (Keyspace.incrby k m (view g.db))))
            (incrby-SameBut k m 300 (view g.db))
            (decrby-SameBut k n m (Keyspace.expire k 300 (Keyspace.incrby k m (view g.db)))
              (incrby-Reads k n m 300 (view g.db) h))),
      rw full (
        inl (
            rw (r.view-decrby, after)
              (decrby-Reads k n m (Keyspace.expire k 300 (Keyspace.incrby k m (view g.db)))
                (incrby-Reads k n m 300 (view g.db) h))),
        refl,
        ground (arith, eq_iff job_id "", total),
      ),
    )
  ]
    where
      k : String
      k = pending_bytes_key job_id

      m : ℕ
      m = len chunk

      cap : ℕ
      cap = stdin_pending_byte_cap

      grown : Gateway Db
      grown = counted k m 300 g

      after : view grown.db ≡ Keyspace.expire k 300 (Keyspace.incrby k m (view g.db))
      after = view-counted k m 299 g

      total : (incrby k m g.db).0 ≡ some (pos (n + m))
      total = r.reply-incrby k m g.db ∙ incremented-Reads k n m (view g.db) h
