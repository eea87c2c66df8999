-- ===== src/Api/Stdin/Concurrent/Moves.antt =====
-- What one round trip of a frame does to the counter of pending bytes and to what is sent.
use Prim.Native.String.{len}
use code_runner.Prelude.{
  ℕ, ◌+◌, ◌-◌, ◌≤◌, String, List, [], ◌∷◌, ◌++◌, some, ◌≡◌, refl, ap, ◌∙◌, ◌⊎◌, inl, inr, arith,
  eq_refl,
}
use code_runner.Prelude.Int.{pos}
use code_runner.Prelude.Json.{Json}
use code_runner.Keyspace
use code_runner.Keyspace.{Keyspace, Stored, counter}
use code_runner.Redis.{Redis}
use code_runner.Contract.{stdin_channel}
use code_runner.Api.Http.{Gateway}
use code_runner.Api.Stdin.{
  pending_bytes_key, stdin_pending_byte_cap, publish_stdin, reject_bytes, chunk_json,
}
use code_runner.Api.Stdin.Guards.{
  Reads, SameBut, counted, incremented-Reads, incrby-Reads, incrby-SameBut, decrby-Reads,
  view-counted,
}
use code_runner.Api.Stdin.Route.{view-published}
use code_runner.Api.Stdin.Concurrent.{Phase, sent, advance, Move, arrive, go, sent_bytes}

-- the bytes of a chunk that is counted, and of one that will be published
abbrev pub held : Phase → ℕ
held Phase.free = 0
held (Phase.arrived chunk) = 0
held (Phase.fitting chunk) = len chunk
held (Phase.exceeding chunk) = len chunk

abbrev pub promised : Phase → ℕ
promised Phase.free = 0
promised (Phase.arrived chunk) = 0
promised (Phase.fitting chunk) = len chunk
promised (Phase.exceeding chunk) = 0

sent-append :
    (channel : String) (xs ys : List (String × Json))
    → sent channel (xs ++ ys) ≡ sent channel xs + sent channel ys
sent-append channel [] ys = omega arith
sent-append channel ((c, message) ∷ xs) ys = omega (arith, sent-append channel xs ys)

pub promised_le : (p : Phase) → promised p ≤ held p
promised_le p = ground arith

module _ (r : Redis) (job_id : String) where
  open r use {Db, view, decrby}

  pub moved :
      (n : ℕ) (k : String) (s t : Keyspace) → t.strings k ≡ s.strings k → Reads k n s → Reads k n t
  moved n k s t e h = ground arith

  -- a counter that holds the bytes gives them back
  decrby_held :
      (n m : ℕ) (k : String) (s : Keyspace)
      → m ≤ n
      → Reads k n s
      → Reads k (n - m) (Keyspace.decrby k m s)
  decrby_held n m k s le (inl e) =
      inl (decrby-Reads k (n - m) m s (e ∙ ap (λ (j : ℕ). some (counter (pos j))) (omega arith)))
  decrby_held n m k s le (inr (z, e)) = inl (ground (arith, eq_refl k))

  sent_bytes-SameBut :
      (k : String) (g h : Gateway Db)
      → SameBut k (view g.db) (view h.db)
      → sent_bytes r job_id h ≡ sent_bytes r job_id g
  sent_bytes-SameBut k g h (_, same) = ap (sent (stdin_channel job_id)) same

  sent_bytes-publish :
      (chunk : String) (g : Gateway Db)
      → sent_bytes r job_id (publish_stdin r job_id chunk g).1 ≡ sent_bytes r job_id g + len chunk
  sent_bytes-publish chunk g =
      ap (λ (s : Keyspace). sent (stdin_channel job_id) s.published)
        (view-published r job_id chunk g)
      ∙ sent-append (stdin_channel job_id) (view g.db).published
          ((stdin_channel job_id, chunk_json chunk) ∷ [])
      ∙ ground (arith, eq_refl (stdin_channel job_id), eq_refl "chunk")

  decrby-published :
      (k : String) (m : ℕ) (s : Keyspace) → (Keyspace.decrby k m s).published ≡ s.published
  decrby-published k m s = ground arith

  sent_bytes-reject :
      (m : ℕ) (g : Gateway Db)
      → sent_bytes r job_id (reject_bytes r job_id m g).1 ≡ sent_bytes r job_id g
  unfolding reject_bytes
  sent_bytes-reject m g =
      ap (λ (s : Keyspace). sent (stdin_channel job_id) s.published)
        (r.view-decrby (pending_bytes_key job_id) m g.db)
      ∙ ap (sent (stdin_channel job_id)) (decrby-published (pending_bytes_key job_id) m (view g.db))

  -- What a move makes of the counter, beside the bytes that are sent.
  pub record Kept (n : ℕ) (g : Gateway Db) (p : Phase) (h : Gateway Db) (p' : Phase) : Type 0 where
    pub counter_after : ℕ
    pub reads : Reads (pending_bytes_key job_id) counter_after (view h.db)
    pub grows : sent_bytes r job_id g ≤ sent_bytes r job_id h
    pub balanced :
        counter_after + sent_bytes r job_id g + held p ≡ n + sent_bytes r job_id h + held p'
    pub capped :
        (sent_bytes r job_id h + promised p' ≤ sent_bytes r job_id g + promised p)
        ⊎ ((sent_bytes r job_id h ≡ sent_bytes r job_id g)
            × (promised p ≡ 0)
            × (held p ≡ 0)
            × (n + promised p' ≤ stdin_pending_byte_cap))

  sent_bytes-counted :
      (chunk : String) (g : Gateway Db)
      → sent_bytes r job_id (counted r job_id (pending_bytes_key job_id) (len chunk) 300 g)
        ≡ sent_bytes r job_id g
  sent_bytes-counted chunk g =
      ap (λ (s : Keyspace). sent (stdin_channel job_id) s.published)
        (view-counted r job_id (pending_bytes_key job_id) (len chunk) 299 g)
      ∙ ap (sent (stdin_channel job_id))
          (incrby-SameBut (pending_bytes_key job_id) (len chunk) 300 (view g.db)).1

  decided :
      (n : ℕ) (chunk : String) (g : Gateway Db)
      → Reads (pending_bytes_key job_id) n (view g.db)
      → ((advance r job_id (Phase.arrived chunk) g).0 ≡ Phase.exceeding chunk)
        ⊎ (((advance r job_id (Phase.arrived chunk) g).0 ≡ Phase.fitting chunk)
            × (n + len chunk ≤ stdin_pending_byte_cap))
  unfolding advance
  decided n chunk g h =
      let reply =
        r.reply-incrby (pending_bytes_key job_id) (len chunk) g.db
        ∙ incremented-Reads (pending_bytes_key job_id) n (len chunk) (view g.db) h in
      rw reply (ground arith)

  advance-Kept :
      (n : ℕ) (p : Phase) (g : Gateway Db)
      → Reads (pending_bytes_key job_id) n (view g.db)
      → held p ≤ n
      → Kept n g p (advance r job_id p g).1 (advance r job_id p g).0
  unfolding advance publish_stdin reject_bytes
  advance-Kept n Phase.free g h le = record {
    counter_after = n;
    reads = h;
    grows = omega arith;
    balanced = refl;
    capped = inl (omega arith);
  }
  advance-Kept n (Phase.arrived chunk) g h le =
      let after = view-counted r job_id (pending_bytes_key job_id) (len chunk) 299 g in
      let same = sent_bytes-counted chunk g in
      record {
        counter_after = n + len chunk;
        reads =
            rw after
              (inl (incrby-Reads (pending_bytes_key job_id) n (len chunk) 300 (view g.db) h));
        grows = omega (arith, same);
        balanced = ground (arith, same, decided n chunk g h);
        capped = elim (decided n chunk g h) [
          | inl big ↦ inl (rw big (omega (arith, same)))
          | inr (fits, room) ↦ inr (same, refl, refl, rw fits room)
        ];
      }
  advance-Kept n (Phase.fitting chunk) g h le = record {
    counter_after = n;
    reads =
        moved n (pending_bytes_key job_id) (view g.db) (view (publish_stdin r job_id chunk g).1.db)
          (ap (λ (s : Keyspace). s.strings (pending_bytes_key job_id))
            (view-published r job_id chunk g))
          h;
    grows = omega (arith, sent_bytes-publish chunk g);
    balanced = omega (arith, sent_bytes-publish chunk g);
    capped = inl (omega (arith, sent_bytes-publish chunk g));
  }
  advance-Kept n (Phase.exceeding chunk) g h le = record {
    counter_after = n - len chunk;
    reads =
        rw (r.view-decrby) (decrby_held n (len chunk) (pending_bytes_key job_id) (view g.db) le h);
    grows = omega (arith, sent_bytes-reject (len chunk) g);
    balanced = omega (arith, le, sent_bytes-reject (len chunk) g);
    capped = inl (omega (arith, sent_bytes-reject (len chunk) g));
  }

  pub Move-Kept :
      (n : ℕ) (g : Gateway Db) (p : Phase) (h : Gateway Db) (p' : Phase)
      → Reads (pending_bytes_key job_id) n (view g.db)
      → held p ≤ n
      → Move r job_id g p h p'
      → Kept n g p h p'
  Move-Kept n g p h p' reads le (arrive chunk) = record {
    counter_after = n;
    reads = reads;
    grows = omega arith;
    balanced = refl;
    capped = inl (omega arith);
  }
  Move-Kept n g p h p' reads le (go _) = advance-Kept n p g reads le
