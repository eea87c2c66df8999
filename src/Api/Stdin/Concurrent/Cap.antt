-- ===== src/Api/Stdin/Concurrent/Cap.antt =====
-- No interleaving of frames gets more than the cap past the gateway.
use code_runner.Prelude.{ℕ, ◌+◌, ◌-◌, ◌≤◌, ◌<◌, String, ◌≡◌, ap, inl, inr, arith}
use mathlib.Core.Path.{subst}
use code_runner.Prelude.Slots.{Step, pick, other, Reach, Reach-invariant}
use code_runner.Prelude.Slots.Weights.{total, total-place, total_at, total_monotone, total_zero}
use code_runner.Redis.{Redis}
use code_runner.Api.Http.{Gateway}
use code_runner.Api.Stdin.{pending_bytes_key, stdin_pending_byte_cap}
use code_runner.Api.Stdin.Guards.{Reads}
use code_runner.Api.Stdin.Concurrent.Moves.{held, promised, promised_le, moved, Move-Kept}
use code_runner.Api.Stdin.Concurrent.{Phase, Move, sent_bytes, Leaves, Frames}

module _ (r : Redis) (job_id : String) where
  open r use {Db, view}

  -- The counter against what has been sent since a start at which it read `n`.
  record IsCapped (m n : ℕ) (g : Gateway Db) (s : Frames r job_id) : Type 0 where
    pending : ℕ
    reads : Reads (pending_bytes_key job_id) pending (view s.shared.db)
    grows : sent_bytes r job_id g ≤ sent_bytes r job_id s.shared
    balanced :
        pending + sent_bytes r job_id g ≡ n + sent_bytes r job_id s.shared + total held m s.slots
    capped :
        n + sent_bytes r job_id s.shared + total promised m s.slots
        ≤ stdin_pending_byte_cap + sent_bytes r job_id g

  Step-IsCapped :
      (m n : ℕ) (g : Gateway Db) (s t : Frames r job_id)
      → Step (Move r job_id) (Leaves r job_id) m s t
      → IsCapped m n g s
      → IsCapped m n g t
  Step-IsCapped m n g s t (other (still, same)) c = record {
    pending = c.pending;
    reads =
        moved r job_id c.pending (pending_bytes_key job_id) (view s.shared.db) (view t.shared.db)
          still c.reads;
    grows = omega (arith, same, c.grows);
    balanced = omega (arith, same, c.balanced);
    capped = omega (arith, same, c.capped);
  }
  Step-IsCapped m n g s t (pick i {t = h} {p} below move) c =
      let at = total_at held m s.slots i below in
      let kept =
        Move-Kept r job_id c.pending s.shared (s.slots i) h p c.reads
          (omega (arith, at, c.balanced, c.grows)) move in
      let traded = total-place held m s.slots i p below in
      let given = total-place promised m s.slots i p below in
      let fewer = total_monotone promised held m s.slots promised_le in
      record {
        pending = kept.counter_after;
        reads = kept.reads;
        grows = omega (arith, kept.grows, c.grows);
        balanced = omega (arith, kept.balanced, c.balanced, traded);
        capped = elim kept.capped [
          | inl le ↦ omega (arith, le, c.capped, given)
          | inr (same, none_promised, none_held, room) ↦
              omega (arith, same, none_promised, room, given, fewer, c.balanced)
        ];
      }

  Reach-IsCapped :
      (m n : ℕ) (s t : Frames r job_id)
      → ((i : ℕ) → i < m → s.slots i ≡ Phase.free)
      → Reads (pending_bytes_key job_id) n (view s.shared.db)
      → n ≤ stdin_pending_byte_cap
      → Reach (Move r job_id) (Leaves r job_id) m s t
      → IsCapped m n s.shared t
  Reach-IsCapped m n s t idle reads le reached =
      let none_held = total_zero held m s.slots (λ i below. ap held (idle i below)) in
      let none_promised = total_zero promised m s.slots (λ i below. ap promised (idle i below)) in
      let first : IsCapped m n s.shared s = record {
        pending = n;
        reads = reads;
        grows = omega arith;
        balanced = omega (arith, none_held);
        capped = omega (arith, none_promised, le);
      } in
      Reach-invariant (Move r job_id) (Leaves r job_id) m (IsCapped m n s.shared)
        (λ u v step. Step-IsCapped m n s.shared u v step) first reached

  -- With at most `m` frames of a job in flight at a time, each in front of or behind any of its
  -- round trips to Redis, where nobody else touches the counter of pending bytes or sends the job
  -- stdin: from a start at which the counter reads `n`, at most the cap, and no frame is in flight,
  -- however the frames are interleaved and however many there are, no more than the cap less `n`
  -- bytes are published in all.
  pub Reach-sent_bytes :
      (m n : ℕ) (s t : Frames r job_id)
      → ((i : ℕ) → i < m → s.slots i ≡ Phase.free)
      → Reads (pending_bytes_key job_id) n (view s.shared.db)
      → n ≤ stdin_pending_byte_cap
      → Reach (Move r job_id) (Leaves r job_id) m s t
      → n + sent_bytes r job_id t.shared ≤ stdin_pending_byte_cap + sent_bytes r job_id s.shared
  Reach-sent_bytes m n s t idle reads le reached =
      omega (arith, (Reach-IsCapped m n s t idle reads le reached).capped)

  -- As soon as no frame is in flight, the refused chunks have left the counter.
  pub Reach-Reads :
      (m n : ℕ) (s t : Frames r job_id)
      → ((i : ℕ) → i < m → s.slots i ≡ Phase.free)
      → Reads (pending_bytes_key job_id) n (view s.shared.db)
      → n ≤ stdin_pending_byte_cap
      → Reach (Move r job_id) (Leaves r job_id) m s t
      → ((i : ℕ) → i < m → t.slots i ≡ Phase.free)
      → Reads
          (pending_bytes_key job_id)
          (n + (sent_bytes r job_id t.shared - sent_bytes r job_id s.shared))
          (view t.shared.db)
  Reach-Reads m n s t idle reads le reached quiet =
      let c = Reach-IsCapped m n s t idle reads le reached in
      let none_held = total_zero held m t.slots (λ i below. ap held (quiet i below)) in
      subst (λ (j : ℕ). Reads (pending_bytes_key job_id) j (view t.shared.db))
        (omega (arith, c.balanced, c.grows, none_held)) c.reads
