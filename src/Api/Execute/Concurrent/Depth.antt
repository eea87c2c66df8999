-- ===== src/Api/Execute/Concurrent/Depth.antt =====
-- How long the queue can get when requests are interleaved.
use code_runner.Prelude.{
  ℕ, suc, ◌+◌, ◌≤◌, ◌<◌, List, ◌≡◌, refl, ap, ◌∙◌, ◌⊎◌, inl, inr, arith, Bool-cases,
}
use code_runner.Prelude.Int.{pos, int, ge_number}
use code_runner.Prelude.Slots.{Step, pick, other, Reach, Reach-invariant, place}
use code_runner.Prelude.Slots.Weights.{total, total-place, total_le, total_zero}
use code_runner.Keyspace
use code_runner.Redis.{Redis}
use code_runner.Contract.{Manifest, job_queue}
use code_runner.Api.Http.{Gateway}
use code_runner.Api.Config.{Config}
use code_runner.Api.Admission.{at_capacity}
use code_runner.Api.Execute.{enqueue, reject}
use code_runner.Api.Execute.Effects.{enqueue-view}
use code_runner.Api.Execute.Queue.{length-written, room_for_one}
use code_runner.Api.Execute.Concurrent.{
  Job, Phase, queue_length, advance, Move, arrive, go, Drains, Requests,
}

-- a job that is as good as pushed
abbrev pub pending : Phase → ℕ
pending Phase.free = 0
pending (Phase.arrived q) = 0
pending (Phase.admitted q) = 1
pending (Phase.refused q) = 0

pending_le : (p : Phase) → pending p ≤ 1
pending_le p = ground arith

module _ (r : Redis) (config : Config) (manifests : List Manifest) where
  open r use {Db, view}

  pub queue_length-enqueue :
      (q : Job) (g : Gateway Db)
      → queue_length r config manifests (enqueue r config manifests q.ambient q.manifest q.body g).1
        ≡ suc (queue_length r config manifests g)
  queue_length-enqueue q g =
      ap (Keyspace.llen job_queue) (enqueue-view r config manifests q.ambient q.manifest q.body g)
      ∙ length-written r config manifests q.ambient q.manifest q.body (view g.db)

  pub at_capacity_lem :
      (g : Gateway Db)
      → at_capacity r config.max_queue_depth g
        ≡ (ge_number (queue_length r config manifests g) config.max_queue_depth, g)
  unfolding at_capacity
  at_capacity_lem g = rw r.llen_lem refl

  queue_length-reject :
      (q : Job) (g : Gateway Db)
      → queue_length r config manifests (reject r config manifests q.ambient g).1
        ≡ queue_length r config manifests g
  unfolding reject
  queue_length-reject q g = refl

  -- A move keeps what is pushed and pending together, or it finds the queue below the maximum.
  Weighed : ℕ → Gateway Db → Phase → Gateway Db → Phase → Type 0
  Weighed limit g p h p' =
      (queue_length r config manifests h + pending p'
        ≤ queue_length r config manifests g + pending p)
      ⊎ ((queue_length r config manifests h < limit) × (pending p ≡ 0))

  advance-Weighed :
      (limit : ℕ) (p : Phase) (g : Gateway Db)
      → config.max_queue_depth ≡ int (pos limit)
      → Weighed limit g p (advance r config manifests p g).1 (advance r config manifests p g).0
  unfolding advance Weighed
  advance-Weighed limit Phase.free g e = inl (omega arith)
  advance-Weighed limit (Phase.arrived q) g e =
      elim (Bool-cases (ge_number (queue_length r config manifests g) config.max_queue_depth)) [
        | inl full ↦ inl (rw (at_capacity_lem g, full) (omega arith))
        | inr room ↦
            let below =
              room_for_one r config manifests q.ambient (queue_length r config manifests g) limit
                config.max_queue_depth e room in
            inr (rw (at_capacity_lem g) (omega (arith, below)), refl)
      ]
  advance-Weighed limit (Phase.admitted q) g e = inl (omega (arith, queue_length-enqueue q g))
  advance-Weighed limit (Phase.refused q) g e = inl (omega (arith, queue_length-reject q g))

  Move-Weighed :
      (limit : ℕ) (g : Gateway Db) (p : Phase) (h : Gateway Db) (p' : Phase)
      → config.max_queue_depth ≡ int (pos limit)
      → Move r config manifests g p h p'
      → Weighed limit g p h p'
  unfolding Weighed
  Move-Weighed limit g p h p' e (arrive q) = inl (omega arith)
  Move-Weighed limit g p h p' e (go _) = advance-Weighed limit p g e

  -- Pushed and pending jobs of `k` slots.
  IsBounded : ℕ → ℕ → Requests r config manifests → Type 0
  IsBounded limit k s =
      queue_length r config manifests s.shared + total pending k s.slots < limit + k

  Step-IsBounded :
      (limit k : ℕ) (s t : Requests r config manifests)
      → config.max_queue_depth ≡ int (pos limit)
      → Step (Move r config manifests) (Drains r config manifests) k s t
      → IsBounded limit k s
      → IsBounded limit k t
  unfolding IsBounded Weighed
  Step-IsBounded limit k s t e (other drained) h = omega (arith, drained, h)
  Step-IsBounded limit k s t e (pick i {t = g} {p} below move) h =
      let traded = total-place pending k s.slots i p below in
      let few = total_le pending pending_le k (place s.slots i p) in
      elim (Move-Weighed limit s.shared (s.slots i) g p e move) [
        | inl kept ↦ omega (arith, kept, traded, h)
        | inr (room, none_before) ↦ omega (arith, room, few)
      ]

  -- Where MAX_QUEUE_DEPTH is the natural number `limit`, at most `k` admissible requests are in flight
  -- at a time, each in front of or behind any of its round trips to Redis, and nobody else makes the
  -- queue grow: started with a queue shorter than `limit + k` and no request in flight, however the
  -- requests are interleaved, and however many there are, the queue stays shorter than `limit + k`.
  pub Reach-queue_length :
      (limit k : ℕ) (s t : Requests r config manifests)
      → config.max_queue_depth ≡ int (pos limit)
      → ((i : ℕ) → i < k → s.slots i ≡ Phase.free)
      → queue_length r config manifests s.shared < limit + k
      → Reach (Move r config manifests) (Drains r config manifests) k s t
      → queue_length r config manifests t.shared < limit + k
  unfolding IsBounded
  Reach-queue_length limit k s t e idle short reached =
      let none_pending = total_zero pending k s.slots (λ i below. ap pending (idle i below)) in
      let bounded =
        Reach-invariant (Move r config manifests) (Drains r config manifests) k (IsBounded limit k)
          (λ u v step. Step-IsBounded limit k u v e step) (omega (arith, none_pending, short))
          reached in
      omega (arith, bounded)
