-- ===== src/Api/Execute/Queue.antt =====
-- What an accepted job leaves in Redis, how its status is pulled, and the bound of the queue.
use code_runner.Prelude.{
  ℕ, zero, suc, ◌*◌, ◌≤◌, String, false, some, List, ◌∷◌, ◌≡◌, ◌≢◌, refl, sym, ap, ◌∙◌, arith,
  eq_iff, eq_refl, length,
}
use mathlib.Core.Path.{subst}
use native.Mathlib.Decide.{ℕ_discrete}
use code_runner.Prelude.Int.{pos, negsuc, Number, nan, int, ge_number}
use code_runner.Keyspace
use code_runner.Keyspace.{Keyspace, Stored}
use code_runner.Redis.{Redis}
use code_runner.Contract.{
  Manifest, ExecuteRequest, spec_json, status_json, job_spec, job_status, job_queue,
}
use code_runner.Contract.Keys.{status-ne-spec}
use code_runner.Api.Http.{Validated, Gateway}
use code_runner.Api.Config.{Config}
use code_runner.Api.Jobs.{response, respond, respond_status}
use code_runner.Api.Execute.{Ambient, execute, build_spec, initial_status}
use code_runner.Api.Execute.Effects.{
  IsAdmissible, execute-accepted_iff, execute-admit, execute_rejected, admit-written, enqueue-view,
}

-- The keyspace after an accepted job with the manifest and the body.
abbrev pub written : Config → Ambient → Manifest → ExecuteRequest → Keyspace → Keyspace
written config ambient m req s = Keyspace.lpush job_queue ambient.job_id (
    Keyspace.set_ex (job_status ambient.job_id)
      (Stored.json (status_json (initial_status ambient m))) config.job_ttl_seconds
      (Keyspace.set_ex (job_spec ambient.job_id)
        (Stored.json (spec_json (build_spec ambient m req))) config.job_ttl_seconds s))

-- The job's keys in a keyspace that holds it, queued at the head, beside an older keyspace.
pub record IsQueued (ambient : Ambient) (m : Manifest) (req : ExecuteRequest) (ttl_ms : ℕ)
    (old new : Keyspace) : Type 0 where
  pub spec :
      new.strings (job_spec ambient.job_id)
      ≡ some (Stored.json (spec_json (build_spec ambient m req)))
  pub status :
      new.strings (job_status ambient.job_id)
      ≡ some (Stored.json (status_json (initial_status ambient m)))
  pub spec_ttl : new.ttls (job_spec ambient.job_id) ≡ some ttl_ms
  pub status_ttl : new.ttls (job_status ambient.job_id) ≡ some ttl_ms
  pub queue : new.lists job_queue ≡ ambient.job_id ∷ old.lists job_queue
  pub others :
      (k : String)
      → k ≢ job_spec ambient.job_id
      → k ≢ job_status ambient.job_id
      → new.strings k ≡ old.strings k

written-IsQueued :
    (config : Config) (ambient : Ambient) (m : Manifest) (req : ExecuteRequest) (s : Keyspace)
    (seconds : ℕ)
    → config.job_ttl_seconds ≡ int (pos (suc seconds))
    → IsQueued ambient m req (suc seconds * 1000) s (written config ambient m req s)
written-IsQueued config ambient m req s seconds e =
    let id = ambient.job_id in
    let apart = status-ne-spec id id in
    let facts = eq_iff (job_status id) (job_spec id) in
    rw e (record {
      spec = ground (arith, facts, apart, eq_refl (job_spec id));
      status = ground (arith, eq_refl (job_status id));
      spec_ttl = ground (arith, facts, apart, eq_refl (job_spec id));
      status_ttl = ground (arith, eq_refl (job_status id));
      queue = refl;
      others = λ k h h'. ground (arith, eq_iff (job_status id) k, eq_iff (job_spec id) k);
    })

module _ (r : Redis) (config : Config) (manifests : List Manifest) (ambient : Ambient) where
  open r use {Db, view}

  view-accepted :
      (req : Validated ExecuteRequest) (g : Gateway Db)
      → (execute r config manifests ambient req g).0.status ≡ 202
      → (a : IsAdmissible r config manifests ambient req) × (view
            (execute r config manifests ambient req g).1.db
          ≡ written config ambient a.manifest a.body (view g.db))
  view-accepted req g s =
      let (a, _) = (execute-accepted_iff r config manifests ambient req g).0 s in
      let same = execute-admit r config manifests ambient req g a in
      (
        a,
        ap (λ o. view o.1.db)
              (same ∙ admit-written r config manifests ambient a.manifest a.body g (rw same at s))
            ∙ enqueue-view r config manifests ambient a.manifest a.body g,
      )

  -- With a positive JOB_TTL, a 202 answer means that the spec and the queued status of the job are
  -- stored under its keys with that time to live, that its id is the newest entry of the queue, and
  -- that no other string key has changed.
  pub execute-IsQueued :
      (req : Validated ExecuteRequest) (g : Gateway Db) (seconds : ℕ)
      → config.job_ttl_seconds ≡ int (pos (suc seconds))
      → (execute r config manifests ambient req g).0.status ≡ 202
      → (a : IsAdmissible r config manifests ambient req) × IsQueued ambient a.manifest a.body
          (suc seconds * 1000)
          (view g.db)
          (view (execute r config manifests ambient req g).1.db)
  execute-IsQueued req g seconds e s =
      let (a, after) = view-accepted req g s in
      (a, rw after (written-IsQueued config ambient a.manifest a.body (view g.db) seconds e))

  -- With a positive JOB_TTL and a job id that is not empty, a 202 answer means that the status of the
  -- job can be pulled right after it, and that it is the queued one.
  pub respond_status-execute :
      (req : Validated ExecuteRequest) (g : Gateway Db) (seconds : ℕ)
      → config.job_ttl_seconds ≡ int (pos (suc seconds))
      → ambient.job_id ≢ ""
      → (execute r config manifests ambient req g).0.status ≡ 202
      → (a : IsAdmissible r config manifests ambient req) × ((respond_status r ambient.job_id
            (execute r config manifests ambient req g).1).0
          ≡ response 200 (status_json (initial_status ambient a.manifest)))
  unfolding respond_status respond
  respond_status-execute req g seconds e named s =
      let (a, q) = execute-IsQueued req g seconds e s in
      let found =
        r.get_lem (job_status ambient.job_id) (execute r config manifests ambient req g).1.db in
      (a, ground (arith, found ∙ q.status, eq_iff ambient.job_id ""))

-- A time that Redis refuses for EX: NaN, zero or negative.
abbrev pub IsRefused : Number → Type 0
IsRefused nan = Unit
IsRefused (int (negsuc n)) = Unit
IsRefused (int (pos n)) = n ≡ 0

set_ex_refused :
    (n : Number) (k : String) (v : Stored) (s : Keyspace)
    → IsRefused n
    → Keyspace.set_ex k v n s ≡ s
set_ex_refused nan k v s h = refl
set_ex_refused (int (negsuc n)) k v s h = refl
set_ex_refused (int (pos zero)) k v s h = refl
set_ex_refused (int (pos (suc n))) k v s h = absurd (omega arith)

module _ (r : Redis) (config : Config) (manifests : List Manifest) (ambient : Ambient) where
  open r use {Db, view}

  -- Where JOB_TTL is NaN, zero or negative, an accepted job is put on the queue although neither
  -- its spec nor its status is written: the 202 answer stands, and every string key is as before.
  pub execute_refused_ttl :
      (req : Validated ExecuteRequest) (g : Gateway Db)
      → IsRefused config.job_ttl_seconds
      → (execute r config manifests ambient req g).0.status ≡ 202
      → view (execute r config manifests ambient req g).1.db
        ≡ Keyspace.lpush job_queue ambient.job_id (view g.db)
  execute_refused_ttl req g h s =
      let (a, after) = view-accepted r config manifests ambient req g s in
      after
      ∙ ap (Keyspace.lpush job_queue ambient.job_id) (
          set_ex_refused config.job_ttl_seconds _ _ _ h
          ∙ set_ex_refused config.job_ttl_seconds _ _ _ h)

  lists-set_ex :
      (n : Number) (k : String) (v : Stored) (s : Keyspace)
      → (Keyspace.set_ex k v n s).lists ≡ s.lists
  lists-set_ex nan k v s = refl
  lists-set_ex (int (negsuc n)) k v s = refl
  lists-set_ex (int (pos zero)) k v s = refl
  lists-set_ex (int (pos (suc n))) k v s = refl

  pub length-written :
      (m : Manifest) (req : ExecuteRequest) (s : Keyspace)
      → Keyspace.llen job_queue (written config ambient m req s) ≡ suc (Keyspace.llen job_queue s)
  length-written m req s =
      let ttl = config.job_ttl_seconds in
      ap (λ l. suc (length (l job_queue)))
        (lists-set_ex ttl (job_status ambient.job_id) _ _
          ∙ lists-set_ex ttl (job_spec ambient.job_id) _ s)

  pub room_for_one :
      (len n : ℕ) (cap : Number) → cap ≡ int (pos n) → ge_number len cap ≡ false → suc len ≤ n
  room_for_one len n cap e h = ground arith

  -- Where MAX_QUEUE_DEPTH is the natural number `n` and the queue has at most `n` entries, it has at
  -- most `n` after any request, with nothing else running in between.
  pub execute_bound :
      (req : Validated ExecuteRequest) (g : Gateway Db) (n : ℕ)
      → config.max_queue_depth ≡ int (pos n)
      → Keyspace.llen job_queue (view g.db) ≤ n
      → Keyspace.llen job_queue (view (execute r config manifests ambient req g).1.db) ≤ n
  execute_bound req g n e h =
      elim (ℕ_discrete (execute r config manifests ambient req g).0.status 202) [
        | yes s ↦
            let (a, after) = view-accepted r config manifests ambient req g s in
            let (_, room) = (execute-accepted_iff r config manifests ambient req g).0 s in
            let grown = length-written a.manifest a.body (view g.db) in
            subst (λ (len : ℕ). len ≤ n) (sym (ap (Keyspace.llen job_queue) after ∙ grown))
              (room_for_one (Keyspace.llen job_queue (view g.db)) n config.max_queue_depth e room)
        | no s ↦ rw (execute_rejected r config manifests ambient req g s) h
      ]
