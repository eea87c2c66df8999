-- ===== src/Api/Execute/Effects.antt =====
-- What POST /v1/execute does to Redis: nothing unless the job is accepted, and then exactly the
-- spec, the status and one entry of the queue.
use code_runner.Prelude.{
  ℕ, ◌+◌, ◌↔◌, ◌∙◌, String, true, false, Option, none, some, List, ◌≡◌, ◌≢◌, refl, sym, ap, arith,
}
use code_runner.Prelude.Int.{ge_number, gt_number}
use code_runner.Prelude.Result.{Result, ok, err}
use code_runner.Keyspace
use code_runner.Keyspace.{Keyspace, Stored}
use code_runner.Redis.{Redis}
use code_runner.Contract.{
  Manifest, ExecuteRequest, spec_json, status_json, job_spec, job_status, job_queue,
}
use code_runner.Contract.Manifests.{resolve_manifest}
use code_runner.Api.Http.{Validated, invalid, valid, Issue, Gateway, validation_error}
use code_runner.Api.Config.{Config}
use code_runner.Api.Files.{validate_files, FileValidationError}
use code_runner.Api.Execute.{
  Ambient, execute, admit, enqueue, checked, resolved, accepted, build_spec, initial_status,
  unresolved, bad_file, too_large,
}

module _ (r : Redis) (config : Config) (manifests : List Manifest) (ambient : Ambient) where
  open r use {Db, view, llen}

  -- A request that passes every check in front of the capacity check.
  pub record IsAdmissible (req : Validated ExecuteRequest) : Type 0 where
    pub body : ExecuteRequest
    pub parsed : req ≡ valid body
    pub manifest : Manifest
    pub found : resolve_manifest manifests body.language body.version ≡ ok manifest
    pub files : (validate_files body.files).error ≡ none
    pub size : gt_number (validate_files body.files).total_bytes config.max_files_bytes ≡ false

  admit-rejected :
      (m : Manifest) (req : ExecuteRequest) (g : Gateway Db)
      → (admit r config manifests ambient m req g).0.status ≢ 202
      → (admit r config manifests ambient m req g).1.db ≡ g.db
  unfolding admit accepted
  admit-rejected m req g h = ground arith

  checked-rejected :
      (m : Manifest) (req : ExecuteRequest) (g : Gateway Db) (total : ℕ)
      (e : Option FileValidationError)
      → (checked r config manifests ambient m req total e g).0.status ≢ 202
      → (checked r config manifests ambient m req total e g).1.db ≡ g.db
  unfolding checked
  checked-rejected m req g total none h = ground (arith, admit-rejected m req g)
  checked-rejected m req g total (some e) h = refl

  resolved-rejected :
      (req : ExecuteRequest) (g : Gateway Db) (m : Result String Manifest)
      → (resolved r config manifests ambient req m g).0.status ≢ 202
      → (resolved r config manifests ambient req m g).1.db ≡ g.db
  unfolding resolved
  resolved-rejected req g (err msg) h = refl
  resolved-rejected req g (ok m) h = checked-rejected m req g _ _ h

  -- A request that is not answered by 202 leaves the Redis database as it was.
  pub execute_rejected :
      (req : Validated ExecuteRequest) (g : Gateway Db)
      → (execute r config manifests ambient req g).0.status ≢ 202
      → (execute r config manifests ambient req g).1.db ≡ g.db
  unfolding execute
  execute_rejected (invalid issues) g h = refl
  execute_rejected (valid req) g h = resolved-rejected req g _ h

  -- the answers in front of the capacity check
  early :
      (c : ℕ)
      → c ≢ 400
      → c ≢ 413
      → (issues : List Issue) (req : ExecuteRequest) (msg : String) (e : FileValidationError)
        (total : ℕ)
      → ((validation_error issues).status ≢ c)
        × ((unresolved req msg).status ≢ c)
        × ((bad_file e).status ≢ c)
        × ((too_large total config.max_files_bytes).status ≢ c)
  unfolding validation_error unresolved bad_file too_large
  early c h k issues req msg e total = ground arith

  checked-late :
      (c : ℕ) (m : Manifest) (req : ExecuteRequest) (g : Gateway Db) (total : ℕ)
      (e : Option FileValidationError)
      → c ≢ 400
      → c ≢ 413
      → (checked r config manifests ambient m req total e g).0.status ≡ c
      → (e ≡ none)
        × (gt_number total config.max_files_bytes ≡ false)
        × (checked r config manifests ambient m req total e g
            ≡ admit r config manifests ambient m req g)
  unfolding checked bad_file too_large
  checked-late c m req g total none h k s = ground arith
  checked-late c m req g total (some e) h k s = absurd (h (sym s))

  -- A request with an answer other than 400 and 413 got as far as the capacity check.
  record IsLate (req : Validated ExecuteRequest) (g : Gateway Db) : Type 0 where
    admissible : IsAdmissible req
    same :
        execute r config manifests ambient req g
        ≡ admit r config manifests ambient admissible.manifest admissible.body g

  execute-IsLate :
      (c : ℕ) (req : Validated ExecuteRequest) (g : Gateway Db)
      → c ≢ 400
      → c ≢ 413
      → (execute r config manifests ambient req g).0.status ≡ c
      → IsLate req g
  unfolding execute resolved unresolved validation_error
  execute-IsLate c (invalid issues) g h k s = absurd (h (sym s))
  execute-IsLate c (valid req) g h k s =
      go (resolve_manifest manifests req.language req.version) refl s
    where
      go :
          (m : Result String Manifest)
          → resolve_manifest manifests req.language req.version ≡ m
          → (resolved r config manifests ambient req m g).0.status ≡ c
          → IsLate (valid req) g
      go (err msg) e t = absurd (h (sym t))
      go (ok m) e t =
          let (no_error, small, same) = checked-late c m req g _ _ h k t in
          record {
            admissible = record {
              body = req;
              parsed = refl;
              manifest = m;
              found = e;
              files = no_error;
              size = small;
            };
            same = ap (λ z. resolved r config manifests ambient req z g) e ∙ same;
          }

  -- An admissible request reaches the capacity check.
  pub execute-admit :
      (req : Validated ExecuteRequest) (g : Gateway Db) (a : IsAdmissible req)
      → execute r config manifests ambient req g
        ≡ admit r config manifests ambient a.manifest a.body g
  unfolding execute resolved checked
  execute-admit req g a =
      rw (a.parsed, execute, a.found, resolved) (rw (a.files, checked) (rw a.size))

  admit-accepted :
      (m : Manifest) (req : ExecuteRequest) (g : Gateway Db)
      → ((admit r config manifests ambient m req g).0.status ≡ 202)
        ↔ (ge_number (llen job_queue g.db) config.max_queue_depth ≡ false)
  unfolding admit accepted
  admit-accepted m req g = ground arith

  -- 202 is the answer exactly to an admissible request that finds the queue below its maximum.
  pub execute-accepted_iff :
      (req : Validated ExecuteRequest) (g : Gateway Db)
      → ((execute r config manifests ambient req g).0.status ≡ 202) ↔ (
          IsAdmissible req
          × (ge_number (Keyspace.llen job_queue (view g.db)) config.max_queue_depth ≡ false))
  execute-accepted_iff req g = (to, from)
    where
      to :
          (execute r config manifests ambient req g).0.status ≡ 202
          → IsAdmissible req
            × (ge_number (Keyspace.llen job_queue (view g.db)) config.max_queue_depth ≡ false)
      to s =
          let late = execute-IsLate 202 req g (omega arith) (omega arith) s in
          (
            late.admissible,
            rw (← r.llen_lem) (
                (admit-accepted late.admissible.manifest late.admissible.body g).0
                  (rw late.same at s)),
          )

      from :
          IsAdmissible req
            × (ge_number (Keyspace.llen job_queue (view g.db)) config.max_queue_depth ≡ false)
          → (execute r config manifests ambient req g).0.status ≡ 202
      from (a, room) =
          rw (execute-admit req g a) ((admit-accepted a.manifest a.body g).1 (rw r.llen_lem room))

  admit-full :
      (m : Manifest) (req : ExecuteRequest) (g : Gateway Db)
      → (admit r config manifests ambient m req g).0.status ≡ 429
      → (ge_number (llen job_queue g.db) config.max_queue_depth ≡ true)
        × ((admit r config manifests ambient m req g).1.metrics
            ≡ record g.metrics { admission_rejected = g.metrics.admission_rejected + 1 })
  unfolding admit accepted
  admit-full m req g h = ground arith

  -- 429 is only the answer to an admissible request that finds the queue at its maximum: a request
  -- that is malformed, or names no language, or has bad or too large files, never gets it. The
  -- rejection is counted once.
  pub execute-full :
      (req : Validated ExecuteRequest) (g : Gateway Db)
      → (execute r config manifests ambient req g).0.status ≡ 429
      → IsAdmissible req
        × (ge_number (Keyspace.llen job_queue (view g.db)) config.max_queue_depth ≡ true)
        × ((execute r config manifests ambient req g).1.metrics
            ≡ record g.metrics { admission_rejected = g.metrics.admission_rejected + 1 })
  execute-full req g s =
      let late = execute-IsLate 429 req g (omega arith) (omega arith) s in
      let (full, counted) =
        admit-full late.admissible.manifest late.admissible.body g (rw late.same at s) in
      (late.admissible, rw (← r.llen_lem) full, rw late.same counted)

  pub admit-written :
      (m : Manifest) (req : ExecuteRequest) (g : Gateway Db)
      → (admit r config manifests ambient m req g).0.status ≡ 202
      → admit r config manifests ambient m req g ≡ enqueue r config manifests ambient m req g
  unfolding admit
  admit-written m req g h = ground arith

  pub enqueue-view :
      (m : Manifest) (req : ExecuteRequest) (g : Gateway Db)
      → view (enqueue r config manifests ambient m req g).1.db
        ≡ Keyspace.lpush job_queue ambient.job_id (
            Keyspace.set_ex
              (job_status ambient.job_id)
              (Stored.json (status_json (initial_status ambient m)))
              config.job_ttl_seconds
              (Keyspace.set_ex
                (job_spec ambient.job_id)
                (Stored.json (spec_json (build_spec ambient m req)))
                config.job_ttl_seconds
                (view g.db)))
  unfolding enqueue
  enqueue-view m req g = rw (r.view-lpush, r.view-set_ex) (rw r.view-set_ex)
