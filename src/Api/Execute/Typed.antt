-- ===== src/Api/Execute/Typed.antt =====
-- What POST /v1/execute writes, against the schemas of the contract: whatever the schema of the body
-- lets through, with manifests that their own schema let through, the worker can decode.
use mathlib.Core.Path.{subst}
use mathlib.Core.List.{map}
use code_runner.Prelude.{
  ℕ, suc, String, Bool, true, false, ◌&&◌, Option, none, some, List, [], ◌∷◌, ◌≡◌, refl, sym, ap,
  ◌∙◌, All, all, find, leb, Bool-cases, Option-cases, inl, inr, length, or_default, arith,
}
use code_runner.Prelude.Int.{pos, int}
use code_runner.Prelude.Json.{Json}
use code_runner.Prelude.Result.{ok}
use code_runner.Keyspace.{Keyspace, Stored}
use code_runner.Redis.{Redis}
use code_runner.Contract.{
  Limits, LimitsOverride, Manifest, ExecuteRequest, FileInput, spec_json, status_json, job_spec,
  job_status, channel_for_job,
}
use code_runner.Contract.Manifests.{resolve_manifest}
use code_runner.Contract.Manifests.Resolution.{Agree, is_asked_for, resolve_manifest-find}
use code_runner.Api.Http.{Validated, valid, Gateway}
use code_runner.Api.Config.{Config}
use code_runner.Api.Execute.{
  Ambient, execute, merge_limits, build_spec, initial_status, accepted, enqueue,
}
use code_runner.Api.Execute.Effects.{IsAdmissible, execute-admit, admit-written}
use code_runner.Api.Execute.Queue.{execute-IsQueued}
use code_runner.Schemas.{
  execute_request_schema, manifest_schema, job_spec_schema, job_status_schema,
  execute_response_schema,
}
use code_runner.Schemas.Zod.{Schema, verdict-some, has_length, IsZod}
use code_runner.Schemas.Fit.{if_given, limits_fit, override_fits, file_fits, with_encoding}
use code_runner.Schemas.Requests.{
  request_json, request_fits, with_defaults, manifest_json, manifest_fits, parse-request_json,
  parse-manifest_json,
}
use code_runner.Schemas.Jobs.{
  spec_fits, with_encodings, parse-spec_json, parse-status_json, parse-response_json,
}

-- overrides over defaults, value by value
abbrev merged : List (Option ℕ) → List ℕ → List ℕ
merged [] ds = []
merged (o ∷ os) [] = []
merged (o ∷ os) (d ∷ ds) = or_default o d ∷ merged os ds

all-merged :
    (os : List (Option ℕ)) (ds : List ℕ)
    → all (if_given (leb 1)) os ≡ true
    → all (leb 1) ds ≡ true
    → all (leb 1) (merged os ds) ≡ true
all-merged [] ds h k = refl
all-merged (o ∷ os) [] h k = refl
all-merged (none ∷ os) (d ∷ ds) h k = ground (arith, all-merged os ds)
all-merged (some n ∷ os) (d ∷ ds) h k = ground (arith, all-merged os ds)

limits_fit-merge_limits :
    (l : Limits) (o : Option LimitsOverride)
    → limits_fit l ≡ true
    → if_given override_fits o ≡ true
    → limits_fit (merge_limits l o) ≡ true
unfolding merge_limits
limits_fit-merge_limits l none h k = h
limits_fit-merge_limits l (some o) h k =
    all-merged
      (o.wall_time_ms ∷ o.idle_ms ∷ o.cpu_ms ∷ o.memory_mb ∷ o.pids ∷ o.output_kb ∷ o.max_artifacts
        ∷ o.max_artifact_bytes ∷ [])
      (l.wall_time_ms ∷ l.idle_ms ∷ l.cpu_ms ∷ l.memory_mb ∷ l.pids ∷ l.output_kb ∷ l.max_artifacts
        ∷ l.max_artifact_bytes ∷ [])
      k h

length-map-with_encoding : (fs : List FileInput) → length (map with_encoding fs) ≡ length fs
length-map-with_encoding [] = refl
length-map-with_encoding (f ∷ fs) = ap suc (length-map-with_encoding fs)

all-map-with_encoding :
    (fs : List FileInput) → all file_fits (map with_encoding fs) ≡ all file_fits fs
all-map-with_encoding [] = refl
all-map-with_encoding (f ∷ fs) = ap (λ b. file_fits f && b) (all-map-with_encoding fs)

map-with_encoding_idem :
    (fs : List FileInput) → map with_encoding (map with_encoding fs) ≡ map with_encoding fs
map-with_encoding_idem [] = refl
map-with_encoding_idem (f ∷ fs) = ap (λ r. with_encoding f ∷ r) (map-with_encoding_idem fs)

last_two : (a b c d : Bool) → (a && b && c && d) ≡ true → (c ≡ true) × (d ≡ true)
last_two true true c d h = (ground arith, ground arith)
last_two true false c d h = cc
last_two false b c d h = cc

and_both :
    {a b c d : Bool} → a ≡ true → b ≡ true → c ≡ true → d ≡ true → (a && (b && c) && d) ≡ true
and_both h k l m = rw (h, k, l, m)

spec_fits-build_spec :
    (ambient : Ambient) (m : Manifest) (req : ExecuteRequest)
    → manifest_fits m ≡ true
    → request_fits req ≡ true
    → spec_fits (build_spec ambient m (with_defaults req)) ≡ true
unfolding spec_fits build_spec with_defaults request_fits manifest_fits
spec_fits-build_spec ambient m req h k =
    let (ran, defaults) =
      last_two
        (has_length 1 none m.language && has_length 1 none m.version && has_length 1 none m.image)
        (has_length 1 none m.entrypoint) (leb 1 (length m.run)) (limits_fit m.default_limits) h in
    let (files, limits) =
      last_two true (has_length 1 none req.language)
        (leb 1 (length req.files) && all file_fits req.files) (if_given override_fits req.limits)
        k in
    let (some_file, each_file) =
      last_two true true (leb 1 (length req.files)) (all file_fits req.files) files in
    and_both ran (ap (leb 1) (length-map-with_encoding req.files) ∙ some_file)
      (all-map-with_encoding req.files ∙ each_file)
      (limits_fit-merge_limits m.default_limits req.limits defaults limits)

with_encodings-build_spec :
    (ambient : Ambient) (m : Manifest) (req : ExecuteRequest)
    → with_encodings (build_spec ambient m (with_defaults req))
      ≡ build_spec ambient m (with_defaults req)
unfolding with_encodings build_spec with_defaults
with_encodings-build_spec ambient m req =
    ap (λ fs. record (build_spec ambient m (with_defaults req)) { files = fs })
      (map-with_encoding_idem req.files)

All-find :
    (P : Manifest → Type 0) (p : Manifest → Bool) (ms : List Manifest) (m : Manifest)
    → All P ms
    → find p ms ≡ some m
    → P m
All-find P p [] m h e = absurd (cc)
All-find P p (n ∷ ms) m h e = elim (Bool-cases (p n)) [
  | inl t ↦ let same : n ≡ m = ground arith in subst P same h.0
  | inr f ↦ All-find P p ms m h.1 (ground arith)
]

pub answer_of_admissible :
    (r : Redis) (config : Config) (manifests : List Manifest) (ambient : Ambient)
    (req : Validated ExecuteRequest) (g : Gateway (Redis.Db r))
    (a : IsAdmissible r config manifests ambient req)
    → (execute r config manifests ambient req g).0.status ≡ 202
    → (execute r config manifests ambient req g).0 ≡ accepted ambient
unfolding enqueue
answer_of_admissible r config manifests ambient req g a s =
    let same = execute-admit r config manifests ambient req g a in
    ap (λ o. o.0)
      (same ∙ admit-written r config manifests ambient a.manifest a.body g (rw same at s))

-- The job is stored, and the spec, the status and the answer pass the schemas that name them, with
-- nothing changed by the parse.
pub record IsTyped (parse : Schema → Json → Option Json) (id : String) (new : Keyspace)
    (answer : Json) : Type 0 where
  pub spec : Json
  pub stored_spec : new.strings (job_spec id) ≡ some (Stored.json spec)
  pub spec_parses : parse job_spec_schema spec ≡ some spec
  pub status : Json
  pub stored_status : new.strings (job_status id) ≡ some (Stored.json status)
  pub status_parses : parse job_status_schema status ≡ some status
  pub answer_parses : parse execute_response_schema answer ≡ some answer

module _ (parse : Schema → Json → Option Json) (zod : IsZod parse) where
  abbrev pub Loaded : List Manifest → Type 0
  Loaded ms = All (λ m. parse manifest_schema (manifest_json m) ≡ some (manifest_json m)) ms

  manifest_fits-found :
      (ms : List Manifest) (language : String) (version : Option String) (m : Manifest)
      → Loaded ms
      → resolve_manifest ms language version ≡ ok m
      → manifest_fits m ≡ true
  manifest_fits-found ms language version m loaded e =
      let agree =
        subst (λ t. Agree t (find (is_asked_for language version) ms)) e
          (resolve_manifest-find ms language version) in
      elim (Option-cases (find (is_asked_for language version) ms)) [
        | inl missing ↦ absurd (subst (Agree (ok m)) missing agree)
        | inr (n, found) ↦
            let same : m ≡ n = subst (Agree (ok m)) found agree in
            verdict-some _ (manifest_json m) (manifest_json m) (
              sym (parse-manifest_json parse zod m)
              ∙ subst (λ k. parse manifest_schema (manifest_json k) ≡ some (manifest_json k))
                  (sym same) (All-find _ (is_asked_for language version) ms n loaded found))
      ]

  spec-IsParsed :
      (ambient : Ambient) (m : Manifest) (req : ExecuteRequest)
      → manifest_fits m ≡ true
      → request_fits req ≡ true
      → let v = spec_json (build_spec ambient m (with_defaults req)) in
        parse job_spec_schema v ≡ some v
  spec-IsParsed ambient m req h k =
      parse-spec_json parse zod (build_spec ambient m (with_defaults req))
      ∙ rw (spec_fits-build_spec ambient m req h k, with_encodings-build_spec ambient m req)

  answer-IsParsed :
      (ambient : Ambient)
      → parse execute_response_schema (accepted ambient).body ≡ some (accepted ambient).body
  unfolding accepted
  answer-IsParsed ambient =
      parse-response_json parse zod ambient.job_id (channel_for_job ambient.job_id)

  -- Whatever request passes ExecuteRequestSchema, where every loaded manifest passes ManifestSchema
  -- and JOB_TTL is positive: a 202 answer means that the spec and the status stored for the job pass
  -- JobSpecSchema and JobStatusSchema unchanged, and that the answer passes ExecuteResponseSchema.
  pub execute-IsTyped :
      (r : Redis) (config : Config) (manifests : List Manifest) (ambient : Ambient)
      (req : ExecuteRequest) (g : Gateway (Redis.Db r)) (seconds : ℕ)
      → Loaded manifests
      → parse execute_request_schema (request_json req) ≡ some (request_json (with_defaults req))
      → config.job_ttl_seconds ≡ int (pos (suc seconds))
      → let out = execute r config manifests ambient (valid (with_defaults req)) g in
        out.0.status ≡ 202 → IsTyped parse ambient.job_id (r.view out.1.db) out.0.body
  execute-IsTyped r config manifests ambient req g seconds loaded sent e s =
      let body = with_defaults req in
      let (a, q) = execute-IsQueued r config manifests ambient (valid body) g seconds e s in
      let same : a.body ≡ body = ground (arith, a.parsed) in
      let fits = verdict-some _ _ _ (sym (parse-request_json parse zod req) ∙ sent) in
      let fit = manifest_fits-found manifests _ _ a.manifest loaded a.found in
      let replied = answer_of_admissible r config manifests ambient (valid body) g a s in
      record {
        spec = spec_json (build_spec ambient a.manifest body);
        stored_spec =
            q.spec
            ∙ ap (λ b. some (Stored.json (spec_json (build_spec ambient a.manifest b)))) same;
        spec_parses = spec-IsParsed ambient a.manifest req fit fits;
        status = status_json (initial_status ambient a.manifest);
        stored_status = q.status;
        status_parses = parse-status_json parse zod (initial_status ambient a.manifest);
        answer_parses =
            subst (λ v. parse execute_response_schema v ≡ some v) (sym (ap (λ t. t.body) replied))
              (answer-IsParsed ambient);
      }
