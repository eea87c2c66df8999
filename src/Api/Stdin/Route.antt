-- ===== src/Api/Stdin/Route.antt =====
-- The whole stdin route: what is published, and what is counted.
use Prim.Native.String.{len}
use text.Mathlib.TextLemmas.{append_cancel_left}
use code_runner.Prelude.{
  ℕ, ◌+◌, ◌/◌, String, ◌&&◌, [], ◌∷◌, ◌≡◌, ◌≢◌, inl, inr, refl, sym, ap, ◌∙◌, arith, Bool-cases,
  leb, ltb, if◌then◌else◌, show, drop_prefix,
}
use code_runner.Prelude.Dropping.{drop_prefix-append}
use mathlib.Core.List
use mathlib.Core.Path.{subst}
use code_runner.Keyspace
use code_runner.Keyspace.{Keyspace}
use code_runner.Redis.{Redis}
use code_runner.Contract.{stdin_channel}
use code_runner.Api.Http.{Response, valid, Gateway}
use code_runner.Api.Stdin.{
  rate_limit_key, pending_bytes_key, publish_stdin, validated_stdin, post_stdin, chunk_json,
  stdin_rate_limit_frames, stdin_pending_byte_cap,
}
use code_runner.Api.Stdin.Guards.{Reads, stdin_rate_limit_exact, stdin_byte_cap_check_exact}

-- The two counters of a job are different keys.
pending-ne-rate :
    (job_id : String) (now_ms : ℕ) → pending_bytes_key job_id ≢ rate_limit_key job_id now_ms
unfolding pending_bytes_key rate_limit_key drop_prefix
pending-ne-rate job_id now_ms e = cc (
  ap (drop_prefix ":stdin_rate:") (append_cancel_left job_id _ _ (append_cancel_left "job:" _ _ e)),
  drop_prefix-append ":stdin_rate:" (show (now_ms / 1000)),
)

module _ (r : Redis) (job_id : String) where
  open r use {Db, view}

  -- What the chunk leaves: accepted, it is published and pending; refused, neither.
  abbrev pub Delivered : String → ℕ → Gateway Db → Response × Gateway Db → Type 0
  Delivered chunk n g out =
      (out.0.status ≡ 200)
      × ((view out.1.db).published
          ≡ List.◌++◌ (view g.db).published ((stdin_channel job_id, chunk_json chunk) ∷ []))
      × Reads (pending_bytes_key job_id) (n + len chunk) (view out.1.db)

  abbrev pub Refused : ℕ → Gateway Db → Response × Gateway Db → Type 0
  Refused n g out =
      (out.0.status ≡ 429)
      × ((view out.1.db).published ≡ (view g.db).published)
      × Reads (pending_bytes_key job_id) n (view out.1.db)

  Reads-moved :
      (k : String) (n : ℕ) (s t : Keyspace) → t.strings k ≡ s.strings k → Reads k n s → Reads k n t
  Reads-moved k n s t e h = ground arith

  pub view-published :
      (chunk : String) (g : Gateway Db)
      → view (publish_stdin r job_id chunk g).1.db
        ≡ Keyspace.publish (stdin_channel job_id) (chunk_json chunk) (view g.db)
  unfolding publish_stdin
  view-published chunk g = r.view-publish (stdin_channel job_id) (chunk_json chunk) g.db

  publish-Delivered :
      (chunk : String) (n : ℕ) (g g' : Gateway Db)
      → (view g'.db).published ≡ (view g.db).published
      → Reads (pending_bytes_key job_id) (n + len chunk) (view g'.db)
      → Delivered chunk n g (publish_stdin r job_id chunk g')
  unfolding publish_stdin
  publish-Delivered chunk n g g' same h =
      (refl, rw (view-published chunk g') (rw same), rw (view-published chunk g') h)

  checked-chunk :
      (chunk : String) (n : ℕ) (g g' : Gateway Db)
      → job_id ≢ ""
      → (view g'.db).published ≡ (view g.db).published
      → Reads (pending_bytes_key job_id) n (view g'.db)
      → (if leb (n + len chunk) stdin_pending_byte_cap then Delivered chunk n g else Refused n g)
          (validated_stdin r job_id (valid chunk) g')
  unfolding validated_stdin
  checked-chunk chunk n g g' named same h =
      let (g2, (_, quiet), rest) =
        stdin_byte_cap_check_exact r job_id n chunk (publish_stdin r job_id chunk) g' named h in
      elim (Bool-cases (leb (n + len chunk) stdin_pending_byte_cap)) [
        | inl fits ↦
            let (pending, _, done) = rw fits at rest in
            rw fits (
              subst (λ out. Delivered chunk n g out) (sym done)
                (publish-Delivered chunk n g g2 (quiet ∙ same) pending))
        | inr full ↦
            let (pending, _, done) = rw full at rest in
            rw full (subst (λ out. Refused n g out) (sym done) (refl, quiet ∙ same, pending))
      ]

  -- A valid chunk for a job, its id not empty, whose frame counter reads `m` in this window and whose pending bytes
  -- read `n`: if `m` is below 30 and the chunk fits under the cap of pending bytes, it is published
  -- on the job's stdin channel, counted as pending and answered by 200; if not, it is answered by
  -- 429, nothing is published, and `n` bytes are pending as before.
  pub post_stdin_exact :
      (now_ms m n : ℕ) (chunk : String) (g : Gateway Db)
      → job_id ≢ ""
      → Reads (rate_limit_key job_id now_ms) m (view g.db)
      → Reads (pending_bytes_key job_id) n (view g.db)
      → (if ltb m stdin_rate_limit_frames && leb (n + len chunk) stdin_pending_byte_cap
            then Delivered chunk n g
            else Refused n g)
          (post_stdin r job_id now_ms (valid chunk) g)
  unfolding post_stdin
  post_stdin_exact now_ms m n chunk g named rate pending =
      let (g', _, (kept, quiet), _, outcome) =
        stdin_rate_limit_exact r job_id now_ms m (validated_stdin r job_id (valid chunk)) g named
          rate in
      let pending' =
        Reads-moved (pending_bytes_key job_id) n (view g.db) (view g'.db)
          (kept (pending_bytes_key job_id) (pending-ne-rate job_id now_ms)) pending in
      elim (Bool-cases (ltb m stdin_rate_limit_frames)) [
        | inl passes ↦ rw passes (
            subst
              (λ out.
                (if leb (n + len chunk) stdin_pending_byte_cap
                    then Delivered chunk n g
                    else Refused n g)
                  out)
              (sym (rw passes at outcome)) (checked-chunk chunk n g g' named quiet pending'))
        | inr stopped ↦
            rw stopped
              (subst (λ out. Refused n g out) (sym (rw stopped at outcome)) (refl, quiet, pending'))
      ]
