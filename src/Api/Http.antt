-- ===== src/Api/Http.antt =====
-- What the handlers share: an HTTP response, the hook of `zValidator` for a body that does not fit
-- its schema, and the counters of apps/api/src/metrics.ts beside the Redis database.
use code_runner.Prelude.{ℕ, String, List, join}
use code_runner.Prelude.Json.{Json, str, arr, obj, end, field, array}
use code_runner.Prelude.State.{State}

pub record Response : Type 0 where
  pub status : ℕ
  pub body : Json

-- an issue that zod reports, its path as texts
pub record Issue : Type 0 where
  pub path : List String
  pub message : String

-- What `zValidator` hands on: the parsed body, or the issues.
pub data Validated {ℓ} (A : Type ℓ) : Type ℓ where
  invalid : List Issue → Validated A
  valid : A → Validated A

issue_json : Issue → Json
issue_json i = obj (field "path" (str (join "." i.path)) (field "message" (str i.message) end))

unfoldable pub validation_error : List Issue → Response
unfolding issue_json
validation_error issues = record {
  status = 400;
  body = obj (
      field "error" (str "Validation error") (field "details" (arr (array issue_json issues)) end));
}

-- admissionRejections, and ratelimitRejections by its `reason`
pub record Metrics : Type 0 where
  pub admission_rejected : ℕ
  pub frame_rate_rejected : ℕ
  pub byte_cap_rejected : ℕ

pub record Gateway {ℓ} (D : Type ℓ) : Type ℓ where
  pub db : D
  pub metrics : Metrics

-- a Redis command of a handler, one that writes and one that only reads
abbrev pub command {ℓ} : {D : Type ℓ} → (D → D) → State (Gateway D) (Unit {0})
command f g = (tt, record g { db = f g.db })

abbrev pub query {ℓ κ} : {D : Type ℓ} {A : Type κ} → (D → A) → State (Gateway D) A
query f g = (f g.db, g)

-- a command that writes and replies
abbrev pub reply {ℓ κ} : {D : Type ℓ} {A : Type κ} → (D → A × D) → State (Gateway D) A
reply f g = ((f g.db).0, record g { db = (f g.db).1 })
