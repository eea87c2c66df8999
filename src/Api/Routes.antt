-- ===== src/Api/Routes.antt =====
-- The requests that the gateway serves, by the route that each one is for (apps/api/src/app.ts and the
-- route files that it registers).
use code_runner.Prelude.{ℕ, String, Option, List}
use code_runner.Contract.{ExecuteRequest}
use code_runner.Contract.Manifests.{Environment}
use code_runner.Api.Http.{Response, Validated}
use code_runner.Api.Execute.{Ambient}
use code_runner.Prelude.Json.{Json}

-- The routes below /v1, each with what its handler reads of the request.
pub data Endpoint : Type 0 where
  languages unmatched : Endpoint
  execute : Validated ExecuteRequest → Endpoint
  job job_status job_output start stdin_close kill : (id : String) → Endpoint
  stdin : (id : String) → Validated String → Endpoint
  blobs_check blobs_finalize : Validated (List String) → Endpoint
  channel_auth : Option Json → Endpoint

pub data Route : Type 0 where
  health metrics unmatched : Route
  v1 : Endpoint → Route

-- A request, with the clock, the random id and the manifest files as they are while it is served.
pub record Incoming : Type 0 where
  pub route : Route
  pub authorization : Option String
  pub ambient : Ambient
  pub files : Environment

-- `c.json`, and `c.text` of the scrape endpoint
pub data Reply : Type 0 where
  json : Response → Reply
  text : ℕ → String → Reply
