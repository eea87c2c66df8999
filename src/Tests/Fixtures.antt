-- ===== src/Tests/Fixtures.antt =====
-- A Python manifest, a configuration, a request and an empty database for the tests.
use code_runner.Prelude.{true, false, none, some, [], ◌∷◌}
use code_runner.Prelude.Int.{pos, int}
use code_runner.Keyspace.{Keyspace}
use code_runner.Redis.Memory.{empty}
use code_runner.Contract.{Manifest, Limits, ExecuteRequest, FileInput}
use code_runner.Api.Http.{Gateway}
use code_runner.Api.Config.{Config}
use code_runner.Api.Execute.{Ambient}

abbrev pub limits : Limits
limits = record {
  wall_time_ms = 30000;
  idle_ms = 10000;
  cpu_ms = 5000;
  memory_mb = 256;
  pids = 64;
  output_kb = 1024;
  max_artifacts = 4;
  max_artifact_bytes = 1000000;
}

abbrev pub python : Manifest
python = record {
  language = "python";
  version = "3.12";
  aliases = "py" ∷ "python3" ∷ [];
  image = "code-runner/python";
  entrypoint = "main.py";
  compile = none;
  run = "python" ∷ "main.py" ∷ [];
  interactive = true;
  preimport = none;
  default_limits = limits;
}

abbrev pub config : Config
config = record {
  executor_api_token = "secret";
  redis_url = "redis://localhost";
  api_port = int (pos 8080);
  languages_dir = "/languages";
  soketi_host = "localhost";
  soketi_port = int (pos 6001);
  soketi_use_tls = false;
  soketi_app_id = "code-runner";
  soketi_app_key = "code-runner-key";
  soketi_app_secret = "";
  enable_channel_auth = false;
  max_queue_depth = int (pos 2);
  max_files_bytes = int (pos 1000);
  job_ttl_seconds = int (pos 3600);
  blob_store_configured = false;
  blob_s3_endpoint = "";
  blob_s3_bucket = "";
  blob_s3_access_key_id = "";
  blob_s3_secret_access_key = "";
  blob_s3_region = "us-east-1";
  blob_s3_use_ssl = false;
  blob_idle_ttl_seconds = int (pos 86400);
  blob_upload_url_ttl_seconds = int (pos 900);
}

abbrev pub main_py : FileInput
main_py = record { name = "src/main.py"; content = some "print(1)"; encoding = none; ref = none }

abbrev pub escaping : FileInput
escaping = record { name = "../main.py"; content = some "print(1)"; encoding = none; ref = none }

abbrev pub request : ExecuteRequest
request = record {
  language = "py";
  version = none;
  files = main_py ∷ [];
  limits = none;
  collect_output = none;
}

abbrev pub ambient : Ambient
ambient = record { job_id = "job-1"; now_ms = 1000; traceparent = none; tracestate = none }

abbrev pub idle : Gateway Keyspace
idle = record {
  db = empty;
  metrics = record { admission_rejected = 0; frame_rate_rejected = 0; byte_cap_rejected = 0 };
}
