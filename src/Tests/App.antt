-- ===== src/Tests/App.antt =====
-- The theorems on the whole gateway at concrete inputs.
use Prim.Native.String.{◌++◌}
use code_runner.Prelude.{true, String, ℕ, Option, none, some, List, [], ◌∷◌, ◌≡◌, refl}
use code_runner.Prelude.Json.{Json, str}
use code_runner.Prelude.Result.{Result, ok, err}
use code_runner.Redis.Memory.{memory}
use code_runner.Keyspace.{Keyspace}
use code_runner.Contract.Manifests.{Environment}
use code_runner.Api.Http.{Response}
use code_runner.Prelude.Int.{pos, int}
use code_runner.Api.Presign.{before_slash, parse_endpoint}
use code_runner.Api.Presign.Roundtrip.{scheme, location, parse_endpoint-location}
use code_runner.Api.Routes.{Endpoint, Route, Incoming}
use code_runner.Api.App.{AppState, main, serve}
use code_runner.Api.App.Guarded.{AreRefusals, serve-AreRefusals}
use code_runner.Tests.Fixtures.{python, config, ambient, idle}

abbrev presign : String → ℕ → String
presign hash seconds = hash

abbrev authorize : Json → String → Result String Json
authorize socket channel = err "no key"

abbrev not_found : Response
not_found = record { status = 404; body = str "404 Not Found" }

-- one manifest on disk, and none
abbrev python_files : Environment
python_files = record {
  readdir = λ dir. ok ("python" ∷ []);
  manifest_path = λ dir entry. dir ++ ("/" ++ (entry ++ "/manifest.json"));
  read_file = λ path. some "{}";
  json_parse = λ text. ok (str text);
  safe_parse = λ json. ok python;
}

abbrev no_files : Environment
no_files = record python_files { readdir = λ dir. err "ENOENT" }

abbrev incoming : Route → Option String → Incoming
incoming route header = record {
  route = route;
  authorization = header;
  ambient = ambient;
  files = no_files;
}

abbrev strangers : List Incoming
strangers =
    incoming (Route.v1 (Endpoint.kill "job-1")) none
    ∷ incoming Route.health none
    ∷ incoming (Route.v1 (Endpoint.start "job-1")) (some "Bearer guess")
    ∷ []

abbrev started : AppState Keyspace
started = record { manifests = some []; gateway = idle }

no_path : before_slash "/" ≡ ""
unfolding before_slash
no_path = refl

serve-AreRefusals_example :
    AreRefusals memory config
      (λ s. s)
      presign
      60
      30
      authorize
      not_found
      strangers
      (serve memory config (λ s. s) presign 60 30 authorize not_found strangers started).0
    × ((serve memory config (λ s. s) presign 60 30 authorize not_found strangers started).1
        ≡ started)
serve-AreRefusals_example =
    serve-AreRefusals memory config (λ s. s) presign 60 30 authorize not_found strangers started
      (λ e. cc) (λ s e. e) ((λ e. cc), ((λ e. cc), ((λ e. cc), tt)))

starts : (main python_files config.languages_dir idle).0 ≡ ok (python ∷ [])
unfolding main code_runner.Contract.Manifests.load_manifests
    code_runner.Contract.Manifests.load_entries code_runner.Contract.Manifests.load_entry
starts = refl

parse_endpoint-location_example :
    parse_endpoint (scheme true ++ location "s3.example.com" 8443 "/")
    ≡ record { end_point = "s3.example.com"; port = int (pos 8443); use_ssl = true }
parse_endpoint-location_example =
    parse_endpoint-location true "s3.example.com" 8443 "/" refl no_path
