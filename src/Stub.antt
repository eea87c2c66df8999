-- ===== src/Stub.antt =====
-- apps/stub/src/index.ts: the end-to-end driver, which plays the part of an application. It submits
-- a program, subscribes to the job's channel, and answers what it is told there. Its callbacks are
-- run one at a time; an `await` ends a callback, and the answer to the request is an event of its
-- own. The texts that it logs are left out.
pub mod Posts
pub mod Steps
pub mod Verdict
use Prim.Native.String.{◌++◌}
use mathlib.Core.List
use code_runner.Prelude.{
  ℕ, String, Bool, true, false, not, ◌&&◌, ◌||◌, Option, none, some, List, [], ◌∷◌, ◌==◌, eqb, leb,
  includes, or_default, show, if◌then◌else◌,
}
use code_runner.Prelude.Json.{Json, str, obj, end, field}
use code_runner.Prelude.Result.{Result, ok, err}
use code_runner.Contract.{ResultEvent, channel_for_job}

-- `signChannel`; the hexadecimal HMAC with SHA-256 is a parameter, of the secret and the text.
unfoldable pub sign_channel :
    (String → String → String) → String → String → String → String → String
sign_channel hmac_hex app_key app_secret socket_id channel_name =
    app_key ++ (":" ++ hmac_hex app_secret (socket_id ++ (":" ++ channel_name)))

-- A request of the driver beside the first.
pub data Post : Type 0 where
  start stdin stdin_close : Post

unfoldable pub path_of : String → Post → String
path_of job_id Post.start = "/v1/jobs/" ++ (job_id ++ "/start")
path_of job_id Post.stdin = "/v1/jobs/" ++ (job_id ++ "/stdin")
path_of job_id Post.stdin_close = "/v1/jobs/" ++ (job_id ++ "/stdin/close")

unfoldable pub body_of : Post → Option Json
body_of Post.stdin = some (obj (field "chunk" (str "World\n") end))
body_of _ = none

-- What `fetch` answers.
pub record PostResponse : Type 0 where
  pub status : ℕ
  pub text : String
  pub content_type : Option String

-- `apiPost` from the answer on; what `res.json()` makes of a text is a parameter
unfoldable pub api_post : (String → Result String Json) → String → PostResponse → Result String Json
api_post json_parse path res =
    if not (leb 200 res.status && leb res.status 299)
    then err ("POST " ++ (path ++ (" failed: HTTP " ++ (show res.status ++ (": " ++ res.text)))))
    else if includes (or_default res.content_type "") "application/json"
    then json_parse res.text
    else ok (str res.text)

-- What the promise of `run` comes to.
pub data Outcome : Type 0 where
  resolved : Outcome
  rejected : String → Outcome

-- Where the stdout handler that has seen the prompt awaits an answer, with its chunk.
pub data Suspended : Type 0 where
  nowhere : Suspended
  at_stdin at_close : String → Suspended

pub record Driver : Type 0 where
  pub saw_hello_world : Bool
  pub start_sent : Bool
  pub stdin_sent : Bool
  pub close_sent : Bool
  pub posts : List Post
  pub handler : Suspended
  pub timer_set : Bool
  pub connected : Bool
  pub settled : Option Outcome

pub data Event : Type 0 where
  subscription_error connection_error : String → Event
  subscription_succeeded stage stderr timeout : Event
  stdout : (chunk : String) → Event
  start_answered stdin_answered close_answered : Result String Json → Event
  result : ResultEvent → Event

-- when the callbacks are bound
unfoldable pub bound : Driver
bound = record {
  saw_hello_world = false;
  start_sent = false;
  stdin_sent = false;
  close_sent = false;
  posts = [];
  handler = Suspended.nowhere;
  timer_set = true;
  connected = true;
  settled = none;
}

-- `run` up to the promise: the job is there, and its channel is the expected one
unfoldable pub executed : Result String (String × String) → Result String Driver
executed (err e) = err e
executed (ok (job_id, channel)) =
    if channel == channel_for_job job_id
    then ok bound
    else err ("Channel mismatch: got " ++ (channel ++ (", expected " ++ channel_for_job job_id)))

-- a promise keeps the outcome that it has
unfoldable pub settle : Outcome → Driver → Driver
settle o s = record s { settled = some (or_default s.settled o) }

-- `clearTimeout` and `disconnect`
unfoldable pub stop : Driver → Driver
stop s = record s { timer_set = false; connected = false }

unfoldable pub fail : String → Driver → Driver
unfolding settle stop
fail message s = settle (Outcome.rejected message) (stop s)

-- the expected output
unfoldable pub is_hello : String → Bool
is_hello chunk = includes chunk "hello World" || includes chunk "hello world"

unfoldable pub look : String → Driver → Driver
unfolding is_hello
look chunk s = if is_hello chunk then record s { saw_hello_world = true } else s

abbrev send : Post → Driver → Driver
send post s = record s { posts = List.◌++◌ s.posts (post ∷ []) }

unfoldable pub on_subscribed : Driver → Driver
on_subscribed s = if s.start_sent then s else send Post.start (record s { start_sent = true })

unfoldable pub on_start_answered : Result String Json → Driver → Driver
unfolding fail
on_start_answered (ok answer) s = s
on_start_answered (err e) s = fail e s

unfoldable pub on_stdout : String → Driver → Driver
unfolding look
on_stdout chunk s =
    if not s.stdin_sent && includes chunk "name?"
    then send Post.stdin (record s { stdin_sent = true; handler = Suspended.at_stdin chunk })
    else look chunk s

-- the stdout handler from the answer to its first request on
unfoldable pub on_stdin_answered : Suspended → Result String Json → Driver → Driver
unfolding fail look
on_stdin_answered (Suspended.at_stdin chunk) (err e) s =
    fail e (record s { handler = Suspended.nowhere })
on_stdin_answered (Suspended.at_stdin chunk) (ok answer) s =
    if s.close_sent
    then look chunk (record s { handler = Suspended.nowhere })
    else send Post.stdin_close (record s { close_sent = true; handler = Suspended.at_close chunk })
on_stdin_answered _ answer s = s

-- an error is passed over
unfoldable pub on_close_answered : Suspended → Driver → Driver
unfolding look
on_close_answered (Suspended.at_close chunk) s =
    look chunk (record s { handler = Suspended.nowhere })
on_close_answered _ s = s

unfoldable pub reason : ResultEvent → String
reason r =
    if r.timed_out
    then "wall-timeout"
    else if r.idle_timed_out
    then "idle-timeout"
    else signal_reason (or_default r.signal "")
  where
    signal_reason : String → String
    signal_reason signal = if signal == "" then "exit" else "signal:" ++ signal

abbrev exit_text : Option ℕ → String
exit_text none = "null"
exit_text (some n) = show n

-- exit code 0, and neither timeout
unfoldable pub is_clean : ResultEvent → Bool
is_clean r = is_zero r.exit_code && not r.idle_timed_out && not r.timed_out
  where
    is_zero : Option ℕ → Bool
    is_zero none = false
    is_zero (some n) = eqb n 0

unfoldable pub verdict : ResultEvent → Bool → Outcome
unfolding is_clean reason
verdict r saw_hello_world =
    if not (is_clean r)
    then Outcome.rejected
        ("E2E FAIL: exitCode=" ++ (exit_text r.exit_code ++ (" reason=" ++ reason r)))
    else if not saw_hello_world
    then Outcome.rejected "E2E FAIL: did not see \"hello World\" in streamed stdout"
    else Outcome.resolved

unfoldable pub on_result : ResultEvent → Driver → Driver
unfolding settle stop verdict
on_result r s = settle (verdict r s.saw_hello_world) (stop s)

module _ (channel : String) (e2e_timeout_ms : ℕ) where
  -- a timer that is cleared does not fire
  unfoldable pub on_timeout : Driver → Driver
  unfolding fail
  on_timeout s =
      if s.timer_set
      then fail ("E2E timeout after " ++ (show e2e_timeout_ms ++ "ms — did not see result event")) s
      else s

  unfoldable pub handle : Event → Driver → Driver
  unfolding on_subscribed on_start_answered on_stdout on_stdin_answered on_close_answered on_result
      on_timeout fail settle
  handle (Event.subscription_error e) s =
      fail ("Subscription error on " ++ (channel ++ (": " ++ e))) s
  handle Event.subscription_succeeded s = on_subscribed s
  handle (Event.start_answered answer) s = on_start_answered answer s
  handle Event.stage s = s
  handle (Event.stdout chunk) s = on_stdout chunk s
  handle (Event.stdin_answered answer) s = on_stdin_answered s.handler answer s
  handle (Event.close_answered answer) s = on_close_answered s.handler s
  handle Event.stderr s = s
  handle (Event.result r) s = on_result r s
  handle (Event.connection_error e) s =
      settle (Outcome.rejected ("Pusher connection error: " ++ e)) (record s { timer_set = false })
  handle Event.timeout s = on_timeout s

  unfoldable pub run : List Event → Driver → Driver
  unfolding handle
  run [] s = s
  run (e ∷ es) s = run es (handle e s)
