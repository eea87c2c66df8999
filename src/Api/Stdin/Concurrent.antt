-- ===== src/Api/Stdin/Concurrent.antt =====
-- apps/api/src/ratelimit.ts and the stdin route with several frames of one job in flight: the byte
-- cap counts a chunk in one round trip to Redis, and publishes it or takes it off the counter again
-- in a later one.
pub mod Moves
pub mod Cap
use Prim.Native.String.{len}
use code_runner.Prelude.{ℕ, ◌+◌, String, ◌==◌, List, [], ◌∷◌, ◌≡◌, if◌then◌else◌}
use code_runner.Prelude.Json.{Json, str, obj, end, field}
use code_runner.Prelude.State.{State, ◌>>=◌, ◌>>◌, pure}
use code_runner.Prelude.Slots.{System}
use code_runner.Keyspace.{Keyspace}
use code_runner.Redis.{Redis}
use code_runner.Contract.{stdin_channel}
use code_runner.Api.Http.{Gateway, command, reply}
use code_runner.Api.Stdin.{
  pending_bytes_key, stdin_pending_byte_cap, exceeds, reject_bytes, publish_stdin,
}

-- Where the route stands with its chunk: in front of the cap, or past its test, which the chunk
-- fits or exceeds.
pub data Phase : Type 0 where
  free : Phase
  arrived fitting exceeding : String → Phase

-- the bytes of the chunk that a message carries
abbrev pub chunk_bytes : Json → ℕ
chunk_bytes (obj (field name (str chunk) end)) = if name == "chunk" then len chunk else 0
chunk_bytes _ = 0

-- the bytes that are published on a channel
abbrev pub sent : String → List (String × Json) → ℕ
sent channel [] = 0
sent channel ((c, message) ∷ messages) =
    (if c == channel then chunk_bytes message else 0) + sent channel messages

module _ (r : Redis) (job_id : String) where
  open r use {Db, view, incrby, expire}

  -- one round trip to Redis
  unfoldable pub advance : Phase → State (Gateway Db) Phase
  advance Phase.free = pure Phase.free
  advance (Phase.arrived chunk) = do
    total ← reply (incrby (pending_bytes_key job_id) (len chunk))
    command (expire (pending_bytes_key job_id) 300)
    pure (
        if exceeds total stdin_pending_byte_cap then Phase.exceeding chunk else Phase.fitting chunk)
  advance (Phase.fitting chunk) = do publish_stdin r job_id chunk; pure Phase.free
  advance (Phase.exceeding chunk) = do reject_bytes r job_id (len chunk); pure Phase.free

  pub data Move (g : Gateway Db) : Phase → Gateway Db → Phase → Type 0 where
    arrive : (chunk : String) → Move g Phase.free g (Phase.arrived chunk)
    go : (p : Phase) → Move g p (advance p g).1 (advance p g).0

  -- The bytes of stdin that the job has been sent.
  abbrev pub sent_bytes : Gateway Db → ℕ
  sent_bytes g = sent (stdin_channel job_id) (view g.db).published

  -- What others do: the counter is not theirs, and neither is the job's stdin.
  abbrev pub Leaves : Gateway Db → Gateway Db → Type 0
  Leaves g h =
      ((view h.db).strings (pending_bytes_key job_id)
        ≡ (view g.db).strings (pending_bytes_key job_id))
      × (sent_bytes h ≡ sent_bytes g)

  abbrev pub Frames : Type 0
  Frames = System (Gateway Db) Phase
