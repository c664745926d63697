-- ===== src/Bench/Batch.antt =====
-- bench/src/isaac_r2r/batch.py: a batch of episodes, each in a child process that writes its trace
-- to a file of its own, with retries of a child that ends before its episode does, and with the
-- manifest of the batch. The children are a parameter, with a world of their own.
pub mod Summary
pub mod Running
pub mod Rows
pub mod Covers
pub mod Retries
pub mod Recovers
pub mod Resume
use rvln.Prelude.{
  ℕ, zero, suc, ◌+◌, Bool, true, false, not, ◌&&◌, ◌||◌, ◌==◌, ltb, String, Option, none, some,
  List, [], ◌∷◌, length, str_eq, if◌then◌else◌, Result, ok, raise, value_error, attribute_error,
  runtime_error,
}
use rvln.Bench.Calls.{Call, pure, lift, ◌>>=◌, ◌>>◌}
use rvln.Edge.Json.{ℤ, pos, negsuc, Json, null, object, Members, no_member, get, to_size}
use rvln.Bench.Policy.{is_text}

-- A trace as `path.is_file()`, `read_text` and `json.loads` find it.
pub data TraceFile : Type 0 where
  absent : TraceFile
  unreadable : TraceFile
  readable : Json → TraceFile

-- An episode, with the hashes that the plan has for it.
pub record Job : Type 0 where
  pub episode_id : String
  pub scene_id : String
  pub usd_sha256 : String

pub record Plan : Type 0 where
  pub split_sha256 : String
  pub policy_id : String
  pub policy_split_sha256 : Option String
  pub startup_retries : ℕ

-- The text of the manifest's `error`.
pub data Failure : Type 0 where
  timed_out : Failure
  child_exit : ℤ → Option Json → Failure

pub record Manifest : Type 0 where
  pub status : String
  pub completed_episodes : ℕ
  pub failed_episode_id : Option String
  pub error : Option Failure
  pub startup_retry_counts : List (String × ℕ)

-- `subprocess.run` of the command for an episode: the exit code, unless it timed out, and the
-- trace that it leaves in the place of the one it found.
pub record Child (W : Type 0) : Type 0 where
  pub run : Job → TraceFile → W → Option ℤ × TraceFile × W

-- The world of the children, the traces and the logs by the episode's index, a log also by the
-- number in its name, and the manifest as it is written.
pub record Batch (W : Type 0) : Type 0 where
  pub world : W
  pub traces : ℕ → TraceFile
  pub logs : List (ℕ × ℕ)
  pub manifest : Manifest

abbrev pub set_trace : ℕ → TraceFile → (ℕ → TraceFile) → ℕ → TraceFile
set_trace index file traces j = if j == index then file else traces j

-- `row.get(key) == value`, where the value may be None.
unfoldable pub is_optional : Option Json → Option String → Bool
is_optional v (some s) = is_text v s
is_optional none none = true
is_optional (some null) none = true
is_optional (some v) none = false

-- A row of another type than a dict has no `get`.
unfoldable pub read_row : TraceFile → Result Members
read_row (readable (object row)) = ok row
read_row (readable v) = raise attribute_error
read_row unreadable = ok no_member
read_row absent = ok no_member

unfoldable pub is_expected : Plan → Job → Members → Bool
is_expected p job row =
    is_text (get "status" row) "completed"
    && (is_text (get "episode_id" row) job.episode_id
        && (is_text (get "scene_id" row) job.scene_id
            && (is_text (get "usd_sha256" row) job.usd_sha256
                && (is_text (get "policy_id" row) p.policy_id
                    && is_optional (get "policy_split_sha256" row) p.policy_split_sha256))))

-- An earlier run has completed the episode under the same plan.
unfoldable pub is_done : Plan → Job → TraceFile → Result Bool
is_done p job absent = ok false
is_done p job unreadable = ok false
is_done p job (readable v) =
    let r = read_row (readable v) in
    elim r [
      | raise e ↦ raise e
      | ok row ↦ ok (is_expected p job row && is_text (get "split_sha256" row) p.split_sha256)
    ]

-- The episode has ended: only a trace before that is retried.
unfoldable pub is_over : Members → Bool
is_over row = is_text (get "status" row) "completed" || is_text (get "status" row) "error"

abbrev pub has_log : ℕ → ℕ → List (ℕ × ℕ) → Bool
has_log index number [] = false
has_log index number (log ∷ rest) = (log.0 == index && log.1 == number) || has_log index number rest

-- More than any number of a log.
abbrev pub above : List (ℕ × ℕ) → ℕ
above [] = 0
above (log ∷ rest) = if ltb log.1 (above rest) then above rest else log.1 + 1

-- The first number from `number` on whose name is free, looking at as many as the fuel allows.
unfoldable pub free_number : ℕ → ℕ → ℕ → List (ℕ × ℕ) → Option ℕ
free_number zero index number logs = none
free_number (suc fuel) index number logs =
    let rest = free_number fuel index (number + 1) logs in
    if has_log index number logs then rest else some number

unfoldable pub open_attempt_log : ℕ → List (ℕ × ℕ) → Option ℕ
open_attempt_log index logs = free_number (suc (above logs)) index 0 logs

abbrev pub exit_zero : ℤ → Bool
exit_zero (pos n) = n == 0
exit_zero (negsuc n) = false

abbrev pub write_manifest : {W : Type 0} → (Manifest → Manifest) → Call (Batch W) Unit
write_manifest f b = (ok tt, record b { manifest = f b.manifest })

abbrev pub fail_with : String → Failure → Manifest → Manifest
fail_with id e m = record m { status = "error"; failed_episode_id = some id; error = some e }

-- `manifest.setdefault("startup_retry_counts", {})[episode_id] = count`
abbrev pub set_count : String → ℕ → List (String × ℕ) → List (String × ℕ)
set_count id n [] = (id, n) ∷ []
set_count id n (c ∷ rest) = if str_eq c.0 id then (id, n) ∷ rest else c ∷ set_count id n rest

abbrev pub note_retry : String → ℕ → Manifest → Manifest
note_retry id n m = record m { startup_retry_counts = set_count id n m.startup_retry_counts }

abbrev pub note_completed : ℕ → Manifest → Manifest
note_completed n m = record m {
  completed_episodes = n;
  status = "running";
  failed_episode_id = none;
  error = none;
}

module _ {W : Type 0} (child : Child W) (p : Plan) where
  -- One run of the child under a new log: its exit code, unless it timed out.
  unfoldable pub run_child : ℕ → Job → Batch W → Option ℤ × Batch W
  run_child index job b =
      let number : ℕ = elim (open_attempt_log index b.logs) [ none ↦ 0 | some n ↦ n ] in
      let (code, file, world) = child.run job (b.traces index) b.world in
      (
        code,
        record b {
          world = world;
          traces = set_trace index file b.traces;
          logs = (index, number) ∷ b.logs;
        },
      )

  -- An attempt, its exit code and the row that it left.
  unfoldable pub attempt : ℕ → Job → Call (Batch W) (ℤ × Members)
  attempt index job b =
      let (code, b') = run_child index job b in
      elim code [
        | none ↦ (
          raise runtime_error,
          record b' { manifest = fail_with job.episode_id timed_out b'.manifest },
        )
        | some n ↦ elim (read_row (b'.traces index)) [
          | raise e ↦ (raise e, b')
          | ok row ↦ (ok (n, row), b')
        ]
      ]

  -- The attempts, with as many retries as are left, after those that the manifest counts.
  unfoldable pub attempts : ℕ → ℕ → ℕ → Job → Call (Batch W) (ℤ × Members)
  attempts zero count index job = attempt index job
  attempts (suc left) count index job = do
    r ← attempt index job
    if is_over r.1
        then pure r
        else (write_manifest (note_retry job.episode_id (count + 1)) >>= λ u.
            attempts left (count + 1) index job)

  -- The child must exit with zero and leave a completed row of this plan.
  unfoldable pub check_row : ℕ → Job → ℤ × Members → Call (Batch W) Unit
  check_row index job (code, row) b =
      if exit_zero code && is_expected p job row
      then (ok tt, record b { manifest = note_completed (index + 1) b.manifest })
      else (
        raise runtime_error,
        record b {
          manifest = fail_with job.episode_id (child_exit code (get "error" row)) b.manifest;
        },
      )

  unfoldable pub run_job : ℕ → Job → Call (Batch W) Unit
  run_job index job b = elim (is_done p job (b.traces index)) [
    | raise e ↦ (raise e, b)
    | ok true ↦ (ok tt, b)
    | ok false ↦ (attempts p.startup_retries 0 index job >>= check_row index job) b
  ]

  -- The episodes from `index` on.
  unfoldable pub run_jobs : ℕ → List Job → Call (Batch W) Unit
  run_jobs index [] = pure tt
  run_jobs index (job ∷ rest) = run_job index job >>= λ u. run_jobs (index + 1) rest
