-- ===== src/Bench/Batch/Running.antt =====
-- bench/src/isaac_r2r/batch.py, `run_batch`: its checks, the manifest that it starts from, the
-- episodes and the summary. The split and its scenes are loaded before, and compared by hash.
use rvln.Prelude.{
  ℕ, ◌+◌, Bool, true, false, not, ◌&&◌, ◌||◌, ◌==◌, String, Option, none, some, List, [], ◌∷◌,
  length, str_eq, if◌then◌else◌, Result, ok, raise, value_error, other_error,
}
use rvln.Bench.Calls.{Call, pure, lift, raise_if, ◌>>=◌}
use rvln.Edge.Json.{ℤ, to_size, negsuc, text, Library}
use rvln.Bench.Batch.{TraceFile, Job, Plan, Manifest, Child, Batch, write_manifest, run_jobs}
use rvln.Bench.Batch.Summary.{Numbers, Summary, summarize}

-- The arguments of the call, and what it finds in the directory: with `resume` the manifest of an
-- earlier call, with whether its plan equals this one, and without, whether the directory exists.
pub record Arguments : Type 0 where
  pub max_steps : ℤ
  pub episode_timeout : ℤ
  pub startup_retries : ℤ
  pub resume : Bool
  pub out_dir_exists : Bool
  pub recorded : Option (Bool × Manifest)

abbrev pub is_negative : ℤ → Bool
is_negative (negsuc n) = true
is_negative n = false

-- `strip` is `str.strip`.
unfoldable pub check_arguments : (String → String) → Plan → Arguments → List Job → Bool
check_arguments strip p a jobs =
    not (str_eq (strip p.policy_id) "")
    && (not (to_size a.max_steps == 0 || to_size a.episode_timeout == 0)
        && (not (is_negative a.startup_retries) && not (length jobs == 0)))

abbrev pub new_manifest : Manifest
new_manifest = record {
  status = "running";
  completed_episodes = 0;
  failed_episode_id = none;
  error = none;
  startup_retry_counts = [];
}

unfoldable pub open_manifest : Arguments → Result Manifest
open_manifest a = if a.resume then resumed a.recorded else created a.out_dir_exists
  where
    resumed : Option (Bool × Manifest) → Result Manifest
    resumed none = raise value_error
    resumed (some (same_plan, m)) = if same_plan then ok m else raise value_error

    created : Bool → Result Manifest
    created exists = if exists then raise other_error else ok new_manifest

-- The traces of the episodes from `index` on.
unfoldable pub traces_of : (ℕ → TraceFile) → ℕ → List Job → List TraceFile
traces_of traces index [] = []
traces_of traces index (job ∷ rest) = traces index ∷ traces_of traces (index + 1) rest

abbrev pub scenes_of : List Job → List (String × String)
scenes_of [] = []
scenes_of (job ∷ rest) = (job.episode_id, job.scene_id) ∷ scenes_of rest

abbrev pub complete : ℕ → Manifest → Manifest
complete n m = record m { completed_episodes = n; status = "completed" }

module _ {W : Type 0} (child : Child W) (j : Library) (num : Numbers) where
  abbrev summarize_traces : Plan → List Job → Call (Batch W) Summary
  summarize_traces p jobs b =
      (summarize j num (traces_of b.traces 0 jobs) (scenes_of jobs) p.split_sha256, b)

  -- From the manifest on.
  unfoldable pub run_plan : Plan → List Job → Call (Batch W) Summary
  run_plan p jobs = run_jobs child p 0 jobs >>= λ u. summarize_traces p jobs >>= λ result.
      write_manifest (complete (length jobs)) >>= λ v.
      pure (record result { policy_id = text p.policy_id })

  unfoldable pub run_batch :
      (String → String) → Plan → Arguments → List Job → Call (Batch W) Summary
  run_batch strip p a jobs = raise_if (not (check_arguments strip p a jobs)) >>= λ u.
      lift (open_manifest a) >>= λ m. write_manifest (λ old. m) >>= λ v.
      run_plan (record p { startup_retries = to_size a.startup_retries }) jobs
