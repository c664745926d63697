-- ===== src/Tests/Batches.antt =====
-- A batch of two episodes on concrete children.
use rvln.Prelude.{
  ℕ, zero, suc, ◌≡◌, refl, Bool, true, false, String, Option, some, none, List, [], ◌∷◌, ok, raise,
  type_error, str_eq, inl, inr, arith,
}
use rvln.Float.{zero_f}
use rvln.Edge.Json.{
  ℤ, pos, Json, null, boolean, integer, number, text, object, Members, member, no_member, Library,
  get, truthy, int_of, to_size,
}
use rvln.Bench.Batch.{
  TraceFile, absent, readable, Job, Plan, Manifest, timed_out, Child, Batch, open_attempt_log,
  is_done, run_jobs, run_job, attempts, attempt, run_child, free_number, read_row, is_over,
  check_row, is_expected, is_optional,
}
use rvln.Bench.Policy.{is_text}
use rvln.Bench.Session.Serves.{str_eq_refl}
use rvln.Bench.Batch.Summary.{
  Numbers, Summary, summarize, load_row, check_rows, check_split, summary_of, is_single, hashable,
  item_of, item_or_null,
}
use rvln.Bench.Batch.Running.{
  Arguments, run_batch, run_plan, traces_of, open_manifest, check_arguments, new_manifest,
}
use rvln.Bench.Batch.Covers.{run_batch-IsDone}
use rvln.Bench.Batch.Resume.{run_batch-stale_error, run_batch-again}
use rvln.Bench.Batch.Recovers.{Recovers, run_jobs-completed}

abbrev first : Job
first = record { episode_id = "1"; scene_id = "s"; usd_sha256 = "u" }

abbrev second : Job
second = record { episode_id = "2"; scene_id = "s"; usd_sha256 = "u" }

abbrev jobs : List Job
jobs = first ∷ second ∷ []

abbrev plan : Plan
plan = record {
  split_sha256 = "h";
  policy_id = "m";
  policy_split_sha256 = none;
  startup_retries = 1;
}

abbrev done_row : Job → Members
done_row job = member "status" (text "completed") (
    member "episode_id" (text job.episode_id) (
      member "scene_id" (text job.scene_id) (
        member "usd_sha256" (text job.usd_sha256) (
          member "policy_id" (text "m") (
            member "split_sha256" (text "h") (
              member "metric_namespace" (text "isaac_r2r_transfer") (
                member "success" (boolean true) (
                  member "spl" (number zero_f) (
                    member "navigation_error_m" (number zero_f)
                      (member "blocked_steps" (integer (pos 0)) no_member))))))))))

-- A child that ends early as long as the world says so.
abbrev run_kid : Job → TraceFile → ℕ → Option ℤ × TraceFile × ℕ
run_kid job file zero = (some (pos 0), readable (object (done_row job)), zero)
run_kid job file (suc n) =
    (some (pos 9), readable (object (member "status" (text "started") no_member)), n)

abbrev kid : Child ℕ
kid = record { run = run_kid }

abbrev same_json : Json → Json → Bool
same_json (text s) (text t) = str_eq s t
same_json null null = true
same_json v w = false

abbrev print : Json → String
print (text s) = s
print v = ""

abbrev json_library : Library
json_library = record {
  loads = λ s. raise type_error;
  int_of_float = λ f. raise type_error;
  int_of_text = λ s. raise type_error;
  str_of = print;
  b64decode = λ v. raise type_error;
}

abbrev numbers : Numbers
numbers = record {
  same = same_json;
  float_of = λ v. ok zero_f;
  rate = λ bs. zero_f;
  mean = λ fs. zero_f;
  sum = λ ns. pos 0;
}

abbrev new_arguments : Arguments
new_arguments = record {
  max_steps = pos 10;
  episode_timeout = pos 60;
  startup_retries = pos 1;
  resume = false;
  out_dir_exists = false;
  recorded = none;
}

abbrev start : Batch ℕ
start = record { world = 1; traces = λ index. absent; logs = []; manifest = new_manifest }

abbrev final : Batch ℕ
final = (run_batch kid json_library numbers (λ s. s) plan new_arguments jobs start).1

abbrev summary : Summary
summary = record {
  split_sha256 = "h";
  episodes = 2;
  scenes = 1;
  success_rate = zero_f;
  spl = zero_f;
  navigation_error_m = zero_f;
  blocked_steps = pos 0;
  policy_split_sha256 = null;
  policy_id = text "m";
}

final-summary :
    run_batch kid json_library numbers (λ s. s) plan new_arguments jobs start ≡ (ok summary, final)
unfolding run_batch check_arguments open_manifest run_plan run_jobs run_job is_done attempts attempt
    run_child open_attempt_log free_number read_row is_over check_row is_expected is_optional
    is_text get traces_of summarize load_row check_rows check_split summary_of is_single hashable
    item_of item_or_null truthy int_of to_size
final-summary = refl

run_batch-IsDone_example :
    (is_done plan second (final.traces 1) ≡ ok true)
    × (final.manifest.status ≡ "completed")
    × (final.manifest.completed_episodes ≡ 2)
run_batch-IsDone_example =
    run_batch-IsDone json_library numbers kid (λ s. s) plan new_arguments jobs start final summary 1
      second final-summary refl

abbrev resumed : Arguments
resumed = record new_arguments { resume = true; recorded = some (true, final.manifest) }

run_batch-again_example :
    run_batch kid json_library numbers (λ s. s) plan resumed jobs final ≡ (ok summary, final)
unfolding check_arguments open_manifest to_size
run_batch-again_example =
    run_batch-again kid json_library numbers (λ s. s) plan new_arguments resumed jobs start final
      summary final-summary refl refl

-- The second child wrote its row, and then timed out.
abbrev failed_manifest : Manifest
failed_manifest = record {
  status = "error";
  completed_episodes = 1;
  failed_episode_id = some "2";
  error = some timed_out;
  startup_retry_counts = [];
}

abbrev failed : Batch ℕ
failed = record final { manifest = failed_manifest }

abbrev after_failure : Arguments
after_failure = record new_arguments { resume = true; recorded = some (true, failed_manifest) }

abbrev finished : Batch ℕ
finished = record final {
  manifest = record failed_manifest { status = "completed"; completed_episodes = 2 };
}

run_batch-stale_error_example :
    (finished.manifest.status ≡ "completed")
    × (finished.manifest.failed_episode_id ≡ some "2")
    × (finished.manifest.error ≡ some timed_out)
    × (finished.traces ≡ failed.traces)
    × (finished.logs ≡ failed.logs)
unfolding run_batch check_arguments open_manifest run_plan run_jobs run_job is_done attempts attempt
    run_child open_attempt_log free_number read_row is_over check_row is_expected is_optional
    is_text get traces_of summarize load_row check_rows check_split summary_of is_single hashable
    item_of item_or_null truthy int_of to_size
run_batch-stale_error_example =
    run_batch-stale_error kid json_library numbers (λ s. s) plan after_failure jobs failed finished
      summary failed_manifest refl (refl, (refl, tt)) refl

-- Two attempts have a log already.
third_log : open_attempt_log 0 ((0, 1) ∷ (0, 0) ∷ (1, 2) ∷ []) ≡ some 2
unfolding open_attempt_log free_number
third_log = refl

kid-Recovers : (job : Job) → Recovers kid (λ w. w) plan job
unfolding is_expected is_optional is_text get read_row is_over
kid-Recovers job file zero = inl (
  refl,
  (
    done_row job,
    refl,
    ground
        (arith, str_eq_refl job.episode_id, str_eq_refl job.scene_id, str_eq_refl job.usd_sha256),
  ),
  omega arith,
)
kid-Recovers job file (suc n) =
    inr ((pos 9, refl), (member "status" (text "started") no_member, refl, refl), omega arith)

run_jobs-completed_example : (b' : Batch ℕ) × (run_jobs kid plan 0 jobs start ≡ (ok tt, b'))
unfolding is_done
run_jobs-completed_example =
    run_jobs-completed kid (λ w. w) plan 0 jobs start ((false, refl), ((false, refl), tt))
      (kid-Recovers first, (kid-Recovers second, tt)) (omega arith)
