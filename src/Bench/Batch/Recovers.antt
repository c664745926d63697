-- ===== src/Bench/Batch/Recovers.antt =====
-- A batch whose children end early now and then, but not too often.
use rvln.Prelude.{
  ℕ, zero, suc, ◌+◌, ◌≤◌, ◌<◌, ◌≡◌, ◌⊎◌, ◌==◌, refl, sym, subst, Bool, true, false, inl, inr, List,
  [], ◌∷◌, Option, some, All, ok, arith,
}
use rvln.Edge.Json.{ℤ, pos, object, Members}
use rvln.Bench.Batch.{
  TraceFile, readable, Job, Plan, Child, Batch, is_expected, is_done, is_over, run_child, attempt,
  attempts, check_row, run_job, run_jobs, write_manifest, note_retry, read_row,
}
use rvln.Bench.Batch.Rows.{run_job-Keeps}

-- What a run of the child leaves: a completed row of the plan, or, at the expense of one of the
-- early ends that the world has left, a trace that says neither completed nor error.
abbrev pub IsCompleted : {W : Type 0} → (W → ℕ) → Plan → Job → W → Option ℤ × TraceFile × W → Type 0
IsCompleted ends p job w (code, file, w') =
    (code ≡ some (pos 0))
    × ((row : Members) × (file ≡ readable (object row)) × (is_expected p job row ≡ true))
    × (ends w' ≤ ends w)

abbrev pub IsEarly : {W : Type 0} → (W → ℕ) → W → Option ℤ × TraceFile × W → Type 0
IsEarly ends w (code, file, w') =
    ((n : ℤ) × (code ≡ some n))
    × ((row : Members) × (read_row file ≡ ok row) × (is_over row ≡ false))
    × (ends w' < ends w)

abbrev pub Recovers : {W : Type 0} → Child W → (W → ℕ) → Plan → Job → Type 0
Recovers {W = W} child ends p job =
    (file : TraceFile) (w : W)
    → IsCompleted ends p job w (child.run job file w) ⊎ IsEarly ends w (child.run job file w)

-- The traces that are there can be read, and are objects.
abbrev pub AllReads : Plan → ℕ → List Job → (ℕ → TraceFile) → Type 0
AllReads p index [] traces = Unit
AllReads p index (job ∷ rest) traces =
    ((d : Bool) × (is_done p job (traces index) ≡ ok d)) × AllReads p (index + 1) rest traces

AllReads-of_later :
    (p : Plan) (index : ℕ) (jobs : List Job) (traces traces' : ℕ → TraceFile)
    → ((k : ℕ) → index ≤ k → traces' k ≡ traces k)
    → AllReads p index jobs traces
    → AllReads p index jobs traces'
AllReads-of_later p index [] traces traces' same reads = tt
AllReads-of_later p index (job ∷ rest) traces traces' same reads =
    let (d, e) = reads.0 in
    (
      (d, subst (λ f. is_done p job f ≡ ok d) (sym (same index (omega arith))) e),
      AllReads-of_later p (index + 1) rest traces traces' (λ k h. same k (omega arith)) reads.1,
    )

expected-over :
    (p : Plan) (job : Job) (row : Members) → is_expected p job row ≡ true → is_over row ≡ true
unfolding is_expected is_over
expected-over p job row h = ground arith

module _ {W : Type 0} (child : Child W) (ends : W → ℕ) (p : Plan) where
  attempt-completed :
      (index : ℕ) (job : Job) (b : Batch W)
      → IsCompleted ends p job b.world (child.run job (b.traces index) b.world)
      → (row : Members) × (b' : Batch W) × (attempt child p index job b ≡ (ok (pos 0, row), b'))
        × (is_expected p job row ≡ true)
        × (ends b'.world ≤ ends b.world)
  unfolding attempt run_child read_row
  attempt-completed index job b h =
      let (code, (row, file, expected), fewer) = h in
      let place : (index == index) ≡ true = ground arith in
      (row, (attempt child p index job b).1, ground arith, expected, ground arith)

  attempt-early :
      (index : ℕ) (job : Job) (b : Batch W)
      → IsEarly ends b.world (child.run job (b.traces index) b.world)
      → (r : ℤ × Members) × (b' : Batch W) × (attempt child p index job b ≡ (ok r, b'))
        × (is_over r.1 ≡ false)
        × (ends b'.world < ends b.world)
  unfolding attempt run_child
  attempt-early index job b h =
      let ((n, code), (row, file, early), fewer) = h in
      let place : (index == index) ≡ true = ground arith in
      ((n, row), (attempt child p index job b).1, ground arith, early, ground arith)

  attempts-completed :
      (left count index : ℕ) (job : Job) (b : Batch W)
      → Recovers child ends p job
      → ends b.world ≤ left
      → (row : Members) × (b' : Batch W) × (attempts child p left count index job b
          ≡ (ok (pos 0, row), b'))
        × (is_expected p job row ≡ true)
        × (ends b'.world ≤ ends b.world)
  unfolding attempts
  attempts-completed zero count index job b recovers few =
      elim (recovers (b.traces index) b.world) [
        | inl completed ↦ attempt-completed index job b completed
        | inr early ↦ absurd (omega (arith, early.2))
      ]
  attempts-completed (suc left) count index job b recovers few =
      elim (recovers (b.traces index) b.world) [
        | inl completed ↦
            let (row, b', ran, expected, fewer) = attempt-completed index job b completed in
            let over : is_over row ≡ true = expected-over p job row expected in
            (row, b', ground arith, expected, fewer)
        | inr early ↦
            let (r, mid, ran, again, fewer) = attempt-early index job b early in
            let noted : Batch W = (write_manifest (note_retry job.episode_id (count + 1)) mid).1 in
            let (row, b', rerun, expected, less) =
              attempts-completed left (count + 1) index job noted recovers (omega arith) in
            (row, b', ground arith, expected, omega arith)
      ]

  run_job-completed :
      (index : ℕ) (job : Job) (b : Batch W) (d : Bool)
      → is_done p job (b.traces index) ≡ ok d
      → Recovers child ends p job
      → ends b.world ≤ p.startup_retries
      → (b' : Batch W) × (run_job child p index job b ≡ (ok tt, b'))
        × (ends b'.world ≤ ends b.world)
  unfolding run_job check_row
  run_job-completed index job b true read recovers few = (b, ground arith, omega arith)
  run_job-completed index job b false read recovers few =
      let (row, b', ran, expected, less) =
        attempts-completed p.startup_retries 0 index job b recovers few in
      ((run_job child p index job b).1, ground arith, ground arith)

  -- When the traces that are there can be read, and each run of a child either completes its
  -- episode or ends early, the latter at most `startup_retries` times in the whole batch, then every
  -- episode is run or skipped, and nothing is raised.
  pub run_jobs-completed :
      (index : ℕ) (jobs : List Job) (b : Batch W)
      → AllReads p index jobs b.traces
      → All (Recovers child ends p) jobs
      → ends b.world ≤ p.startup_retries
      → (b' : Batch W) × (run_jobs child p index jobs b ≡ (ok tt, b'))
  unfolding run_jobs
  run_jobs-completed index [] b reads recovers few = (b, refl)
  run_jobs-completed index (job ∷ rest) b reads recovers few =
      let (d, read) = reads.0 in
      let (mid, ran, less) = run_job-completed index job b d read recovers.0 few in
      let later : (k : ℕ) → index + 1 ≤ k → mid.traces k ≡ b.traces k =
        λ k h. ground (arith, run_job-Keeps child p index job b k (ground arith)) in
      let (b', others) =
        run_jobs-completed (index + 1) rest mid
          (AllReads-of_later p (index + 1) rest b.traces mid.traces later reads.1) recovers.1
          (omega arith) in
      (b', ground arith)
