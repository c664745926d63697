-- ===== src/Bench/Batch/Resume.antt =====
-- A batch that is resumed when every trace is done.
use rvln.Prelude.{
  ℕ, suc, ◌+◌, ◌≡◌, refl, sym, subst, true, inl, inr, List, [], ◌∷◌, String, get_elem?, length,
  some, ok, Result-cases, Bool-cases, arith,
}
use rvln.Edge.Json.{Library, to_size, text}
use rvln.Bench.Batch.{
  TraceFile, Job, Plan, Manifest, Child, Batch, is_done, is_expected, run_job, run_jobs,
}
use rvln.Bench.Batch.Summary.{Numbers, Summary, summarize}
use rvln.Bench.Batch.Running.{
  Arguments, traces_of, scenes_of, run_plan, run_batch, open_manifest, check_arguments,
}
use rvln.Bench.Batch.Covers.{run_plan-ok, run_batch-ok, run_batch-IsDone}

-- The traces of the episodes from `index` on are done.
abbrev pub AllDone : Plan → ℕ → List Job → (ℕ → TraceFile) → Type 0
AllDone p index [] traces = Unit
AllDone p index (job ∷ rest) traces =
    (is_done p job (traces index) ≡ ok true) × AllDone p (index + 1) rest traces

AllDone-of_each :
    (p : Plan) (index : ℕ) (jobs : List Job) (traces : ℕ → TraceFile)
    → ((i : ℕ) (job : Job)
        → get_elem? jobs i ≡ some job
        → is_done p job (traces (index + i)) ≡ ok true)
    → AllDone p index jobs traces
AllDone-of_each p index [] traces f = tt
AllDone-of_each p index (job ∷ rest) traces f =
    let here : index + 0 ≡ index = omega arith in
    (
      subst (λ (k : ℕ). is_done p job (traces k) ≡ ok true) here (f 0 job refl),
      AllDone-of_each p (index + 1) rest traces (λ i d at.
          let place : index + suc i ≡ (index + 1) + i = omega arith in
          subst (λ (k : ℕ). is_done p d (traces k) ≡ ok true) place (f (suc i) d at)),
    )

module _ {W : Type 0} (child : Child W) where
  -- Nothing is run and nothing is written.
  run_jobs-AllDone :
      (p : Plan) (index : ℕ) (jobs : List Job) (b : Batch W)
      → AllDone p index jobs b.traces
      → run_jobs child p index jobs b ≡ (ok tt, b)
  unfolding run_jobs run_job
  run_jobs-AllDone p index [] b done = refl
  run_jobs-AllDone p index (job ∷ rest) b done =
      let here = done.0 in ground (arith, run_jobs-AllDone p (index + 1) rest b done.1)

  module _ (j : Library) (num : Numbers) where
    -- A batch that was left with an error, and whose traces are all done when it is resumed, as
    -- when a child wrote its result and then timed out: it runs no child and changes no trace and
    -- no log, its manifest says completed, and yet names the episode that failed and the error.
    pub run_batch-stale_error :
        (strip : String → String) (p : Plan) (a : Arguments) (jobs : List Job) (b b' : Batch W)
        (r : Summary) (m : Manifest)
        → open_manifest a ≡ ok m
        → AllDone p 0 jobs b.traces
        → run_batch child j num strip p a jobs b ≡ (ok r, b')
        → (b'.manifest.status ≡ "completed")
          × (b'.manifest.failed_episode_id ≡ m.failed_episode_id)
          × (b'.manifest.error ≡ m.error)
          × (b'.traces ≡ b.traces)
          × (b'.logs ≡ b.logs)
    unfolding run_batch run_plan is_done is_expected
    run_batch-stale_error strip p a jobs b b' r m opened done h =
        elim (Bool-cases (check_arguments strip p a jobs)) [
          | inr bad ↦ absurd (ground arith)
          | inl good ↦
              let q : Plan = record p { startup_retries = to_size a.startup_retries } in
              let start : Batch W = record b { manifest = m } in
              let skipped : run_jobs child q 0 jobs start ≡ (ok tt, start) =
                run_jobs-AllDone q 0 jobs start done in
              elim (Result-cases
                (summarize j num (traces_of b.traces 0 jobs) (scenes_of jobs) p.split_sha256)) [
                  | inr (err, e) ↦ absurd (ground arith)
                  | inl (s, e) ↦ ground arith
                ]
        ]

    run_plan-again :
        (p : Plan) (jobs : List Job) (b : Batch W) (s : Summary)
        → AllDone p 0 jobs b.traces
        → summarize j num (traces_of b.traces 0 jobs) (scenes_of jobs) p.split_sha256 ≡ ok s
        → b.manifest.status ≡ "completed"
        → b.manifest.completed_episodes ≡ length jobs
        → run_plan child j num p jobs b ≡ (ok (record s { policy_id = text p.policy_id }), b)
    unfolding run_plan
    run_plan-again p jobs b s done audited ended count =
        ground (arith, run_jobs-AllDone p 0 jobs b done)

    -- A batch that has returned can be called again with `resume`, under the same plan and with
    -- arguments that pass the check: it returns the same summary, runs no child, and leaves every
    -- trace, every log and the manifest as they were.
    pub run_batch-again :
        (strip : String → String) (p : Plan) (a again : Arguments) (jobs : List Job)
        (b b' : Batch W) (r : Summary)
        → run_batch child j num strip p a jobs b ≡ (ok r, b')
        → check_arguments strip p again jobs ≡ true
        → open_manifest again ≡ ok b'.manifest
        → run_batch child j num strip p again jobs b' ≡ (ok r, b')
    unfolding run_batch is_done is_expected
    run_batch-again strip p a again jobs b b' r h good opened =
        let q : Plan = record p { startup_retries = to_size a.startup_retries } in
        let (m, planned) = run_batch-ok j num child strip p a jobs b b' r h in
        let (mid, s, ran, audited, kept, ended, count, named) =
          run_plan-ok j num child q jobs (record b { manifest = m }) b' r planned in
        let done : AllDone p 0 jobs b'.traces = AllDone-of_each p 0 jobs b'.traces (λ i job at.
          let place : i ≡ 0 + i = omega arith in
          subst (λ (k : ℕ). is_done p job (b'.traces k) ≡ ok true) place
            (run_batch-IsDone j num child strip p a jobs b b' r i job h at).0) in
        let next : Plan = record p { startup_retries = to_size again.startup_retries } in
        let summed : summarize j num (traces_of b'.traces 0 jobs) (scenes_of jobs) p.split_sha256
            ≡ ok s =
          subst
            (λ (t : ℕ → TraceFile).
              summarize j num (traces_of t 0 jobs) (scenes_of jobs) p.split_sha256 ≡ ok s)
            (sym kept) audited in
        ground (arith, run_plan-again next jobs b' s done summed ended count, named)
