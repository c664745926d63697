-- ===== src/Bench/Batch/Rows.antt =====
-- The traces of a batch that returns.
use rvln.Prelude.{
  ℕ, zero, suc, ◌+◌, ◌≡◌, ◌<◌, refl, sym, subst, true, false, ◌==◌, inl, inr, List, [], ◌∷◌,
  get_elem?, some, Bool-cases, Result, ok, Result-cases, arith,
}
use rvln.Edge.Json.{ℤ, object, Members, get}
use rvln.Bench.Policy.{is_text}
use rvln.Bench.Batch.{
  TraceFile, absent, unreadable, readable, Job, Plan, Child, Batch, is_expected, is_done, read_row,
  is_over, attempt, attempts, check_row, run_child, run_job, run_jobs, write_manifest, note_retry,
}

-- The trace is a row of the plan, completed.
abbrev pub IsRow : Plan → Job → TraceFile → Type 0
IsRow p job file = (row : Members) × (file ≡ readable (object row)) × (is_expected p job row ≡ true)

read_row-expected :
    (p : Plan) (job : Job) (file : TraceFile) (row : Members)
    → read_row file ≡ ok row
    → is_expected p job row ≡ true
    → IsRow p job file
unfolding read_row is_expected get is_text
read_row-expected p job absent row e h = absurd (ground arith)
read_row-expected p job unreadable row e h = absurd (ground arith)
read_row-expected p job (readable (object members)) row e h =
    let same : members ≡ row = ground arith in
    (members, refl, subst (λ r. is_expected p job r ≡ true) (sym same) h)
read_row-expected p job (readable v) row e h = absurd (ground arith)

is_done-IsRow :
    (p : Plan) (job : Job) (file : TraceFile) → is_done p job file ≡ ok true → IsRow p job file
unfolding is_done read_row
is_done-IsRow p job absent h = absurd (ground arith)
is_done-IsRow p job unreadable h = absurd (ground arith)
is_done-IsRow p job (readable (object row)) h = (row, refl, ground arith)
is_done-IsRow p job (readable v) h = absurd (ground arith)

-- No trace but the one of the index is changed.
abbrev pub Keeps : {W : Type 0} → ℕ → Batch W → Batch W → Type 0
Keeps index b b' = (k : ℕ) → (k == index) ≡ false → b'.traces k ≡ b.traces k

module _ {W : Type 0} (child : Child W) (p : Plan) where
  attempt-Keeps :
      (index : ℕ) (job : Job) (b : Batch W) → Keeps index b (attempt child p index job b).1
  unfolding attempt run_child
  attempt-Keeps index job b k h = ground arith

  attempt-row :
      (index : ℕ) (job : Job) (b b' : Batch W) (r : ℤ × Members)
      → attempt child p index job b ≡ (ok r, b')
      → read_row (b'.traces index) ≡ ok r.1
  unfolding attempt run_child
  attempt-row index job b b' r h = ground arith

  attempts-row :
      (left count index : ℕ) (job : Job) (b b' : Batch W) (r : ℤ × Members)
      → attempts child p left count index job b ≡ (ok r, b')
      → read_row (b'.traces index) ≡ ok r.1
  unfolding attempts
  attempts-row zero count index job b b' r h = attempt-row index job b b' r h
  attempts-row (suc left) count index job b b' r h =
      let tried : Result (ℤ × Members) × Batch W = attempt child p index job b in
      elim (Result-cases tried.0) [
        | inr (err, e) ↦ absurd (ground arith)
        | inl (a, e) ↦ elim (Bool-cases (is_over a.1)) [
          | inl over ↦ attempt-row index job b b' r (ground arith)
          | inr over ↦
              attempts-row left (count + 1) index job
                ((write_manifest (note_retry job.episode_id (count + 1)) tried.1).1) b' r
                (ground arith)
        ]
      ]

  attempts-Keeps :
      (left count index : ℕ) (job : Job) (b : Batch W)
      → Keeps index b (attempts child p left count index job b).1
  unfolding attempts
  attempts-Keeps zero count index job b k h = attempt-Keeps index job b k h
  attempts-Keeps (suc left) count index job b k h =
      let tried : Result (ℤ × Members) × Batch W = attempt child p index job b in
      let noted : Batch W = (write_manifest (note_retry job.episode_id (count + 1)) tried.1).1 in
      ground
        (arith, attempt-Keeps index job b k h, attempts-Keeps left (count + 1) index job noted k h)

  pub run_job-Keeps :
      (index : ℕ) (job : Job) (b : Batch W) → Keeps index b (run_job child p index job b).1
  unfolding run_job check_row
  run_job-Keeps index job b k h = ground (arith, attempts-Keeps p.startup_retries 0 index job b k h)

  check_row-ok :
      (index : ℕ) (job : Job) (r : ℤ × Members) (b b' : Batch W)
      → check_row child p index job r b ≡ (ok tt, b')
      → (is_expected p job r.1 ≡ true) × (b'.traces ≡ b.traces)
  unfolding check_row
  check_row-ok index job r b b' h = (ground arith, ground arith)

  run_job-IsRow :
      (index : ℕ) (job : Job) (b b' : Batch W)
      → run_job child p index job b ≡ (ok tt, b')
      → IsRow p job (b'.traces index)
  unfolding run_job
  run_job-IsRow index job b b' h = elim (Result-cases (is_done p job (b.traces index))) [
    | inr (err, e) ↦ absurd (ground arith)
    | inl (true, e) ↦
        let same : b ≡ b' = ground arith in
        subst (λ (c : Batch W). IsRow p job (c.traces index)) same
          (is_done-IsRow p job (b.traces index) e)
    | inl (false, e) ↦ elim (Result-cases (attempts child p p.startup_retries 0 index job b).0) [
      | inr (err, e2) ↦ absurd (ground arith)
      | inl (r, e2) ↦
          let ran : Batch W = (attempts child p p.startup_retries 0 index job b).1 in
          let (expected, kept) = check_row-ok index job r ran b' (ground arith) in
          subst (λ (traces : ℕ → TraceFile). IsRow p job (traces index)) (sym kept)
            (read_row-expected p job (ran.traces index) r.1
              (attempts-row p.startup_retries 0 index job b ran r (ground arith)) expected)
    ]
  ]

  run_jobs-Keeps :
      (index : ℕ) (jobs : List Job) (b : Batch W) (k : ℕ)
      → k < index
      → (run_jobs child p index jobs b).1.traces k ≡ b.traces k
  unfolding run_jobs
  run_jobs-Keeps index [] b k h = refl
  run_jobs-Keeps index (job ∷ rest) b k h = ground (
    arith,
    run_job-Keeps index job b k (ground arith),
    run_jobs-Keeps (index + 1) rest (run_job child p index job b).1 k (omega arith),
  )

  pub run_jobs-first :
      (index : ℕ) (first : Job) (rest : List Job) (b b' : Batch W)
      → run_jobs child p index (first ∷ rest) b ≡ (ok tt, b')
      → (mid : Batch W) × (run_job child p index first b ≡ (ok tt, mid))
        × (run_jobs child p (index + 1) rest mid ≡ (ok tt, b'))
  unfolding run_jobs
  run_jobs-first index first rest b b' h = elim (Result-cases (run_job child p index first b).0) [
    | inr (err, e) ↦ absurd (ground arith)
    | inl (u, e) ↦ ((run_job child p index first b).1, ground arith, ground arith)
  ]

  pub run_jobs-IsRow :
      (index : ℕ) (jobs : List Job) (b b' : Batch W) (i : ℕ) (job : Job)
      → run_jobs child p index jobs b ≡ (ok tt, b')
      → get_elem? jobs i ≡ some job
      → IsRow p job (b'.traces (index + i))
  unfolding run_jobs
  run_jobs-IsRow index [] b b' i job h at = absurd (ground arith)
  run_jobs-IsRow index (first ∷ rest) b b' zero job h at =
      let (mid, one, others) = run_jobs-first index first rest b b' h in
      let kept : b'.traces index ≡ mid.traces index =
        ground (arith, run_jobs-Keeps (index + 1) rest mid index (omega arith)) in
      let here : IsRow p first (b'.traces index) =
        subst (IsRow p first) (sym kept) (run_job-IsRow index first b mid one) in
      let place : index ≡ index + 0 = omega arith in
      let same : first ≡ job = ground arith in
      subst (λ (k : ℕ). IsRow p job (b'.traces k)) place
        (subst (λ (d : Job). IsRow p d (b'.traces index)) same here)
  run_jobs-IsRow index (first ∷ rest) b b' (suc i) job h at =
      let (mid, one, others) = run_jobs-first index first rest b b' h in
      let place : (index + 1) + i ≡ index + suc i = omega arith in
      subst (λ (k : ℕ). IsRow p job (b'.traces k)) place
        (run_jobs-IsRow (index + 1) rest mid b' i job others at)
