-- ===== src/Bench/Batch/Covers.antt =====
-- What a batch that returns has checked.
use rvln.Prelude.{
  ℕ, zero, suc, ◌+◌, ◌≡◌, subst, true, inl, inr, List, [], ◌∷◌, String, get_elem?, length, some,
  Result, ok, Result-cases, Bool-cases, arith,
}
use rvln.Edge.Json.{Json, text, object, Members, get, Library, to_size}
use rvln.Bench.Policy.{is_text}
use rvln.Bench.Batch.{
  TraceFile, readable, Job, Plan, Manifest, Child, Batch, is_expected, is_done, read_row, run_jobs,
}
use rvln.Bench.Batch.Summary.{
  Numbers, Summary, each, load_row, item_of, set_of, hashable, all_text, check_rows, check_split,
  summarize,
}
use rvln.Bench.Batch.Running.{
  Arguments, traces_of, scenes_of, run_plan, run_batch, open_manifest, check_arguments,
}
use rvln.Bench.Batch.Rows.{run_jobs-IsRow}

each-first :
    {A B : Type 0} (f : A → Result B) (x : A) (xs : List A) (ys : List B)
    → each f (x ∷ xs) ≡ ok ys
    → (b : B) × (bs : List B) × (f x ≡ ok b) × (each f xs ≡ ok bs) × (b ∷ bs ≡ ys)
each-first f x xs ys h = elim (Result-cases (f x)) [
  | inr (err, e) ↦ absurd (ground arith)
  | inl (b, e) ↦ elim (Result-cases (each f xs)) [
    | inr (err, e2) ↦ absurd (ground arith)
    | inl (bs, e2) ↦ (b, bs, e, e2, ground arith)
  ]
]

each-get_elem? :
    {A B : Type 0} (f : A → Result B) (xs : List A) (ys : List B) (i : ℕ) (x : A)
    → each f xs ≡ ok ys
    → get_elem? xs i ≡ some x
    → (y : B) × (f x ≡ ok y) × (get_elem? ys i ≡ some y)
each-get_elem? f [] ys i x h at = absurd (ground arith)
each-get_elem? f (a ∷ rest) ys zero x h at =
    let (b, bs, e, e2, same) = each-first f a rest ys h in (b, ground arith, ground arith)
each-get_elem? f (a ∷ rest) ys (suc i) x h at =
    let (b, bs, e, e2, same) = each-first f a rest ys h in
    let (y, e3, e4) = each-get_elem? f rest bs i x e2 at in (y, e3, ground arith)

all_text-get_elem? :
    (s : String) (vs : List Json) (i : ℕ) (v : Json)
    → all_text s vs ≡ true
    → get_elem? vs i ≡ some v
    → is_text (some v) s ≡ true
all_text-get_elem? s [] i v h at = absurd (ground arith)
all_text-get_elem? s (w ∷ rest) zero v h at = ground arith
all_text-get_elem? s (w ∷ rest) (suc i) v h at = all_text-get_elem? s rest i v (ground arith) at

traces_of-get_elem? :
    (traces : ℕ → TraceFile) (index : ℕ) (jobs : List Job) (i : ℕ) (job : Job)
    → get_elem? jobs i ≡ some job
    → get_elem? (traces_of traces index jobs) i ≡ some (traces (index + i))
unfolding traces_of
traces_of-get_elem? traces index [] i job at = absurd (ground arith)
traces_of-get_elem? traces index (j ∷ rest) zero job at =
    let place : index ≡ index + 0 = omega arith in ground (arith, place)
traces_of-get_elem? traces index (j ∷ rest) (suc i) job at =
    let place : (index + 1) + i ≡ index + suc i = omega arith in
    subst (λ (k : ℕ). get_elem? (traces_of traces (index + 1) rest) i ≡ some (traces k)) place
      (traces_of-get_elem? traces (index + 1) rest i job at)

set_of-text :
    (key s : String) (row : Members) (v : Json)
    → set_of key row ≡ ok v
    → is_text (some v) s ≡ true
    → is_text (get key row) s ≡ true
unfolding item_of hashable is_text
set_of-text key s row v h t = ground arith

module _ (j : Library) (num : Numbers) where
  check_rows-hashes :
      (rows : List Members) (ids : List String) (hashes : List Json)
      → check_rows j num rows ≡ ok (ids, hashes)
      → each (set_of "split_sha256") rows ≡ ok hashes
  unfolding check_rows
  check_rows-hashes rows ids hashes h = ground arith

  -- Every trace that is summarised has the hash of the split.
  summarize-split :
      (files : List TraceFile) (expected : List (String × String)) (sha : String) (r : Summary)
      (i : ℕ) (row : Members)
      → summarize j num files expected sha ≡ ok r
      → get_elem? files i ≡ some (readable (object row))
      → is_text (get "split_sha256" row) sha ≡ true
  unfolding summarize check_split load_row
  summarize-split files expected sha r i row h at = elim (Result-cases (each load_row files)) [
    | inr (err, e) ↦ absurd (ground arith)
    | inl (rows, e) ↦ elim (Result-cases (check_rows j num rows)) [
      | inr (err, e2) ↦ absurd (ground arith)
      | inl ((ids, hashes), e2) ↦
          let read = each-get_elem? load_row files rows i (readable (object row)) e at in
          let at_row : get_elem? rows i ≡ some row = ground arith in
          let (v, found, at_v) =
            each-get_elem? (set_of "split_sha256") rows hashes i row
              (check_rows-hashes rows ids hashes e2) at_row in
          set_of-text "split_sha256" sha row v found
            (all_text-get_elem? sha hashes i v (ground arith) at_v)
    ]
  ]

  module _ {W : Type 0} (child : Child W) where
    -- A plan that is run to its end has run its episodes, and then summarised their traces.
    pub run_plan-ok :
        (p : Plan) (jobs : List Job) (b b' : Batch W) (r : Summary)
        → run_plan child j num p jobs b ≡ (ok r, b')
        → (mid : Batch W) × (s : Summary) × (run_jobs child p 0 jobs b ≡ (ok tt, mid))
          × (summarize j num (traces_of mid.traces 0 jobs) (scenes_of jobs) p.split_sha256 ≡ ok s)
          × (b'.traces ≡ mid.traces)
          × (b'.manifest.status ≡ "completed")
          × (b'.manifest.completed_episodes ≡ length jobs)
          × (r ≡ record s { policy_id = text p.policy_id })
    unfolding run_plan
    run_plan-ok p jobs b b' r h = elim (Result-cases (run_jobs child p 0 jobs b).0) [
      | inr (err, e) ↦ absurd (ground arith)
      | inl (u, e) ↦
          let mid : Batch W = (run_jobs child p 0 jobs b).1 in
          elim (Result-cases
            (summarize j num (traces_of mid.traces 0 jobs) (scenes_of jobs) p.split_sha256)) [
              | inr (err, e2) ↦ absurd (ground arith)
              | inl (s, e2) ↦
                  (mid, s, ground arith, e2, ground arith, ground arith, ground arith, ground arith)
            ]
    ]

    run_plan-IsDone :
        (p : Plan) (jobs : List Job) (b b' : Batch W) (r : Summary) (i : ℕ) (job : Job)
        → run_plan child j num p jobs b ≡ (ok r, b')
        → get_elem? jobs i ≡ some job
        → is_done p job (b'.traces i) ≡ ok true
    unfolding is_done read_row
    run_plan-IsDone p jobs b b' r i job h at =
        let (mid, s, ran, audited, kept, ended, count, named) = run_plan-ok p jobs b b' r h in
        let (row, file, expected) = run_jobs-IsRow child p 0 jobs b mid i job ran at in
        let split : is_text (get "split_sha256" row) p.split_sha256 ≡ true =
          summarize-split (traces_of mid.traces 0 jobs) (scenes_of jobs) p.split_sha256 s i row
            audited (ground (arith, traces_of-get_elem? mid.traces 0 jobs i job at, file)) in
        let same : b'.traces i ≡ readable (object row) = ground arith in
        ground (arith, same, expected, split)

    pub run_batch-ok :
        (strip : String → String) (p : Plan) (a : Arguments) (jobs : List Job) (b b' : Batch W)
        (r : Summary)
        → run_batch child j num strip p a jobs b ≡ (ok r, b')
        → (m : Manifest) × (run_plan child j num
              (record p { startup_retries = to_size a.startup_retries })
              jobs
              (record b { manifest = m })
            ≡ (ok r, b'))
    unfolding run_batch
    run_batch-ok strip p a jobs b b' r h = elim (Bool-cases (check_arguments strip p a jobs)) [
      | inr bad ↦ absurd (ground arith)
      | inl good ↦ elim (Result-cases (open_manifest a)) [
        | inr (err, e) ↦ absurd (ground arith)
        | inl (m, e) ↦ (m, ground arith)
      ]
    ]

    -- A batch that returns is complete: the trace of every episode of the split is a completed row
    -- of this plan, by the very check with which a resumed batch skips an episode, the hash of the
    -- split included; and the manifest says completed and counts every episode.
    pub run_batch-IsDone :
        (strip : String → String) (p : Plan) (a : Arguments) (jobs : List Job) (b b' : Batch W)
        (r : Summary) (i : ℕ) (job : Job)
        → run_batch child j num strip p a jobs b ≡ (ok r, b')
        → get_elem? jobs i ≡ some job
        → (is_done p job (b'.traces i) ≡ ok true)
          × (b'.manifest.status ≡ "completed")
          × (b'.manifest.completed_episodes ≡ length jobs)
    unfolding is_done is_expected
    run_batch-IsDone strip p a jobs b b' r i job h at =
        let q : Plan = record p { startup_retries = to_size a.startup_retries } in
        let (m, ran) = run_batch-ok strip p a jobs b b' r h in
        let start : Batch W = record b { manifest = m } in
        let (mid, s, jobs_ran, audited, kept, ended, count, named) =
          run_plan-ok q jobs start b' r ran in
        (run_plan-IsDone q jobs start b' r i job ran at, ended, count)
