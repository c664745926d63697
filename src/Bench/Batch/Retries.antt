-- ===== src/Bench/Batch/Retries.antt =====
-- The children of a batch: how many are run, under which logs, and when the episodes are run to
-- their end.
use rvln.Prelude.{
  ℕ, zero, suc, ◌+◌, ◌≤◌, ◌<◌, ◌≡◌, ◌==◌, refl, true, false, inl, inr, List, [], ◌∷◌, some,
  if◌then◌else◌, Bool-cases, arith,
}
use rvln.Bench.Batch.{Batch, has_log, above, free_number, open_attempt_log}

has_log-above :
    (index number : ℕ) (logs : List (ℕ × ℕ))
    → above logs ≤ number
    → has_log index number logs ≡ false
has_log-above index number [] h = refl
has_log-above index number (log ∷ rest) h =
    ground (arith, has_log-above index number rest (ground arith))

has_log-below :
    (index number : ℕ) (logs : List (ℕ × ℕ))
    → has_log index number logs ≡ true
    → number < above logs
has_log-below index number [] h = absurd (ground arith)
has_log-below index number (log ∷ rest) h = elim (Bool-cases (has_log index number rest)) [
  | inl later ↦ ground (arith, has_log-below index number rest later)
  | inr never ↦ ground arith
]

-- The number found is free, and those before it are not.
free_number-found :
    (fuel index number : ℕ) (logs : List (ℕ × ℕ))
    → number ≤ above logs
    → above logs < number + fuel
    → (n : ℕ) × (free_number fuel index number logs ≡ some n)
      × (has_log index n logs ≡ false)
      × ((k : ℕ) → number ≤ k → k < n → has_log index k logs ≡ true)
unfolding free_number
free_number-found zero index number logs low h = absurd (omega arith)
free_number-found (suc fuel) index number logs low h =
    elim (Bool-cases (has_log index number logs)) [
      | inr free ↦ (number, ground arith, free, λ k p q. absurd (omega arith))
      | inl taken ↦
          let next : number + 1 ≤ above logs =
            omega (arith, has_log-below index number logs taken) in
          let (n, found, free, before) =
            free_number-found fuel index (number + 1) logs next (omega arith) in
          (
            n,
            ground arith,
            free,
            λ k p q. elim (Bool-cases (k == number)) [
              | inl here ↦ ground (arith, taken)
              | inr later ↦ before k (ground arith) q
            ],
          )
    ]

-- The search for a log's name ends: it finds the first number whose name is free, so that no log of
-- an earlier attempt is overwritten.
pub open_attempt_log-free :
    (index : ℕ) (logs : List (ℕ × ℕ))
    → (n : ℕ) × (open_attempt_log index logs ≡ some n)
      × (has_log index n logs ≡ false)
      × ((k : ℕ) → k < n → has_log index k logs ≡ true)
unfolding open_attempt_log
open_attempt_log-free index logs =
    let (n, found, free, before) =
      free_number-found (suc (above logs)) index 0 logs (omega arith) (omega arith) in
    (n, found, free, λ k q. before k (omega arith) q)

-- How many children were run for an episode: as many as it has logs.
unfoldable pub runs_of : ℕ → List (ℕ × ℕ) → ℕ
runs_of i [] = 0
runs_of i (log ∷ rest) = (if log.0 == i then 1 else 0) + runs_of i rest
