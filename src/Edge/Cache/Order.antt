-- ===== src/Edge/Cache/Order.antt =====
-- The embedding cache under replies that arrive late or out of order.
use rvln.Prelude.{ℕ, ◌≤◌, ◌<◌, ◌≡◌, ◌≢◌, Option, none, some, List, [], ◌∷◌, arith}
use rvln.Edge.Cache.{EmbeddingCache, CachedEmbedding, put, invalidate}

pub data Call : Type 0 where
  put_call : CachedEmbedding → Call
  invalidate_call : Option ℕ → Call

step : Call → EmbeddingCache → EmbeddingCache
step (put_call e) c = put e c
step (invalidate_call fl) c = invalidate fl c

-- The calls of an execution, in order.
unfoldable pub run : List Call → EmbeddingCache → EmbeddingCache
unfolding step
run [] c = c
run (call ∷ calls) c = run calls (step call c)

-- What is cached lies above the floor `f`, and the floor is at least `f`.
pub record Above (f : ℕ) (c : EmbeddingCache) : Type 0 where
  pub floored : (fl : ℕ) × (c.floor ≡ some fl) × (f ≤ fl)
  pub above : (e : CachedEmbedding) → c.latest ≡ some e → f < e.frame_id

-- The floors that the calls set are at least `f`.
abbrev pub FloorsFrom : ℕ → List Call → Type 0
FloorsFrom f [] = Unit
FloorsFrom f (put_call e ∷ calls) = FloorsFrom f calls
FloorsFrom f (invalidate_call none ∷ calls) = FloorsFrom f calls
FloorsFrom f (invalidate_call (some fl) ∷ calls) = (f ≤ fl) × FloorsFrom f calls

pub put-Above : (f : ℕ) (e : CachedEmbedding) (c : EmbeddingCache) → Above f c → Above f (put e c)
unfolding put
put-Above f e c h =
    let (fl, p, q) = h.floored in
    record { floored = (fl, ground arith, q); above = λ l eq. ground (arith, h.above l) }

pub invalidate-Above : (f fl : ℕ) (c : EmbeddingCache) → f ≤ fl → Above f (invalidate (some fl) c)
unfolding invalidate
invalidate-Above f fl c h = record { floored = (fl, cc, h); above = λ l eq. cc }

run-Above :
    (f : ℕ) (calls : List Call) (c : EmbeddingCache)
    → FloorsFrom f calls
    → Above f c
    → Above f (run calls c)
unfolding run
run-Above f [] c fs h = h
run-Above f (put_call e ∷ calls) c fs h = run-Above f calls (put e c) fs (put-Above f e c h)
run-Above f (invalidate_call none ∷ calls) c fs h =
    run-Above f calls (invalidate none c) fs
      (unfold invalidate in record { floored = h.floored; above = λ l eq. cc })
run-Above f (invalidate_call (some fl) ∷ calls) c fs h =
    run-Above f calls (invalidate (some fl) c) fs.1 (invalidate-Above f fl c fs.0)

-- Once the cache is invalidated with a floor, whatever replies arrive afterwards, in any order,
-- and whatever later invalidations set no lower floor, an embedding in the cache has a frame ID
-- above that floor.
pub run-invalidate_above :
    (f : ℕ) (calls : List Call) (c : EmbeddingCache) (e : CachedEmbedding)
    → FloorsFrom f calls
    → (run calls (invalidate (some f) c)).latest ≡ some e
    → f < e.frame_id
run-invalidate_above f calls c e fs p =
    (run-Above f calls (invalidate (some f) c) fs (invalidate-Above f f c (omega arith))).above e p

-- The order in which two replies with different frame IDs arrive does not matter.
pub put_comm :
    (a b : CachedEmbedding) (c : EmbeddingCache)
    → a.frame_id ≢ b.frame_id
    → put a (put b c) ≡ put b (put a c)
unfolding put
put_comm a b c h = ground arith
