-- ===== src/Edge/Cache.antt =====
-- src/rvln_edge/rvln_edge/embedding_cache.py: the latest action embedding from the remote model.
-- Times are `time.monotonic_ns()` values and the configured ages whole nanoseconds. An age test
-- `now - t >= d` is written `t + d <= now`, which is the same on integers.
pub mod Order
pub mod Ages
use rvln.Prelude.{
  ℕ, ◌+◌, Bool, Option, none, some, List, String, ltb, leb, if◌then◌else◌, Result, ok, raise,
  value_error,
}
use rvln.Float.{Float}
use rvln.Edge.Messages.{Image}

pub record CachedEmbedding : Type 0 where
  pub frame_id : ℕ
  pub recv_time_ns : ℕ
  pub embedding : List Float
  pub num_tokens : ℕ
  pub embed_dim : ℕ
  pub inference_ms : Float
  pub model_version : String
  pub obs_image_rgb : Option Image

pub data Status : Type 0 where
  waiting fine degraded stale : Status

pub record EmbeddingCache : Type 0 where
  pub max_age_ns : ℕ
  pub hard_ns : ℕ
  pub latest : Option CachedEmbedding
  pub floor : Option ℕ

unfoldable pub init : ℕ → ℕ → Result EmbeddingCache
init max_age hard_timeout =
    if ltb hard_timeout max_age
    then raise value_error
    else ok (record { max_age_ns = max_age; hard_ns = hard_timeout; latest = none; floor = none })

-- `emb.frame_id <= self._floor`, when a floor is set
unfoldable pub below_floor : EmbeddingCache → ℕ → Bool
below_floor c f = elim c.floor [ none ↦ Bool.false | some fl ↦ leb f fl ]

-- `self._latest is None or emb.frame_id > self._latest.frame_id`
unfoldable pub newer : EmbeddingCache → ℕ → Bool
newer c f = elim c.latest [ none ↦ Bool.true | some l ↦ ltb l.frame_id f ]

unfoldable pub put : CachedEmbedding → EmbeddingCache → EmbeddingCache
unfolding below_floor newer
put emb c =
    if below_floor c emb.frame_id
    then c
    else if newer c emb.frame_id
    then record c { latest = some emb }
    else c

unfoldable pub invalidate : Option ℕ → EmbeddingCache → EmbeddingCache
invalidate none c = record c { latest = none }
invalidate (some floor) c = record c { latest = none; floor = some floor }

abbrev pub get_latest_raw : EmbeddingCache → Option CachedEmbedding
get_latest_raw c = c.latest

unfoldable pub get_fresh : ℕ → EmbeddingCache → Option CachedEmbedding
get_fresh now c = elim c.latest [
  | none ↦ none
  | some l ↦ if leb (l.recv_time_ns + c.max_age_ns) now then none else some l
]

unfoldable pub status : ℕ → EmbeddingCache → Status
status now c = elim c.latest [
  | none ↦ waiting
  | some l ↦
      if leb (l.recv_time_ns + c.hard_ns) now
      then stale
      else if leb (l.recv_time_ns + c.max_age_ns) now
      then degraded
      else fine
]
