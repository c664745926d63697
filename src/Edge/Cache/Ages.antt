-- ===== src/Edge/Cache/Ages.antt =====
-- The freshness of the cached embedding.
use rvln.Prelude.{ℕ, ◌≤◌, ◌≡◌, ◌↔◌, none, some, ok, arith}
use rvln.Edge.Cache.{
  EmbeddingCache, CachedEmbedding, Status, waiting, fine, degraded, stale, init, get_fresh, status,
}

-- The order of the statuses after a reply: the older the embedding, the worse.
abbrev pub rank : Status → ℕ
rank waiting = 0
rank fine = 1
rank degraded = 2
rank stale = 3

-- The constructor makes the hard timeout at least the soft age, and starts with nothing cached.
pub init-ordered :
    (max_age hard : ℕ) (c : EmbeddingCache)
    → init max_age hard ≡ ok c
    → (c.max_age_ns ≤ c.hard_ns) × (c.latest ≡ none) × (c.floor ≡ none)
unfolding init
init-ordered max_age hard c h = (ground arith, ground arith, ground arith)

get_fresh-status :
    (now : ℕ) (c : EmbeddingCache) (e : CachedEmbedding)
    → c.max_age_ns ≤ c.hard_ns
    → (get_fresh now c ≡ some e) ↔ ((status now c ≡ fine) × (c.latest ≡ some e))
unfolding get_fresh status
get_fresh-status now c e h = (
  λ p. (ground arith, ground arith),
  λ (q : (status now c ≡ fine) × (c.latest ≡ some e)). ground arith,
)

status_mono : (t u : ℕ) (c : EmbeddingCache) → t ≤ u → rank (status t c) ≤ rank (status u c)
unfolding status
status_mono t u c h = ground arith

-- On a cache that the constructor's check admits, `get_fresh` returns an embedding exactly when
-- the status is OK, and then it is the cached one; and as time passes and nothing else happens, the
-- status only gets worse.
pub get_fresh_agrees :
    (now later : ℕ) (c : EmbeddingCache) (e : CachedEmbedding)
    → c.max_age_ns ≤ c.hard_ns
    → now ≤ later
    → ((get_fresh now c ≡ some e) ↔ ((status now c ≡ fine) × (c.latest ≡ some e)))
      × (rank (status now c) ≤ rank (status later c))
get_fresh_agrees now later c e ordered h =
    (get_fresh-status now c e ordered, status_mono now later c h)
