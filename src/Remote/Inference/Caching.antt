-- ===== src/Remote/Inference/Caching.antt =====
-- src/rvln_remote/rvln_remote/inference_node.py and src/rvln_edge/rvln_edge/edge_node.py: what the
-- edge does with an embedding.
use rvln.Prelude.{ℕ, ◌<◌, ◌≡◌, ap, ◌∙◌, some, [], ◌∷◌, arith}
use rvln.Float.{Arith}
use rvln.Edge.Messages.{Image, Observation, ActionEmbedding}
use rvln.Edge.Node.{EdgeNode}
use rvln.Edge.Node.Callbacks.{on_embedding_received, store_reply, cached_of}
use rvln.Edge.Cache.{EmbeddingCache, put}
use rvln.Edge.Ledger.{ObservationLedger, record_sent, take_reply_frame}
use rvln.Edge.Ledger.Invariant.{IsValid}
use rvln.Edge.Ledger.Pairing.{take_reply-record_sent}
use rvln.Remote.Backend.{Query, VlaBackend}
use rvln.Remote.Inference.{Pil, VlaInferenceNode, asked, published, on_observation}
use rvln.Remote.Inference.Replies.{IsShaped, on_observation-Fits}

module _ {I B A : Type 0} (m : Arith) (pil : Pil I) (ops : VlaBackend I B) where
  -- The edge, which has a cache, has just recorded a frame and sends an observation with the frame's
  -- ID. When the inference node publishes an embedding for it, and the backend's arrays have as many
  -- items as their shapes say, the edge offers that embedding to its cache together with the
  -- recorded image.
  pub embedding-cached :
      (generation f now : ℕ) (image : Image) (e : EdgeNode A) (l : ObservationLedger)
      (c : EmbeddingCache) (obs : Observation) (n : VlaInferenceNode I B) (q : Query I)
      (emb : ActionEmbedding)
      → IsShaped ops
      → IsValid l
      → 0 < l.max_frames
      → record_sent generation image l ≡ (some f, e.observations)
      → e.cache ≡ some c
      → obs.frame_id ≡ f
      → (on_observation m pil ops obs n).0 ≡ asked q ∷ published emb ∷ []
      → (on_embedding_received emb now e).1.cache ≡ some (put (cached_of emb now (some image)) c)
  unfolding on_embedding_received store_reply
  embedding-cached generation f now image e l c obs n q emb shaped v room sent warm same answers =
      let fits = on_observation-Fits m pil ops obs n q emb shaped answers in
      let paired = take_reply-record_sent generation f image l e.observations v room sent in
      let f_eq : emb.frame_id ≡ f = fits.frame ∙ same in
      let image_eq : (take_reply_frame emb.frame_id e.observations).0 ≡ some image =
        ap (λ (k : ℕ). (take_reply_frame k e.observations).0) f_eq ∙ paired.1 in
      ground (arith, fits.shape, image_eq, warm)
