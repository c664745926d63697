-- ===== src/Edge/Node/Callbacks.antt =====
-- src/rvln_edge/rvln_edge/edge_node.py: the subscriptions' callbacks. `now` is the monotonic clock
-- as the callback reads it.
use rvln.Prelude.{ℕ, ◌+◌, ◌*◌, not, Option, none, some, List, [], ◌∷◌, length, ◌==◌, if◌then◌else◌}
use rvln.Edge.Messages.{Image, GoalSpec, Odometry, ActionEmbedding}
use rvln.Edge.Adapter.{EdgeGoal, EdgeAdapter}
use rvln.Edge.Cache.{EmbeddingCache, CachedEmbedding, put, invalidate}
use rvln.Edge.Camera as Camera
use rvln.Edge.Ledger.{change_goal, take_reply_frame}
use rvln.Edge.Node.{Platform, EdgeNode, Output, embedding_out}
use rvln.Edge.Node.Goals.{ros_goal_to_edge_goal}

-- `lambda floor: self._cache.invalidate(floor=floor) if self._cache else None`
unfoldable pub invalidate_cache : ℕ → Option EmbeddingCache → Option EmbeddingCache
invalidate_cache floor none = none
invalidate_cache floor (some c) = some (invalidate (some floor) c)

abbrev pub cached_of : ActionEmbedding → ℕ → Option Image → CachedEmbedding
cached_of emb now img = record {
  frame_id = emb.frame_id;
  recv_time_ns = now;
  embedding = emb.embedding;
  num_tokens = emb.num_tokens;
  embed_dim = emb.embed_dim;
  inference_ms = emb.inference_ms;
  model_version = emb.model_version;
  obs_image_rgb = img;
}

module _ {A : Type 0} where
  unfoldable pub store_frame : Option Image → ℕ → ℕ → EdgeNode A → EdgeNode A
  store_frame none stamp now n = n
  store_frame (some img) stamp now n = record n {
    camera_frames = Camera.put img none stamp now n.camera_frames;
  }

  -- `sec` and `nanosec` are the message's stamp.
  unfoldable pub on_image : Platform → List ℕ → ℕ → ℕ → ℕ → EdgeNode A → EdgeNode A
  unfolding store_frame
  on_image w message sec nanosec now n =
      store_frame (w.imgmsg_to_cv2 message) (sec * 1000000000 + nanosec) now n

  unfoldable pub on_compressed_image : Platform → List ℕ → ℕ → ℕ → ℕ → EdgeNode A → EdgeNode A
  unfolding store_frame
  on_compressed_image w message sec nanosec now n =
      store_frame (w.imdecode message) (sec * 1000000000 + nanosec) now n

  unfoldable pub hand_goal : EdgeAdapter A → Option EdgeGoal → Option A → Option A
  hand_goal ops goal none = none
  hand_goal ops none (some a) = some a
  hand_goal ops (some goal) (some a) = some (ops.set_goal goal a)

  unfoldable pub on_goal : Platform → EdgeAdapter A → GoalSpec → EdgeNode A → EdgeNode A
  unfolding invalidate_cache hand_goal
  on_goal w ops msg n =
      let (observations, cache) = change_goal msg invalidate_cache n.observations n.cache in
      record n {
        observations = observations;
        cache = cache;
        adapter = hand_goal ops (ros_goal_to_edge_goal w msg) n.adapter;
      }

  unfoldable pub on_odom : Odometry → ℕ → EdgeNode A → EdgeNode A
  on_odom msg now n = record n { latest_odom = some msg; odom_received_ns = now }

  unfoldable pub store_reply : ActionEmbedding → ℕ → EmbeddingCache → EdgeNode A → EdgeNode A
  store_reply emb now c n =
      let (img, observations) = take_reply_frame emb.frame_id n.observations in
      record n { observations = observations; cache = some (put (cached_of emb now img) c) }

  unfoldable pub on_embedding_received : ActionEmbedding → ℕ → EdgeNode A → List Output × EdgeNode A
  unfolding store_reply
  on_embedding_received emb now n = elim n.cache [
    | none ↦ ([], n)
    | some c ↦
        if not (emb.num_tokens * emb.embed_dim == length emb.embedding)
        then ([], n)
        else (if n.embedding_pub then embedding_out emb ∷ [] else [], store_reply emb now c n)
  ]
