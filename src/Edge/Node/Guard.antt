-- ===== src/Edge/Node/Guard.antt =====
-- src/rvln_edge/rvln_edge/edge_node.py: each callback keeps the cache above an earlier counter.
use rvln.Prelude.{
  Bool, true, false, if◌then◌else◌, ◌∙◌, ℕ, ◌+◌, ◌*◌, ◌≤◌, ◌≡◌, refl, Option, none, some, List, [],
  ◌∷◌, All, subst, sym, arith, Bool-cases, Option-cases, inl, inr, ◌==◌, length,
}
use rvln.Edge.Messages.{Image, GoalSpec, ActionEmbedding}
use rvln.Edge.Adapter.{EdgeAdapter}
use rvln.Edge.Cache.{EmbeddingCache, put, invalidate}
use rvln.Edge.Cache.Order.{Above, put-Above, invalidate-Above}
use rvln.Edge.Ledger.{take_reply_frame, change_goal}
use rvln.Edge.Node.{Platform, Params, EdgeNode, Output, embedding_out}
use rvln.Edge.Node.Callbacks.{
  on_image, on_compressed_image, on_goal, on_odom, on_embedding_received, cached_of, store_frame,
  store_reply, invalidate_cache,
}
use rvln.Edge.Node.Ticks.{send_observation_tick, publish_status}
use rvln.Edge.Node.Action.{action_tick}
use rvln.Edge.Node.Events.{
  Event, image_event, compressed_event, goal_event, odom_event, reply_event, send_event,
  action_event, status_event, handle,
}
use rvln.Edge.Node.Sends.{SentBy, sent-weaken, send-SendOk}
use rvln.Edge.Node.Quiet.{action-Quiet}

-- There is a cache, as there is from `on_configure` to `on_cleanup`.
abbrev pub HasCache : {A : Type 0} → EdgeNode A → Type 0
HasCache n = (c : EmbeddingCache) × (n.cache ≡ some c)

-- The cache keeps only replies above `k`, and the ledger has counted up to `k`.
abbrev pub Guarded : {A : Type 0} → ℕ → EdgeNode A → Type 0
Guarded k n =
    (k ≤ n.observations.frame_counter) × ((c : EmbeddingCache) × (n.cache ≡ some c) × Above k c)

-- What one callback does to the counter, the outputs and the cache.
pub record Advances {A : Type 0} (n : EdgeNode A) (r : List Output × EdgeNode A) : Type 0 where
  pub sent : All (SentBy r.1.observations.frame_counter) r.0
  pub counted : n.observations.frame_counter ≤ r.1.observations.frame_counter
  pub present : HasCache n → HasCache r.1
  pub guarded : (k : ℕ) → Guarded k n → Guarded k r.1

debug-sent :
    (k : ℕ) (on : Bool) (emb : ActionEmbedding)
    → All (SentBy k) (if on then embedding_out emb ∷ [] else [])
debug-sent k true emb = (tt, tt)
debug-sent k false emb = tt

module _ {A : Type 0} where
  -- With the same cache and a counter that does not fall, the guard stays.
  pub same_cache :
      (n : EdgeNode A) (r : List Output × EdgeNode A)
      → All (SentBy r.1.observations.frame_counter) r.0
      → n.observations.frame_counter ≤ r.1.observations.frame_counter
      → r.1.cache ≡ n.cache
      → Advances n r
  same_cache n r sent counted same = record {
    sent = sent;
    counted = counted;
    present = λ h. (h.0, same ∙ h.1);
    guarded = λ k h. (omega (arith, h.0, counted), (h.1.0, same ∙ h.1.1, h.1.2));
  }

  frame_kept :
      (img : Option Image) (stamp now : ℕ) (n : EdgeNode A)
      → Advances n ([], store_frame img stamp now n)
  unfolding store_frame
  frame_kept none stamp now n = same_cache n ([], n) tt (omega arith) refl
  frame_kept (some img) stamp now n =
      same_cache n ([], store_frame (some img) stamp now n) tt (omega arith) refl

  stored-Advances :
      (emb : ActionEmbedding) (now : ℕ) (c : EmbeddingCache) (n : EdgeNode A)
      → n.cache ≡ some c
      → Advances n (if n.embedding_pub then embedding_out emb ∷ [] else [], store_reply emb now c n)
  unfolding store_reply take_reply_frame
  stored-Advances emb now c n e =
      let reply = cached_of emb now (take_reply_frame emb.frame_id n.observations).0 in
      record {
        sent = debug-sent n.observations.frame_counter n.embedding_pub emb;
        counted = omega arith;
        present = λ h. (put reply c, refl);
        guarded = λ k h.
            let same : h.1.0 ≡ c = cc in
            (h.0, (put reply c, refl, put-Above k reply c (subst (Above k) same h.1.2)));
      }

  reply-Advances :
      (emb : ActionEmbedding) (now : ℕ) (n : EdgeNode A)
      → Advances n (on_embedding_received emb now n)
  unfolding on_embedding_received
  reply-Advances emb now n = elim (Option-cases n.cache) [
    | inl missing ↦
        let idle : on_embedding_received emb now n ≡ ([], n) =
          simp (missing, on_embedding_received) in
        subst (Advances n) (sym idle) (same_cache n ([], n) tt (omega arith) refl)
    | inr (c, present) ↦
        elim (Bool-cases (emb.num_tokens * emb.embed_dim == length emb.embedding)) [
          | inr refused ↦
              let idle : on_embedding_received emb now n ≡ ([], n) =
                simp (present, refused, on_embedding_received) in
              subst (Advances n) (sym idle) (same_cache n ([], n) tt (omega arith) refl)
          | inl fits ↦
              let goes : on_embedding_received emb now n ≡ (
                if n.embedding_pub then embedding_out emb ∷ [] else [],
                store_reply emb now c n,
              ) =
                simp (present, fits, on_embedding_received) in
              subst (Advances n) (sym goes) (stored-Advances emb now c n present)
        ]
  ]

  status-sent :
      (k : ℕ) (p : Params) (now : ℕ) (n : EdgeNode A) → All (SentBy k) (publish_status p now n)
  unfolding publish_status
  status-sent k p now n = elim (Bool-cases n.status_pub) [
    | inr down ↦ rw (down, publish_status) tt
    | inl up ↦ elim (Bool-cases n.local_mode) [
      | inl local ↦ rw (up, local, publish_status) (tt, tt)
      | inr remote ↦ elim (Option-cases n.cache) [
        | inl missing ↦ rw (up, remote, missing, publish_status) tt
        | inr (c, present) ↦ rw (up, remote, present, publish_status) (tt, tt)
      ]
    ]
  ]

module _ {A : Type 0} (w : Platform) (ops : EdgeAdapter A) (p : Params) where
  -- A goal invalidates the cache with the counter as the floor.
  goal-cache :
      (goal : GoalSpec) (n : EdgeNode A) (c : EmbeddingCache)
      → n.cache ≡ some c
      → (on_goal w ops goal n).cache ≡ some (invalidate (some n.observations.frame_counter) c)
  unfolding on_goal change_goal invalidate_cache
  goal-cache goal n c e = rw e refl

  pub goal-Guarded :
      (goal : GoalSpec) (n : EdgeNode A) (k : ℕ)
      → k ≤ n.observations.frame_counter
      → HasCache n
      → Guarded k (on_goal w ops goal n)
  unfolding on_goal change_goal
  goal-Guarded goal n k h present = (
    h,
    (
      invalidate (some n.observations.frame_counter) present.0,
      goal-cache goal n present.0 present.1,
      invalidate-Above k n.observations.frame_counter present.0 h,
    ),
  )

  goal-Advances : (goal : GoalSpec) (n : EdgeNode A) → Advances n ([], on_goal w ops goal n)
  unfolding on_goal change_goal
  goal-Advances goal n = record {
    sent = tt;
    counted = omega arith;
    present = λ h. (invalidate (some n.observations.frame_counter) h.0, goal-cache goal n h.0 h.1);
    guarded = λ k h. goal-Guarded goal n k h.0 (h.1.0, h.1.1);
  }

  action-Advances : (now : ℕ) (n : EdgeNode A) → Advances n (handle w ops p (action_event now) n)
  unfolding handle
  action-Advances now n =
      let q = action-Quiet ops p now n in
      let h = action_tick ops p now n in
      let k = h.2.observations.frame_counter in
      let same : k ≡ n.observations.frame_counter = cc in
      same_cache n (h.1, h.2) (sent-weaken 0 k h.1 (omega arith) q.0) (omega (arith, same)) q.2

  pub handle-Advances : (event : Event) (n : EdgeNode A) → Advances n (handle w ops p event n)
  unfolding handle on_image on_compressed_image on_odom
  handle-Advances (image_event message sec nanosec now) n =
      frame_kept (w.imgmsg_to_cv2 message) (sec * 1000000000 + nanosec) now n
  handle-Advances (compressed_event message sec nanosec now) n =
      frame_kept (w.imdecode message) (sec * 1000000000 + nanosec) now n
  handle-Advances (goal_event goal) n = goal-Advances goal n
  handle-Advances (odom_event msg now) n =
      same_cache n ([], on_odom msg now n) tt (omega arith) refl
  handle-Advances (reply_event emb now) n = reply-Advances emb now n
  handle-Advances (send_event now) n =
      let sent = send-SendOk w p now n in
      same_cache n (send_observation_tick w p now n) sent.0 sent.1 sent.2
  handle-Advances (action_event now) n = action-Advances now n
  handle-Advances (status_event now) n =
      same_cache n (publish_status p now n, n) (status-sent n.observations.frame_counter p now n)
        (omega arith) refl
