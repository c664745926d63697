-- ===== src/Edge/Node/Sends.antt =====
-- src/rvln_edge/rvln_edge/edge_node.py: what the observation timer sends, and how it counts.
use rvln.Prelude.{
  ℕ, ◌+◌, ◌≤◌, ◌≡◌, refl, List, [], ◌∷◌, All, arith, Bool-cases, Option-cases, inl, inr, not, ◌==◌,
  ◌||◌, is_some,
}
use rvln.Edge.Messages.{Image, GoalSpec}
use rvln.Edge.Camera.{fresh_with_stamp}
use rvln.Edge.Ledger.{record_sent}
use rvln.Edge.Node.{
  Platform, Params, EdgeNode, Output, path_out, observation_out, embedding_out, status_out,
}
use rvln.Edge.Node.Ticks.{
  commit_sent, encode_and_send, send_goal, send_observation_tick, sendable, fresh_odom,
}

-- An observation among the outputs has an ID of at most `k`.
abbrev pub SentBy : ℕ → Output → Type 0
SentBy k (observation_out o) = o.frame_id ≤ k
SentBy k (path_out x) = Unit
SentBy k (embedding_out x) = Unit
SentBy k (status_out x y z) = Unit

pub sent-weaken : (j k : ℕ) (out : List Output) → j ≤ k → All (SentBy j) out → All (SentBy k) out
sent-weaken j k [] h a = tt
sent-weaken j k (observation_out o ∷ out) h a = (omega (arith, a.0), sent-weaken j k out h a.1)
sent-weaken j k (path_out x ∷ out) h a = (tt, sent-weaken j k out h a.1)
sent-weaken j k (embedding_out x ∷ out) h a = (tt, sent-weaken j k out h a.1)
sent-weaken j k (status_out x y z ∷ out) h a = (tt, sent-weaken j k out h a.1)

-- What sending does to the counter, the outputs and the cache.
abbrev pub SendOk : {A : Type 0} → EdgeNode A → List Output × EdgeNode A → Type 0
SendOk n r =
    All (SentBy r.1.observations.frame_counter) r.0
    × (n.observations.frame_counter ≤ r.1.observations.frame_counter)
    × (r.1.cache ≡ n.cache)

module _ {A : Type 0} (w : Platform) (p : Params) where
  commit-SendOk :
      (generation : ℕ) (img : Image) (stamp : ℕ) (jpeg : List ℕ) (goal : GoalSpec) (n : EdgeNode A)
      → SendOk n (commit_sent generation img stamp jpeg goal n)
  unfolding commit_sent record_sent
  commit-SendOk generation img stamp jpeg goal n =
      elim (Bool-cases
        (not (generation == n.observations.generation) || not (is_some n.observations.goal))) [
          | inl refused ↦ rw (refused, commit_sent) (tt, omega arith, refl)
          | inr taken ↦
              let up : (record_sent generation img n.observations).1.frame_counter
                  ≡ n.observations.frame_counter + 1 =
                rw (taken, record_sent) in
              rw (taken, commit_sent) ((omega arith, tt), omega arith, refl)
        ]

  encode-SendOk :
      (capture : Image × ℕ) (goal : GoalSpec) (n : EdgeNode A)
      → SendOk n (encode_and_send w p capture goal n)
  unfolding encode_and_send
  encode-SendOk (img, stamp) goal n =
      elim (Option-cases (w.resize_and_jpeg img p.image_width p.image_height p.jpeg_quality)) [
        | inl failed ↦ rw (failed, encode_and_send) (tt, omega arith, refl)
        | inr (jpeg, encoded) ↦
            rw (encoded, encode_and_send)
              (commit-SendOk n.observations.generation img stamp jpeg goal n)
      ]

  goal-SendOk :
      (now : ℕ) (capture : Image × ℕ) (n : EdgeNode A) → SendOk n (send_goal w p now capture n)
  unfolding send_goal
  goal-SendOk now capture n = elim (Option-cases n.observations.goal) [
    | inl missing ↦ rw (missing, send_goal) (tt, omega arith, refl)
    | inr (goal, present) ↦ elim (Option-cases (sendable w goal (fresh_odom p now n))) [
      | inl refused ↦ rw (present, refused, send_goal) (tt, omega arith, refl)
      | inr (sent, made) ↦ rw (present, made, send_goal) (encode-SendOk capture sent n)
    ]
  ]

  pub send-SendOk : (now : ℕ) (n : EdgeNode A) → SendOk n (send_observation_tick w p now n)
  unfolding send_observation_tick
  send-SendOk now n = elim (Bool-cases n.observation_pub) [
    | inl up ↦ elim (Option-cases (fresh_with_stamp p.image_max_age now n.camera_frames)) [
      | inl missing ↦ rw (up, missing, send_observation_tick) (tt, omega arith, refl)
      | inr (capture, present) ↦ rw (up, present, send_observation_tick) (goal-SendOk now capture n)
    ]
    | inr down ↦ rw (down, send_observation_tick) (tt, omega arith, refl)
  ]
