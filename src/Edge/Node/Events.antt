-- ===== src/Edge/Node/Events.antt =====
-- The callbacks of an active edge node, in any order: what the executor may run between two
-- lifecycle transitions.
use rvln.Prelude.{ℕ, List, [], ◌∷◌, ◌++◌}
use rvln.Edge.Messages.{GoalSpec, Odometry, ActionEmbedding}
use rvln.Edge.Adapter.{EdgeAdapter}
use rvln.Edge.Node.{Platform, Params, EdgeNode, Output}
use rvln.Edge.Node.Callbacks.{
  on_image, on_compressed_image, on_goal, on_odom, on_embedding_received,
}
use rvln.Edge.Node.Ticks.{send_observation_tick, publish_status}
use rvln.Edge.Node.Action.{action_tick}

pub data Event : Type 0 where
  image_event : List ℕ → ℕ → ℕ → ℕ → Event
  compressed_event : List ℕ → ℕ → ℕ → ℕ → Event
  goal_event : GoalSpec → Event
  odom_event : Odometry → ℕ → Event
  reply_event : ActionEmbedding → ℕ → Event
  send_event : ℕ → Event
  action_event : ℕ → Event
  status_event : ℕ → Event

module _ {A : Type 0} (w : Platform) (ops : EdgeAdapter A) (p : Params) where
  unfoldable pub handle : Event → EdgeNode A → List Output × EdgeNode A
  handle (image_event message sec nanosec now) n = ([], on_image w message sec nanosec now n)
  handle (compressed_event message sec nanosec now) n =
      ([], on_compressed_image w message sec nanosec now n)
  handle (goal_event goal) n = ([], on_goal w ops goal n)
  handle (odom_event msg now) n = ([], on_odom msg now n)
  handle (reply_event emb now) n = on_embedding_received emb now n
  handle (send_event now) n = send_observation_tick w p now n
  handle (action_event now) n = let (r, out, n') = action_tick ops p now n in (out, n')
  handle (status_event now) n = (publish_status p now n, n)

  -- What a run publishes, and the node after it.
  unfoldable pub run : List Event → EdgeNode A → List Output × EdgeNode A
  run [] n = ([], n)
  run (event ∷ events) n =
      let (out, n') = handle event n in let (rest, last) = run events n' in (out ++ rest, last)
