-- ===== src/Edge/Adapter/Local.antt =====
-- src/rvln_edge/rvln_edge/adapters/omnivla_edge_local.py: the adapter that runs the policy on the
-- robot. The engine, a neural network with a history of images, is an operation on a state `S`.
use rvln.Prelude.{ℕ, true, String, Option, none, some, List, [], Result, ok, ◌>>=◌}
use rvln.Float.{Float, Arith}
use rvln.Edge.Messages.{Image, FramePath}
use rvln.Edge.Adapter.{EdgeGoal, EdgeAdapter}
use rvln.Edge.Trajectory.{trajectory_to_path}

-- The waypoint rows for an image and a goal, with the number of columns and the unit.
pub record Engine (S : Type 0) : Type 0 where
  pub infer_chunk : Image → EdgeGoal → S → Result (List (List Float)) × S
  pub columns : ℕ
  pub metric_waypoint_spacing : Float

pub record OmniVlaEdgeLocal (S : Type 0) : Type 0 where
  pub engine : S
  pub goal : Option EdgeGoal

module _ {S : Type 0} where
  abbrev pub local_init : S → OmniVlaEdgeLocal S
  local_init engine = record { engine = engine; goal = none }

  unfoldable pub local_set_goal : EdgeGoal → OmniVlaEdgeLocal S → OmniVlaEdgeLocal S
  local_set_goal goal a = record a { goal = some goal }

  chunk_path : Arith → Engine S → String → Result (List (List Float)) → Result FramePath
  chunk_path m e frame_id chunk = do
    waypoints ← chunk
    trajectory_to_path m waypoints e.columns e.metric_waypoint_spacing frame_id

  unfoldable pub local_predict_path :
      Arith → Engine S → Image → String → OmniVlaEdgeLocal S → Result FramePath × OmniVlaEdgeLocal S
  unfolding chunk_path
  local_predict_path m e cur frame_id a = elim a.goal [
    | none ↦ (ok (record { frame_id = frame_id; poses = [] }), a)
    | some goal ↦
        let (chunk, engine) = e.infer_chunk cur goal a.engine in
        (chunk_path m e frame_id chunk, record a { engine = engine })
  ]

  -- The interface always passes the current image, so the check for a missing one does not arise.
  unfoldable pub omnivla_edge_local : Arith → Engine S → EdgeAdapter (OmniVlaEdgeLocal S)
  omnivla_edge_local m e = record {
    is_local = true;
    set_goal = local_set_goal;
    predict_path = λ embedding cur past frame_id a. local_predict_path m e cur frame_id a;
  }
