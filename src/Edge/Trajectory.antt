-- ===== src/Edge/Trajectory.antt =====
-- src/rvln_edge/rvln_edge/adapters/_path_util.py and the decoder `decode_path` of
-- src/rvln_edge/rvln_edge/action_path_bridge.py: waypoint rows to a path.
pub mod Shape
use rvln.Prelude.{
  ℕ, zero, suc, ◌*◌, Bool, String, List, [], ◌∷◌, ◌||◌, not, ltb, ◌==◌, length, take, drop,
  if◌then◌else◌, Result, ok, raise, value_error, ◌>>=◌,
}
use rvln.Float.{Float, Arith, zero_f, one_f}
use rvln.Edge.Messages.{Pose, FramePath}
use rvln.Edge.Fp16.{fp16_bytes_to_float32_list}

-- `for x, y, c, s in wp[:, :4]`; a row that is too short does not unpack.
unfoldable pub row_to_pose : Arith → Float → List Float → Result Pose
row_to_pose m spacing (x ∷ y ∷ c ∷ s ∷ row) = ok (record {
  x = m.mul x spacing;
  y = m.mul y spacing;
  orientation = record { x = zero_f; y = zero_f; z = s; w = c };
})
row_to_pose m spacing row = raise value_error

unfoldable pub rows_to_poses : Arith → Float → List (List Float) → Result (List Pose)
unfolding row_to_pose
rows_to_poses m spacing [] = ok []
rows_to_poses m spacing (row ∷ rows) = do
  pose ← row_to_pose m spacing row
  poses ← rows_to_poses m spacing rows
  ok (pose ∷ poses)

-- `columns` is the last dimension of the waypoint array.
unfoldable pub trajectory_to_path :
    Arith → List (List Float) → ℕ → Float → String → Result FramePath
unfolding rows_to_poses
trajectory_to_path m waypoints columns spacing frame_id =
    if ltb columns 4 then raise value_error else do
      poses ← rows_to_poses m spacing waypoints
      ok (record { frame_id = frame_id; poses = poses })

-- `reshape(num_tokens, embed_dim)`
unfoldable pub reshape : ℕ → ℕ → List Float → List (List Float)
reshape zero columns values = []
reshape (suc rows) columns values = take columns values ∷ reshape rows columns (drop columns values)

unfoldable pub decode_path : Arith → List ℕ → ℕ → ℕ → Bool → Float → String → Result FramePath
unfolding trajectory_to_path reshape fp16_bytes_to_float32_list
decode_path m raw num_tokens embed_dim scaled_to_m waypoint_spacing frame_id =
    if ltb num_tokens 1 || ltb embed_dim 4 then raise value_error else do
      values ← fp16_bytes_to_float32_list raw
      if not (length values == num_tokens * embed_dim)
          then raise value_error
          else trajectory_to_path m (reshape num_tokens embed_dim values) embed_dim
              (if scaled_to_m then one_f else waypoint_spacing) frame_id
