-- ===== src/Edge/Adapter/Delta.antt =====
-- src/rvln_edge/rvln_edge/adapters/asyncvla.py: the waypoints of one batch row, from steps to poses.
-- The arithmetic is numpy's on that array.
use rvln.Prelude.{List, [], ◌∷◌, Result, ok, raise, index_error}
use rvln.Float.{Float, Arith}

-- (dx, dy, cos, sin) of a step, and (x, y, cos, sin) of a pose
pub record Step : Type 0 where
  pub dx : Float
  pub dy : Float
  pub cos : Float
  pub sin : Float

pub record WorldPose : Type 0 where
  pub x : Float
  pub y : Float
  pub cos : Float
  pub sin : Float

abbrev pub pose_at : Arith → Float → Float → Float → WorldPose
pose_at m x y theta = record { x = x; y = y; cos = m.cos theta; sin = m.sin theta }

-- The poses after the one at `x`, `y`, `theta`.
unfoldable pub accumulate : Arith → Float → Float → Float → List Step → List WorldPose
accumulate m x y theta [] = []
accumulate m x y theta (s ∷ steps) =
    let ct = m.cos theta in
    let st = m.sin theta in
    let x' = m.add x (m.sub (m.mul ct s.dx) (m.mul st s.dy)) in
    let y' = m.add y (m.add (m.mul st s.dx) (m.mul ct s.dy)) in
    let theta' = m.add theta (m.atan2 s.sin s.cos) in
    pose_at m x' y' theta' ∷ accumulate m x' y' theta' steps

-- `dx[:, 0]` of no steps raises.
unfoldable pub delta_to_pose : Arith → List Step → Result (List WorldPose)
delta_to_pose m [] = raise index_error
delta_to_pose m (s ∷ steps) =
    let theta = m.atan2 s.sin s.cos in
    ok (pose_at m s.dx s.dy theta ∷ accumulate m s.dx s.dy theta steps)
