-- ===== src/Edge/ActionGrpc.antt =====
-- src/rvln_edge/rvln_edge/edge_action_grpc_node.py: a chunk from the phone to the bridge, and its
-- acknowledgement. The gRPC server and the generated protobuf classes are not modelled.
pub mod Acks
use rvln.Prelude.{
  ℕ, Bool, true, String, Option, List, if◌then◌else◌, Result, ok, raise, Error, value_error, ◌>>=◌,
}
use rvln.Float.{Float, Arith}
use rvln.Edge.Messages.{FramePath}
use rvln.Edge.Trajectory.{decode_path}
use rvln.Edge.Bridge.{ActionPathBridge, following as following_now, receive, tick}

pub record ActionChunk : Type 0 where
  pub frame_id : ℕ
  pub num_tokens : ℕ
  pub embed_dim : ℕ
  pub values_fp16 : List ℕ
  pub scaled_to_m : Bool
  pub goal_id : String
  pub from_model : Bool

-- "ok", "ok-dummy" and "error: ..."
pub data AckStatus : Type 0 where
  fine fine_dummy : AckStatus
  failed : Error → AckStatus

pub record ControlAck : Type 0 where
  pub frame_id : ℕ
  pub following : Bool
  pub status : AckStatus

pub record EdgeActionGrpcNode : Type 0 where
  pub frame_id : String
  pub spacing : Float
  pub bridge : ActionPathBridge

unfoldable pub decode_action_chunk :
    Arith → ActionChunk → Float → String → Result (FramePath × ℕ × String)
decode_action_chunk m chunk spacing frame_id = do
  path ←
      decode_path m chunk.values_fp16 chunk.num_tokens chunk.embed_dim chunk.scaled_to_m spacing
        frame_id
  ok (path, chunk.frame_id, chunk.goal_id)

-- `except ValueError` answers; another exception leaves the handler.
unfoldable pub rejected :
    EdgeActionGrpcNode → ActionChunk → Error → Result ControlAck × EdgeActionGrpcNode
rejected node chunk value_error = (
  ok (record {
    frame_id = chunk.frame_id;
    following = following_now node.bridge;
    status = failed value_error;
  }),
  node,
)
rejected node chunk e = (raise e, node)

unfoldable pub accepted :
    EdgeActionGrpcNode
    → ActionChunk
    → ℕ
    → FramePath × ℕ × String
    → Result ControlAck × EdgeActionGrpcNode
accepted node chunk now (path, frame_seq, goal_id) = (
  ok (record {
    frame_id = frame_seq;
    following = true;
    status = if chunk.from_model then fine else fine_dummy;
  }),
  record node { bridge = (receive path goal_id now node.bridge).1 },
)

unfoldable pub handle_chunk :
    Arith → ActionChunk → ℕ → EdgeActionGrpcNode → Result ControlAck × EdgeActionGrpcNode
unfolding rejected accepted decode_action_chunk
handle_chunk m chunk now node = elim (decode_action_chunk m chunk node.spacing node.frame_id) [
  | ok decoded ↦ accepted node chunk now decoded
  | raise e ↦ rejected node chunk e
]

-- The path that the timer publishes, if any.
unfoldable pub timer_tick : ℕ → EdgeActionGrpcNode → Option FramePath × EdgeActionGrpcNode
timer_tick now node =
    let ((path, timed_out), bridge) = tick now node.bridge in
    (path, record node { bridge = bridge })
