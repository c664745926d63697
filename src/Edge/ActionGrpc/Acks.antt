-- ===== src/Edge/ActionGrpc/Acks.antt =====
-- src/rvln_edge/rvln_edge/edge_action_grpc_node.py: what an acknowledgement tells the phone.
use rvln.Prelude.{
  ℕ, String, ◌≡◌, refl, some, if◌then◌else◌, Result, ok, raise, ◌>>=◌, Error, value_error,
  zero_division, attribute_error, index_error, key_error, type_error, runtime_error, other_error,
  arith,
}
use rvln.Float.{Arith}
use rvln.Edge.Messages.{FramePath}
use rvln.Edge.Trajectory.{decode_path}
use rvln.Edge.Bridge.{following as following_now, receive}
use rvln.Edge.ActionGrpc.{
  ActionChunk, fine, fine_dummy, failed, ControlAck, EdgeActionGrpcNode, decode_action_chunk,
  rejected, accepted, handle_chunk,
}

-- What an answer says of the node after it, by what the chunk decodes to.
abbrev pub Tells :
    ActionChunk
    → ℕ
    → EdgeActionGrpcNode
    → Result (FramePath × ℕ × String)
    → Result ControlAck × EdgeActionGrpcNode
    → Type 0
Tells chunk now node (ok decoded) (raise e, node') = ok decoded ≡ raise e
Tells chunk now node (ok decoded) (ok ack, node') =
    (ack.frame_id ≡ chunk.frame_id)
    × (ack.following ≡ following_now node'.bridge)
    × (ack.status ≡ (if chunk.from_model then fine else fine_dummy))
    × (node'.bridge.pending ≡ some decoded.0)
    × (node'.bridge.last_rx ≡ some now)
    × (node'.bridge.goal_id ≡ chunk.goal_id)
Tells chunk now node (raise e) (raise e', node') = (¬ (e ≡ value_error)) × (e' ≡ e) × (node' ≡ node)
Tells chunk now node (raise e) (ok ack, node') =
    (e ≡ value_error)
    × (ack.frame_id ≡ chunk.frame_id)
    × (ack.following ≡ following_now node.bridge)
    × (ack.status ≡ failed value_error)
    × (node' ≡ node)

rejected-Tells :
    (chunk : ActionChunk) (now : ℕ) (node : EdgeActionGrpcNode) (e : Error)
    → Tells chunk now node (raise e) (rejected node chunk e)
unfolding rejected
rejected-Tells chunk now node value_error = (refl, refl, refl, refl, refl)
rejected-Tells chunk now node zero_division = (λ h. ground arith, refl, refl)
rejected-Tells chunk now node attribute_error = (λ h. ground arith, refl, refl)
rejected-Tells chunk now node index_error = (λ h. ground arith, refl, refl)
rejected-Tells chunk now node key_error = (λ h. ground arith, refl, refl)
rejected-Tells chunk now node type_error = (λ h. ground arith, refl, refl)
rejected-Tells chunk now node runtime_error = (λ h. ground arith, refl, refl)
rejected-Tells chunk now node other_error = (λ h. ground arith, refl, refl)

answered-Tells :
    (chunk : ActionChunk) (now : ℕ) (node : EdgeActionGrpcNode) (r : Result FramePath)
    → let decoded : Result (FramePath × ℕ × String) =
        ◌>>=◌ {B = FramePath × ℕ × String} r (λ path. ok (path, chunk.frame_id, chunk.goal_id)) in
      Tells chunk now node decoded
        (elim decoded [ ok d ↦ accepted node chunk now d | raise e ↦ rejected node chunk e ])
unfolding accepted receive
answered-Tells chunk now node (ok path) = (refl, refl, refl, refl, refl, refl)
answered-Tells chunk now node (raise e) = rejected-Tells chunk now node e

-- A chunk that decodes is answered with its frame ID, with whether it came from the model and that
-- the bridge follows a path, and the bridge then waits to publish the chunk's path, received now,
-- under the chunk's goal ID. One that does not decode leaves the node as it was: a value error is
-- always answered, with the chunk's frame ID and whether the bridge follows a path, and any other
-- error escapes.
pub handle_chunk-Tells :
    (m : Arith) (chunk : ActionChunk) (now : ℕ) (node : EdgeActionGrpcNode)
    → Tells chunk now node
        (decode_action_chunk m chunk node.spacing node.frame_id)
        (handle_chunk m chunk now node)
unfolding handle_chunk decode_action_chunk
handle_chunk-Tells m chunk now node = answered-Tells chunk now node (
    decode_path m chunk.values_fp16 chunk.num_tokens chunk.embed_dim chunk.scaled_to_m node.spacing
      node.frame_id)
