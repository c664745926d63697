-- ===== src/Edge/ActionWs/Acks.antt =====
-- src/rvln_edge/rvln_edge/edge_action_ws_node.py: what an answer tells the browser.
use rvln.Prelude.{
  List, ℕ, String, ◌≡◌, refl, true, some, Result, ok, raise, Error, value_error, zero_division,
  attribute_error, index_error, key_error, type_error, runtime_error, other_error, arith,
}
use rvln.Float.{Arith}
use rvln.Edge.Messages.{FramePath}
use rvln.Edge.Json.{ℤ, null, object, Members, Library, get, int_of, to_size}
use rvln.Edge.Trajectory.{decode_path}
use rvln.Edge.Bridge.{following as following_now, receive}
use rvln.Edge.ActionWs.{
  EdgeActionWsNode, Ack, read_message, refused, taken, handle_message, decode_chunk_msg,
  chunk_fields, malformed, is_action_chunk, as_object, is_scaled,
}

-- What an answer says of the node after it, by what the message decodes to.
abbrev pub Answers :
    ℕ → EdgeActionWsNode → Result (FramePath × ℤ × String) → Result Ack × EdgeActionWsNode → Type 0
Answers now node (ok decoded) (raise e, node') = ok decoded ≡ raise e
Answers now node (ok decoded) (ok ack, node') =
    (ack.frame_id ≡ decoded.1)
    × (ack.following ≡ following_now node'.bridge)
    × (node'.bridge.pending ≡ some decoded.0)
    × (node'.bridge.last_rx ≡ some now)
    × (node'.bridge.goal_id ≡ decoded.2)
Answers now node (raise e) (raise e', node') = (¬ (e ≡ value_error)) × (e' ≡ e) × (node' ≡ node)
Answers now node (raise e) (ok ack, node') =
    (e ≡ value_error)
    × (ack.failure ≡ some value_error)
    × (ack.following ≡ following_now node.bridge)
    × (node' ≡ node)

refused-Answers :
    (now : ℕ) (node : EdgeActionWsNode) (e : Error) → Answers now node (raise e) (refused node e)
unfolding refused
refused-Answers now node value_error = (refl, refl, refl, refl)
refused-Answers now node zero_division = (λ h. ground arith, refl, refl)
refused-Answers now node attribute_error = (λ h. ground arith, refl, refl)
refused-Answers now node index_error = (λ h. ground arith, refl, refl)
refused-Answers now node key_error = (λ h. ground arith, refl, refl)
refused-Answers now node type_error = (λ h. ground arith, refl, refl)
refused-Answers now node runtime_error = (λ h. ground arith, refl, refl)
refused-Answers now node other_error = (λ h. ground arith, refl, refl)

-- A message that decodes is answered with its frame ID, and the bridge then waits to publish its
-- path, received now, under its goal ID. One that does not decode leaves the node as it was: a value
-- error is always answered, with whether the bridge follows a path, and any other error escapes.
pub handle_message-Answers :
    (j : Library) (m : Arith) (message : String) (now : ℕ) (node : EdgeActionWsNode)
    → Answers now node
        (read_message j m message node.spacing node.frame_id)
        (handle_message j m message now node)
unfolding handle_message taken receive
handle_message-Answers j m message now node =
    go (read_message j m message node.spacing node.frame_id)
  where
    go :
        (r : Result (FramePath × ℤ × String))
        → Answers now node r
            (elim r [ ok decoded ↦ taken node now decoded | raise e ↦ refused node e ])
    go (ok decoded) = (refl, refl, refl, refl, refl)
    go (raise e) = refused-Answers now node e

-- A chunk that decodes but for a frame ID of null makes the handler raise a type error, which no
-- branch of it answers.
pub null_frame_id_escapes :
    (j : Library) (m : Arith) (message : String) (now : ℕ) (node : EdgeActionWsNode) (msg : Members)
    (n d : ℤ) (raw : List ℕ) (path : FramePath)
    → j.loads message ≡ ok (object msg)
    → is_action_chunk (get "type" msg) ≡ true
    → chunk_fields j msg ≡ ok (n, d, raw)
    → decode_path m raw (to_size n) (to_size d) (is_scaled msg) node.spacing node.frame_id ≡ ok path
    → get "frame_id" msg ≡ some null
    → handle_message j m message now node ≡ (raise type_error, node)
unfolding handle_message read_message decode_chunk_msg as_object malformed int_of refused
null_frame_id_escapes j m message now node msg n d raw path loaded typed fields decoded seq =
    rw (loaded, typed, fields, decoded, seq, handle_message) refl
