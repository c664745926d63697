-- ===== src/Edge/ActionWs.antt =====
-- src/rvln_edge/rvln_edge/edge_action_ws_node.py: a JSON chunk from a browser to the bridge, and its
-- acknowledgement. asyncio and websockets are not modelled.
pub mod Acks
use rvln.Prelude.{
  ℕ, Bool, true, false, String, Option, none, some, List, str_eq, if◌then◌else◌, Result, ok, raise,
  Error, value_error, key_error, type_error, ◌>>=◌,
}
use rvln.Float.{Float, Arith}
use rvln.Edge.Messages.{FramePath}
use rvln.Edge.Json.{ℤ, pos, Json, text, object, Members, Library, get, int_of, truthy, to_size}
use rvln.Edge.Trajectory.{decode_path}
use rvln.Edge.Bridge.{ActionPathBridge, following as following_now, receive, tick}

pub record EdgeActionWsNode : Type 0 where
  pub frame_id : String
  pub spacing : Float
  pub bridge : ActionPathBridge

-- `{"type": "ack", ...}`
pub record Ack : Type 0 where
  pub frame_id : ℤ
  pub following : Bool
  pub failure : Option Error

-- `msg[key]`
unfoldable pub member_of : String → Members → Result Json
member_of key msg = elim (get key msg) [ none ↦ raise key_error | some v ↦ ok v ]

-- `except (KeyError, TypeError, ValueError) as e: raise ValueError`
unfoldable pub malformed : {A : Type 0} → Result A → Result A
malformed (ok a) = ok a
malformed (raise key_error) = raise value_error
malformed (raise type_error) = raise value_error
malformed (raise value_error) = raise value_error
malformed (raise e) = raise e

unfoldable pub chunk_fields : Library → Members → Result (ℤ × ℤ × List ℕ)
unfolding member_of
chunk_fields j msg = do
  tokens ← member_of "num_tokens" msg
  num_tokens ← int_of j tokens
  dim ← member_of "embed_dim" msg
  embed_dim ← int_of j dim
  values ← member_of "values_fp16_b64" msg
  raw ← j.b64decode values
  ok (num_tokens, embed_dim, raw)

unfoldable pub is_action_chunk : Option Json → Bool
is_action_chunk none = false
is_action_chunk (some v) = elim v [ text s ↦ str_eq s "action_chunk" | _ ↦ false ]

-- `int(msg.get("frame_id", 0))`, `bool(msg.get("scaled_to_m"))` and `str(msg.get("goal_id", ""))`
abbrev pub frame_seq : Library → Members → Result ℤ
frame_seq j msg = elim (get "frame_id" msg) [ none ↦ ok (pos 0) | some v ↦ int_of j v ]

abbrev pub is_scaled : Members → Bool
is_scaled msg = elim (get "scaled_to_m" msg) [ none ↦ false | some v ↦ truthy v ]

abbrev pub goal_of : Library → Members → String
goal_of j msg = elim (get "goal_id" msg) [ none ↦ "" | some v ↦ j.str_of v ]

unfoldable pub decode_chunk_msg :
    Library → Arith → Members → Float → String → Result (FramePath × ℤ × String)
decode_chunk_msg j m msg spacing frame_id =
    if is_action_chunk (get "type" msg)
    then (do
      (num_tokens, embed_dim, raw) ← malformed (chunk_fields j msg)
      path ←
          decode_path m raw (to_size num_tokens) (to_size embed_dim) (is_scaled msg) spacing
            frame_id
      seq ← frame_seq j msg
      ok (path, seq, goal_of j msg))
    else raise value_error

-- `if not isinstance(msg, dict): raise ValueError`
unfoldable pub as_object : Json → Result Members
as_object (object msg) = ok msg
as_object v = raise value_error

unfoldable pub read_message :
    Library → Arith → String → Float → String → Result (FramePath × ℤ × String)
read_message j m message spacing frame_id = do
  v ← j.loads message
  msg ← as_object v
  decode_chunk_msg j m msg spacing frame_id

unfoldable pub refused : EdgeActionWsNode → Error → Result Ack × EdgeActionWsNode
refused node value_error = (
  ok (record {
    frame_id = pos 0;
    following = following_now node.bridge;
    failure = some value_error;
  }),
  node,
)
refused node e = (raise e, node)

unfoldable pub taken : EdgeActionWsNode → ℕ → FramePath × ℤ × String → Result Ack × EdgeActionWsNode
taken node now (path, seq, goal_id) = (
  ok (record { frame_id = seq; following = true; failure = none }),
  record node { bridge = (receive path goal_id now node.bridge).1 },
)

unfoldable pub handle_message :
    Library → Arith → String → ℕ → EdgeActionWsNode → Result Ack × EdgeActionWsNode
handle_message j m message now node = elim (read_message j m message node.spacing node.frame_id) [
  | ok decoded ↦ taken node now decoded
  | raise e ↦ refused node e
]

-- The path that the timer publishes, if any.
unfoldable pub ws_tick : ℕ → EdgeActionWsNode → Option FramePath × EdgeActionWsNode
ws_tick now node =
    let ((path, timed_out), bridge) = tick now node.bridge in
    (path, record node { bridge = bridge })
