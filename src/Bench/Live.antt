-- ===== src/Bench/Live.antt =====
-- bench/src/isaac_rvln/live_transport.py: `Episode`, the node of a live episode, its callbacks and
-- its state. The inference server's answer is a parameter, read into a record; what is drawn on the
-- video's frames is left out.
pub mod Running
pub mod Exchanges
pub mod Answers
pub mod Keeping
pub mod Stopping
pub mod Ends
use rvln.Prelude.{
  ℕ, zero, suc, ◌+◌, ◌-◌, ◌*◌, Bool, true, false, not, ◌&&◌, ◌||◌, ◌==◌, ltb, String, Option, none,
  some, is_some, List, [], ◌∷◌, ◌++◌, length, get_elem?, str_eq, if◌then◌else◌, Result, Error, ok,
  raise, value_error, key_error, type_error, other_error,
}
use rvln.Float.{Float, Arith, one_f, le}
use rvln.Float.Literals.{lit_2, lit_0_09}
use rvln.Edge.Messages.{Mode, Pose, Quaternion, FramePath, Observation, ActionEmbedding}

pub record TraceRow : Type 0 where
  pub t_sec : Float
  pub x : Float
  pub y : Float
  pub yaw : Float
  pub cmd_v : Float
  pub cmd_w : Float

pub record PathSample : Type 0 where
  pub t_sec : Option Float
  pub waypoints : ℕ
  pub frame_id : String
  pub first_xy : Float × Float
  pub selected : Pose

pub record Inference : Type 0 where
  pub frame_id : ℕ
  pub shape : ℕ × ℕ
  pub server_wall_ms : Float

-- The texts that are kept as errors; `shutdown` has a prefix of its own.
pub data Fault : Type 0 where
  non_text_observation other_instruction no_video_frame : Fault
  caught shutdown : Error → Fault

pub record Episode : Type 0 where
  pub instruction : String
  pub trace : List TraceRow
  pub inferences : List Inference
  pub received : ℕ
  pub published : ℕ
  pub path_count : ℕ
  pub nonempty_paths : ℕ
  pub path_samples : List PathSample
  pub model_version : Option String
  pub last_cmd : Float × Float
  pub last_cmd_at : Float
  pub last_pose : Option (Float × Float × Float)
  pub last_odom_pose : Option (Float × Float)
  pub last_odom_velocity : Float × Float
  pub started_at : Option Float
  pub errors : List Fault
  pub video_frames : ℕ

-- What is sent to the server: a frame with the pose and the velocity, when they are known.
pub record Payload : Type 0 where
  pub frame_id : ℕ
  pub text : String
  pub jpeg : List ℕ
  pub motion : Option ((Float × Float × Float) × (Float × Float))

-- The server's answer; the last item is looked up after the embedding is published.
pub record Reply : Type 0 where
  pub frame_id : ℕ
  pub embedding : List (List Float)
  pub inference_ms : Float
  pub model_version : String
  pub server_wall_ms : Result Float

-- What goes out: a request to the server, and a message.
pub data Output : Type 0 where
  sent : Payload → Output
  publishes : ActionEmbedding → Output

-- What a callback does: an exception that escapes, what goes out, and the node.
abbrev pub Outcome : Type 0
Outcome = Result (Unit {0}) × List Output × Episode

abbrev pub note_fault : Fault → Episode → Episode
note_fault f n = record n { errors = n.errors ++ (f ∷ []) }

-- `except (OSError, ValueError, KeyError, TypeError)`, where `other_error` is an OSError
unfoldable pub is_caught : Error → Bool
is_caught value_error = true
is_caught key_error = true
is_caught type_error = true
is_caught other_error = true
is_caught e = false

unfoldable pub on_odom : Pose → Float → Float → Episode → Episode
on_odom p v w n = record n { last_odom_pose = some (p.x, p.y); last_odom_velocity = (v, w) }

unfoldable pub on_command : Float → Float → Float → Episode → Episode
on_command v w now n = record n { last_cmd = (v, w); last_cmd_at = now }

abbrev pub last_row : List TraceRow → Option TraceRow
last_row [] = none
last_row (r ∷ []) = some r
last_row (r ∷ s ∷ rest) = last_row (s ∷ rest)

-- The whole of the current pose and command, at a time.
abbrev pub row_at : Float → Float × Float × Float → Episode → TraceRow
row_at t (x, y, yaw) n = record {
  t_sec = t;
  x = x;
  y = y;
  yaw = yaw;
  cmd_v = n.last_cmd.0;
  cmd_w = n.last_cmd.1;
}

module _ (m : Arith) where
  abbrev pub yaw_of : Quaternion → Float
  yaw_of q =
      m.atan2 (m.mul lit_2 (m.add (m.mul q.w q.z) (m.mul q.x q.y)))
        (m.sub one_f (m.mul lit_2 (m.add (m.mul q.y q.y) (m.mul q.z q.z))))

  -- A row is due when there is none, or after 0.09 s.
  unfoldable pub is_due : Float → List TraceRow → Bool
  is_due t trace = elim (last_row trace) [ none ↦ true | some r ↦ le lit_0_09 (m.sub t r.t_sec) ]

  unfoldable pub on_state : Pose → Float → Episode → Episode
  on_state p now n =
      let pose : Float × Float × Float = (p.x, p.y, yaw_of p.orientation) in
      let n = record n { last_pose = some pose } in
      elim n.started_at [
        | none ↦ n
        | some start ↦
            let t = m.sub now start in
            if is_due t n.trace then record n { trace = n.trace ++ (row_at t pose n ∷ []) } else n
      ]

  -- `msg.poses[min(4, len(msg.poses) - 1)]`
  abbrev pub selected_pose : Pose → List Pose → Pose
  selected_pose first rest = elim (get_elem? (first ∷ rest) 4) [
    | some p ↦ p
    | none ↦ last_pose_of first rest
  ]
    where
      last_pose_of : Pose → List Pose → Pose
      last_pose_of first [] = first
      last_pose_of first (p ∷ rest) = last_pose_of p rest

  unfoldable pub on_path : FramePath → Float → Episode → Episode
  on_path msg now n =
      let n = record n { path_count = n.path_count + 1 } in
      elim msg.poses [
        | [] ↦ n
        | first ∷ rest ↦
            let n = record n { nonempty_paths = n.nonempty_paths + 1 } in
            let sample : PathSample = record {
              t_sec = elim n.started_at [ none ↦ none | some start ↦ some (m.sub now start) ];
              waypoints = length msg.poses;
              frame_id = msg.frame_id;
              first_xy = (first.x, first.y);
              selected = selected_pose first rest;
            } in
            if ltb (length n.path_samples) 10
            then record n { path_samples = n.path_samples ++ (sample ∷ []) }
            else n
      ]

abbrev pub all_width : ℕ → List (List Float) → Bool
all_width w [] = true
all_width w (t ∷ rest) = length t == w && all_width w rest

abbrev pub flatten : List (List Float) → List Float
flatten [] = []
flatten (t ∷ rest) = t ++ flatten rest

-- The number of tokens and their size, if they are rows of one size.
unfoldable pub embedding_shape : List (List Float) → Option (ℕ × ℕ)
embedding_shape [] = none
embedding_shape (t ∷ rest) =
    if not (length t == 0) && all_width (length t) rest
    then some (suc (length rest), length t)
    else none

-- The model's version does not change during an episode.
abbrev pub is_version : Option String → String → Bool
is_version none v = true
is_version (some w) v = str_eq w v

-- `decodes` tells whether OpenCV decodes a JPEG.
module _ (decodes : List ℕ → Bool) where
  unfoldable pub record_video : Observation → Episode → Episode
  record_video msg n =
      if decodes msg.jpeg
      then record n { video_frames = n.video_frames + 1 }
      else note_fault no_video_frame n

abbrev pub payload_of : Observation → Episode → Payload
payload_of msg n = record {
  frame_id = msg.frame_id;
  text = msg.goal.goal_text;
  jpeg = msg.jpeg;
  motion = elim n.last_pose [ none ↦ none | some p ↦ some (p, n.last_odom_velocity) ];
}

-- The message for an answer, checked.
unfoldable pub output_of : Observation → Reply → Result ActionEmbedding
output_of msg r =
    if not (r.frame_id == msg.frame_id)
    then raise value_error
    else elim (embedding_shape r.embedding) [
      | none ↦ raise value_error
      | some (tokens, dim) ↦ ok (record {
        frame_id = msg.frame_id;
        num_tokens = tokens;
        embed_dim = dim;
        embedding = flatten r.embedding;
        inference_ms = r.inference_ms;
        model_version = r.model_version;
      })
    ]

-- The version, the publication and the record of the inference.
unfoldable pub accept_reply : Reply → ActionEmbedding → Episode → Outcome
accept_reply r out n =
    if not (is_version n.model_version out.model_version)
    then (raise value_error, [], n)
    else let n = record n { model_version = some out.model_version; published = n.published + 1 } in
      elim r.server_wall_ms [
        | raise e ↦ (raise e, publishes out ∷ [], n)
        | ok wall ↦
            let inference : Inference = record {
              frame_id = out.frame_id;
              shape = (out.num_tokens, out.embed_dim);
              server_wall_ms = wall;
            } in
            (ok tt, publishes out ∷ [], record n { inferences = n.inferences ++ (inference ∷ []) })
      ]

-- With the server's answer, or the exception of the request.
unfoldable pub read_reply : Observation → Result Reply → Episode → Outcome
read_reply msg answer n = elim answer [
  | raise e ↦ (raise e, [], n)
  | ok r ↦ elim (output_of msg r) [ raise e ↦ (raise e, [], n) | ok out ↦ accept_reply r out n ]
]

-- An exception of the four kinds is noted.
unfoldable pub catch : Outcome → Outcome
catch (ok u, out, n) = (ok tt, out, n)
catch (raise e, out, n) =
    if is_caught e then (ok tt, out, note_fault (caught e) n) else (raise e, out, n)

unfoldable pub infer_remote : Observation → Result Reply → Episode → Outcome
infer_remote msg answer n =
    let (r, out, after) = catch (read_reply msg answer n) in
    (r, sent (payload_of msg n) ∷ out, after)

-- The observation is counted, and recorded in the video once the episode has started.
unfoldable pub count_observation : (List ℕ → Bool) → Observation → Episode → Episode
count_observation decodes msg n =
    let n = record n { received = n.received + 1 } in
    if is_some n.started_at then record_video decodes msg n else n

-- Only a text goal with the episode's instruction is sent.
unfoldable pub for_goal : Mode → Observation → Result Reply → Episode → Outcome
for_goal Mode.text msg answer n =
    if str_eq msg.goal.goal_text n.instruction
    then infer_remote msg answer n
    else (ok tt, [], note_fault other_instruction n)
for_goal other msg answer n = (ok tt, [], note_fault non_text_observation n)

unfoldable pub on_observation : (List ℕ → Bool) → Observation → Result Reply → Episode → Outcome
on_observation decodes msg answer n =
    for_goal msg.goal.mode msg answer (count_observation decodes msg n)

-- A callback with its message, its time, and the server's answer where it asks.
pub data Event : Type 0 where
  odom_event : Pose → Float → Float → Event
  state_event : Pose → Float → Event
  command_event : Float → Float → Float → Event
  path_event : FramePath → Float → Event
  observation_event : Observation → Result Reply → Event

module _ (m : Arith) (decodes : List ℕ → Bool) where
  unfoldable pub handle : Event → Episode → Outcome
  handle (odom_event p v w) n = (ok tt, [], on_odom p v w n)
  handle (state_event p now) n = (ok tt, [], on_state m p now n)
  handle (command_event v w now) n = (ok tt, [], on_command v w now n)
  handle (path_event msg now) n = (ok tt, [], on_path m msg now n)
  handle (observation_event msg answer) n = on_observation decodes msg answer n
