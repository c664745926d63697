-- ===== src/Tests/Edge.antt =====
-- The web socket handler, the pursuit controller and the camera thread on concrete inputs.
use rvln.Prelude.{
  ◌≡◌, refl, true, false, some, none, [], ◌∷◌, ok, raise, value_error, length, arith,
}
use rvln.Float.{zero_f, one_f, is_nan}
use rvln.Edge.Messages.{FramePath}
use rvln.Edge.Trajectory.{decode_path}
use rvln.Edge.Json.{pos, Members, null, integer, text, object, member, no_member, Library}
use rvln.Edge.ActionWs.{EdgeActionWsNode, read_message, handle_message}
use rvln.Edge.ActionWs.Acks.{Answers, handle_message-Answers}
use rvln.Edge.Bridge as Bridge
use rvln.Edge.Pursuit.{PurePursuit, Pose2d, Waypoint2d, compute}
use rvln.Edge.Pursuit.Bounds.{IsUsable, Steers, pursuit-Bounded}
use rvln.Edge.Capture.{V4l2CameraCapture, close}
use rvln.Edge.Capture.Closing.{rounds, close-stays_empty}
use rvln.Edge.Trajectory.Shape.{decode_path-ok}
use rvln.Tests.Platform.{platform}
use rvln.Tests.Correlation.{picture}
use rvln.Tests.Transport.{payload}

abbrev message : Members
message = member "type" (text "action_chunk") (
    member "num_tokens" (integer (pos 1)) (
      member "embed_dim" (integer (pos 4)) (
        member "values_fp16_b64" (text "payload")
          (member "scaled_to_m" (integer (pos 1)) (member "frame_id" null no_member)))))

-- It reads one text, and the base64 of one payload.
abbrev library : Library
library = record {
  loads = λ s. ok (object message);
  int_of_float = λ f. raise value_error;
  int_of_text = λ s. raise value_error;
  str_of = λ v. "door";
  b64decode = λ v. ok payload;
}

abbrev browser_node : EdgeActionWsNode
browser_node = record {
  frame_id = "base_link";
  spacing = one_f;
  bridge = Bridge.init "base_link" 10;
}

handle_message-Answers_example :
    Answers 7 browser_node
      (read_message library platform "{}" one_f "base_link")
      (handle_message library platform "{}" 7 browser_node)
handle_message-Answers_example = handle_message-Answers library platform "{}" 7 browser_node

decoded :
    (path : FramePath) × (decode_path platform payload 1 4 true one_f "base_link" ≡ ok path)
    × (length path.poses ≡ 1)
    × (path.frame_id ≡ "base_link")
decoded =
    decode_path-ok platform payload 1 4 true one_f "base_link" (omega arith) (omega arith)
      (omega arith)

abbrev controller : PurePursuit
controller = record {
  lookahead = one_f;
  max_v = one_f;
  max_w = one_f;
  no_backward = true;
  kw = one_f;
}

abbrev home : Pose2d
home = record { x = zero_f; y = zero_f; theta = zero_f }

abbrev ahead : Waypoint2d
ahead = record { x = one_f; y = zero_f }

controller-IsUsable : IsUsable controller
unfolding is_nan
controller-IsUsable = record { v_sign = refl; v_number = refl; w_sign = refl; w_number = refl }

pursuit-Bounded_example :
    Steers controller home (ahead ∷ []) (compute platform controller home (ahead ∷ []))
pursuit-Bounded_example = pursuit-Bounded platform controller controller-IsUsable home (ahead ∷ [])

abbrev running_camera : V4l2CameraCapture
running_camera = record {
  frames = record { image = some picture; stamp_ns = 5; source_stamp_ns = 0 };
  cap = true;
  thread = true;
  stop_set = false;
}

close-stays_empty_example :
    (rounds ((some picture, 9) ∷ (none, 10) ∷ []) (close running_camera)).frames.image ≡ none
close-stays_empty_example =
    close-stays_empty ((some picture, 9) ∷ (none, 10) ∷ []) running_camera refl
