-- ===== src/Tests/Node.antt =====
-- The edge node and the gRPC handler on concrete inputs.
use rvln.Prelude.{
  ◌+◌, ◌≡◌, refl, true, false, some, none, List, [], ◌∷◌, All, ok, raise, value_error,
  attribute_error,
}
use rvln.Float.{zero_f, one_f}
use rvln.Edge.Messages.{ActionEmbedding}
use rvln.Edge.Adapter.{EdgeAdapter, stub}
use rvln.Edge.Cache.{EmbeddingCache, CachedEmbedding, put, invalidate, status}
use rvln.Edge.Cache as Cache
use rvln.Edge.Camera.{fresh, fresh_with_stamp}
use rvln.Edge.Camera as Camera
use rvln.Edge.SentFrames.{find, insert, trim, without, drop_older}
use rvln.Edge.Ledger.{record_sent, change_goal, take_reply_frame}
use rvln.Edge.Node.{Params, Platform, EdgeNode, init}
use rvln.Edge.Node.Callbacks.{on_image, on_goal, on_embedding_received, cached_of, invalidate_cache}
use rvln.Edge.Node.Ticks.{send_observation_tick, send_goal, encode_and_send, commit_sent, sendable}
use rvln.Edge.Node.Action.{
  action_begin, action_finish, action_tick, is_odom_goal, log_action_diag, stop_by_status,
  publish_logged, predict,
}
use rvln.Edge.Node.Lifecycle.{on_configure, on_cleanup}
use rvln.Edge.Node.Events.{Event, image_event, reply_event, send_event, run, handle}
use rvln.Edge.Node.Correlation.{SentBefore, stale_reply_never_cached}
use rvln.Edge.Node.Races.{action_tick_raises, goal_in_between}
use rvln.Edge.Node.Cycle.{cleanup_after_retry}
use rvln.Edge.ActionGrpc.{ActionChunk, EdgeActionGrpcNode, decode_action_chunk, handle_chunk}
use rvln.Edge.ActionGrpc.Acks.{Tells, handle_chunk-Tells}
use rvln.Edge.Bridge as Bridge
use rvln.Tests.Platform.{platform}
use rvln.Tests.Correlation.{reply, picture, go_text, empty_cache, ledger}

abbrev world : Platform
world = record {
  arith_ops = platform;
  imgmsg_to_cv2 = λ message. some picture;
  imdecode = λ message. some picture;
  resize_and_jpeg = λ img width height quality. some (7 ∷ []);
}

abbrev params : Params
params = record {
  image_max_age = 50;
  odom_max_age = 50;
  embedding_max_age = 6;
  embedding_hard_timeout = 15;
  image_width = 224;
  image_height = 224;
  jpeg_quality = 80;
  camera_device = "/dev/video0";
  publish_embedding_debug = false;
}

abbrev adapter : EdgeAdapter (Unit {0})
adapter = stub platform 2 one_f

abbrev active : EdgeNode (Unit {0})
active = record init {
  cache = some empty_cache;
  adapter = some tt;
  observations = ledger;
  observation_pub = true;
  path_pub = true;
}

abbrev answer : ActionEmbedding
answer = record {
  frame_id = 4;
  num_tokens = 1;
  embed_dim = 1;
  embedding = zero_f ∷ [];
  inference_ms = zero_f;
  model_version = "dummy-v1";
}

abbrev before : List Event
before = image_event [] 0 0 100 ∷ send_event 101 ∷ []

abbrev after : List Event
after = send_event 102 ∷ reply_event answer 103 ∷ []

abbrev kept : CachedEmbedding
kept = cached_of answer 103 (some picture)

stale_reply_never_cached_example : All (SentBefore 4) (run world adapter params before active).0
unfolding run handle on_image send_observation_tick send_goal encode_and_send commit_sent sendable
    on_goal on_embedding_received put invalidate fresh_with_stamp Camera.put record_sent change_goal
    take_reply_frame find insert trim without drop_older invalidate_cache
stale_reply_never_cached_example =
    stale_reply_never_cached world adapter params before after go_text active empty_cache
      (record empty_cache { latest = some kept; floor = some 3 }) kept refl refl refl

-- an embedding without tokens
abbrev hollow : CachedEmbedding
hollow = record (reply 3) { recv_time_ns = 1000000000; embedding = []; num_tokens = 0 }

abbrev hollow_node : EdgeNode (Unit {0})
hollow_node = record active {
  cache = some (record empty_cache { latest = some hollow });
  camera_frames = record { image = some picture; stamp_ns = 1000000000; source_stamp_ns = 0 };
}

action_tick_raises_example :
    (value_error ≡ value_error)
    × ((emb : CachedEmbedding) × ((c : EmbeddingCache) × (hollow_node.cache ≡ some c)
          × (c.latest ≡ some emb))
        × (emb.embedding ≡ []))
unfolding action_tick action_begin action_finish log_action_diag status fresh fresh_with_stamp
    is_odom_goal stub stop_by_status publish_logged predict
action_tick_raises_example =
    action_tick_raises adapter params 1000000003 hollow_node value_error refl

abbrev ready : EdgeNode (Unit {0})
ready = record active {
  cache = some (record empty_cache { latest = some (reply 3) });
  camera_frames = record { image = some picture; stamp_ns = 1000; source_stamp_ns = 0 };
}

goal_in_between_example :
    action_finish adapter params 1003 (on_goal world adapter go_text ready)
    ≡ (raise attribute_error, [], on_goal world adapter go_text ready)
unfolding action_begin is_odom_goal status stop_by_status fresh
goal_in_between_example =
    goal_in_between world adapter params go_text 1002 1003 ready picture refl refl

abbrev configured : EdgeNode (Unit {0}) → EdgeNode (Unit {0})
configured n = record n {
  cache = some (record empty_cache { floor = none });
  adapter = some tt;
  observation_pub = true;
  remote_embedding_sub = true;
  embedding_subs = n.embedding_subs + 1;
}

abbrev running : EdgeNode (Unit {0}) → EdgeNode (Unit {0})
running n = record n {
  camera_open = true;
  goal_sub = true;
  odom_sub = true;
  path_pub = true;
  status_pub = true;
}

cleanup_after_retry_example :
    ((on_cleanup (running (configured init))).embedding_subs ≡ 0)
    × ((on_cleanup (running (configured (configured init)))).embedding_subs ≡ 0 + 1)
unfolding on_configure Cache.init stub
cleanup_after_retry_example =
    cleanup_after_retry adapter params (ok tt) (ok tt) init (running (configured init))
      (configured init) (running (configured (configured init))) refl refl refl refl refl

abbrev chunk : ActionChunk
chunk = record {
  frame_id = 5;
  num_tokens = 1;
  embed_dim = 4;
  values_fp16 = 0 ∷ 0x3C ∷ [];
  scaled_to_m = true;
  goal_id = "door";
  from_model = true;
}

abbrev phone_node : EdgeActionGrpcNode
phone_node = record { frame_id = "base_link"; spacing = one_f; bridge = Bridge.init "base_link" 10 }

handle_chunk-Tells_example :
    Tells chunk 7 phone_node
      (decode_action_chunk platform chunk phone_node.spacing phone_node.frame_id)
      (handle_chunk platform chunk 7 phone_node)
handle_chunk-Tells_example = handle_chunk-Tells platform chunk 7 phone_node
