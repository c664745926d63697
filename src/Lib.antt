-- ===== src/Lib.antt =====
-- Four sides of rvln: the edge, which runs on the robot between the camera, the remote model and
-- the wheels; the inference node with its backends, which answers the edge; the engine of the
-- OmniVLA-edge policy, which a backend of the node runs; and the benchmark's programs, which drive a
-- robot or a simulator by a policy's actions, one episode or a batch of them.
--
-- A camera image and a goal go out as an observation with a frame ID; the remote model answers with
-- an action embedding; the edge adapter turns it into a path; the path follower turns the path into
-- velocity commands. Phones and browsers may send action chunks instead, which become paths in a
-- bridge. The parts share state through locks, and the callbacks of the node run in two groups of a
-- multi-threaded executor. In the benchmark, a bridge asks a NaVIDA server for one motion at a time and
-- waits for a measured stop before the next image; and an episode runs a simulator against a policy
-- server, frame by frame; a batch runs each episode in a child process and audits the traces; and a
-- live episode relays the edge's observations to a server over HTTP and gates the follower.
--
-- Files, with the code they model (paths from the repository's root):
--  - Prelude: shared names, Boolean tests on numbers, lists over native numbers, results.
--  - Float: IEEE doubles as a sign and the bits of a magnitude, with comparisons, min and max as
--    Python computes them. Arithmetic and libm are a parameter, the record `Arith`; Float/Laws states
--    what a theorem needs of it (signs, monotone rounding, NaN spreads).
--  - Edge/Messages: the ROS messages with the fields that the code reads.
--  - Edge/Cache: src/rvln_edge/rvln_edge/embedding_cache.py. put, invalidate, get_fresh, status.
--  - Edge/Camera, Edge/SentFrames, Edge/Ledger: src/rvln_edge/rvln_edge/observation_state.py.
--  - Edge/Fp16: src/rvln_proto/rvln_proto/conversions.py, the decoder.
--  - Edge/Trajectory: src/rvln_edge/rvln_edge/adapters/_path_util.py and decode_path.
--  - Edge/Bridge: src/rvln_edge/rvln_edge/action_path_bridge.py.
--  - Edge/ActionGrpc: src/rvln_edge/rvln_edge/edge_action_grpc_node.py.
--  - Edge/Json, Edge/ActionWs: src/rvln_edge/rvln_edge/edge_action_ws_node.py. JSON values are a data
--    type; json.loads, int of a text and base64 are the parameter `Library`.
--  - Edge/Capture: src/rvln_edge/rvln_edge/camera_capture.py, a round of the loop at a time.
--  - Edge/Preprocess: src/rvln_edge/rvln_edge/preprocess.py, the checks around OpenCV.
--  - Edge/Waypoint: src/rvln_edge/rvln_edge/waypoint_pd.py.
--  - Edge/Pursuit: src/rvln_edge/rvln_edge/pure_pursuit.py.
--  - Edge/Follower: src/rvln_edge/rvln_edge/path_follower_node.py.
--  - Edge/Adapter: src/rvln_edge/rvln_edge/adapters/base.py, stub.py, omnivla.py;
--    Adapter/Local: omnivla_edge_local.py; Adapter/Delta: _delta_to_pose_np of asyncvla.py.
--  - Edge/Node: src/rvln_edge/rvln_edge/edge_node.py. Callbacks, Ticks (sending, status), Action (the
--    action timer, cut where it reads the cache twice), Lifecycle; Events runs them in any order.
--  - Float/Literals, Float/Clip: the literals of the benchmark's clients, and clipping to a limit.
--  - Bench/Step: bench/src/bench/navida_step.py, the class StepCycle. Observing (odometry),
--    Commanding (velocities), Runs (calls in any order); proofs in Commanding/Bounds, Valid, Replies
--    and Halting.
--  - Bench/Navida: bench/src/bench/live_navida.py, the class NavidaStepBridge. Callbacks, Ticking (the
--    timer), Events (callbacks in any order), Shutdown (destroy_node); proofs in Limits, Safety,
--    Flight and Shutdown/Standing.
--  - Bench/Calls: calls that change a state and may raise.
--  - Bench/Episode: bench/src/bench/episode.py, the observation and run_episode; Shape and Ends are
--    proofs. Bench/Policy: its HTTP policy, and bench/src/isaac_r2r/policy.py.
--  - Bench/Session: bench/src/isaac_r2r/policy_server.py and cma_inputs.py, the session and its checks;
--    Acting (the requests); proofs in Replays, Serves and Completes.
--  - Bench/Batch: bench/src/isaac_r2r/batch.py; Summary: summary.py; Running: run_batch from its checks
--    on. Proofs in Rows, Covers, Resume, Retries and Recovers.
--  - Bench/Live: bench/src/isaac_rvln/live_transport.py, the node's callbacks; Running: spin_until,
--    set_bool and run. Proofs in Exchanges, Answers, Keeping, Stopping and Ends.
--  - Core/Engine: src/rvln_core/rvln_core/omnivla_edge_engine.py. Proofs in History (the ring), Plain
--    (against an engine that forgets nothing) and Shapes (what is stacked).
--  - Remote/Backend: src/rvln_remote/rvln_remote/backends/base.py and dummy.py.
--  - Remote/Inference: src/rvln_remote/rvln_remote/inference_node.py; proofs in Replies and Caching,
--    the latter with the edge node.
--  - Remote/Navida: src/rvln_remote/rvln_remote/backends/navida.py; History is a proof.
--  - Remote/OmniEdge: src/rvln_remote/rvln_remote/backends/omnivla_edge.py over Core/Engine; Warmup and
--    Paths are proofs, the latter with the inference node and the adapter on the robot.
--  - Tests: concrete runs, and each theorem with hypotheses at an input that meets them.
--
-- Conventions. A method that holds its lock is one step. Clock readings and durations are natural
-- numbers, nanoseconds where the code uses nanoseconds and otherwise a unit in which the durations
-- are whole; a test on a difference of times is written with a sum. A callback of the node reads the
-- clock once in the model. Frame IDs and counters are unbounded, as Python's integers are. An
-- exception is a value of `Result`; what a lifecycle transition changed before it raised is not
-- kept. Every loop of the code goes over a list, or counts its steps; the one that runs on fuel, the
-- search for a free log name in Bench/Batch, has more of it than any number that a log has, and finds
-- one. The loops of a live episode are given as the list of the turns that begin before their deadline.
--
-- A callback of the NaVIDA bridge takes the answers of a service or a worker, as they stand when it
-- looks, as arguments. The numbers of a NaVIDA chunk are below 2^53, where a double is exact, and
-- `sum` adds from the left.
--
-- `math.cos` and `math.sin` refuse an infinity. Where the caller gives the angle (the heading of
-- the pursuit controller, the pose goal of the engine) the model raises too; elsewhere the angle
-- comes from atan2, or from odometry whose numbers the bridge has checked to be finite, and they
-- are total.
--
-- Not modelled: rclpy (executors, quality of service), gRPC, asyncio, websockets and urllib, numpy
-- beyond lists and shapes, PIL and OpenCV (parameters), the learned adapters and backends (the
-- parameters `EdgeAdapter` and `VlaBackend`), the network of src/rvln_core and CLIP (the parameter
-- `Networks`), regular expressions (their groups are the input), log texts and printed events,
-- exceptions outside the tuples that the code catches, the simulators, the scores and reports of bench,
-- the command line of a batch's child and the loading of its split, the video and the report of a live
-- episode, app, web, and the launch files.

pub mod Prelude
pub mod Float
pub mod Edge
pub mod Core
pub mod Bench
pub mod Remote
pub mod Tests
