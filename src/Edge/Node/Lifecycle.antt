-- ===== src/Edge/Node/Lifecycle.antt =====
-- src/rvln_edge/rvln_edge/edge_node.py: the lifecycle transitions. Building the adapter loads model
-- weights and opening the camera asks the driver: their results are arguments.
use rvln.Prelude.{◌+◌, ◌-◌, Bool, true, false, none, some, str_eq, if◌then◌else◌, Result, ok, ◌>>=◌}
use rvln.Edge.Adapter.{EdgeAdapter}
use rvln.Edge.Cache as Cache
use rvln.Edge.Camera as Camera
use rvln.Edge.Ledger as Ledger
use rvln.Edge.Node.{Params, EdgeNode}

-- TransitionCallbackReturn
pub data Transition : Type 0 where
  success failure : Transition

module _ {A : Type 0} where
  -- the cache, the adapter and, unless the adapter is local, the remote topics
  unfoldable pub configure_remote :
      EdgeAdapter A → Params → Result A → EdgeNode A → Result (EdgeNode A)
  configure_remote ops p built n = do
    cache ← Cache.init p.embedding_max_age p.embedding_hard_timeout
    adapter ← built
    ok (
        if ops.is_local
        then record n { cache = some cache; adapter = some adapter; local_mode = true }
        else record n {
          cache = some cache;
          adapter = some adapter;
          local_mode = false;
          observation_pub = true;
          remote_embedding_sub = true;
          embedding_subs = n.embedding_subs + 1;
        })

  -- the other topics, once the camera is settled
  unfoldable pub configure_topics : Params → Bool → Bool → EdgeNode A → EdgeNode A
  configure_topics p opened subscribes n = record n {
    camera_open = opened;
    image_sub = if subscribes then true else n.image_sub;
    goal_sub = true;
    odom_sub = true;
    path_pub = true;
    status_pub = true;
    embedding_pub = if p.publish_embedding_debug then true else n.embedding_pub;
  }

  unfoldable pub configure_camera : Params → Bool → EdgeNode A → Transition × EdgeNode A
  unfolding configure_topics
  configure_camera p opens n =
      if str_eq p.camera_device ""
      then (success, configure_topics p n.camera_open true n)
      else if opens
      then (success, configure_topics p true false n)
      else (failure, n)

  -- `built` is what constructing the adapter gives, `opens` whether the camera opens.
  unfoldable pub on_configure :
      EdgeAdapter A → Params → Result A → Bool → EdgeNode A → Result (Transition × EdgeNode A)
  unfolding configure_remote configure_camera
  on_configure ops p built opens n = do
    n' ← configure_remote ops p built n
    ok (configure_camera p opens n')

  unfoldable pub on_activate : EdgeNode A → EdgeNode A
  on_activate n = record n {
    send_timer = if n.local_mode then n.send_timer else true;
    action_timer = true;
    status_timer = true;
  }

  unfoldable pub on_deactivate : EdgeNode A → EdgeNode A
  on_deactivate n = record n {
    camera_frames = Camera.clear n.camera_frames;
    send_timer = false;
    action_timer = false;
    status_timer = false;
  }

  unfoldable pub on_cleanup : EdgeNode A → EdgeNode A
  on_cleanup n = record n {
    camera_frames = Camera.clear n.camera_frames;
    camera_open = false;
    observations = Ledger.reset n.observations;
    embedding_subs = if n.remote_embedding_sub then n.embedding_subs - 1 else n.embedding_subs;
    remote_embedding_sub = false;
    observation_pub = false;
    cache = none;
    adapter = none;
    local_mode = false;
    image_sub = false;
    goal_sub = false;
    odom_sub = false;
    latest_odom = none;
    odom_received_ns = 0;
    path_pub = false;
    status_pub = false;
    embedding_pub = false;
  }

  -- It only logs: neither the timers nor the topics are touched.
  unfoldable pub on_shutdown : EdgeNode A → Transition × EdgeNode A
  on_shutdown n = (success, n)
