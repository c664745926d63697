-- ===== src/Edge/Node/Cycle.antt =====
-- src/rvln_edge/rvln_edge/edge_node.py: the transitions over a configure and cleanup cycle.
use rvln.Prelude.{◌+◌, ◌≡◌, Bool, true, false, Result, ok, arith}
use rvln.Edge.Adapter.{EdgeAdapter}
use rvln.Edge.Cache as Cache
use rvln.Edge.Node.{Params, EdgeNode}
use rvln.Edge.Node.Lifecycle.{
  on_configure, on_cleanup, success, failure, configure_remote, configure_camera, configure_topics,
}

module _ {A : Type 0} (ops : EdgeAdapter A) (p : Params) where
  cleanup-configure :
      (built : Result A) (opens : Bool) (n n' : EdgeNode A)
      → n.remote_embedding_sub ≡ false
      → on_configure ops p built opens n ≡ ok (success, n')
      → (on_cleanup n').embedding_subs ≡ n.embedding_subs
  unfolding on_configure on_cleanup configure_remote configure_camera configure_topics Cache.init
  cleanup-configure built opens n n' free done = ground arith

  retry_leaks :
      (first second : Result A) (n n1 n2 : EdgeNode A) (opens : Bool)
      → ops.is_local ≡ false
      → on_configure ops p first false n ≡ ok (failure, n1)
      → on_configure ops p second opens n1 ≡ ok (success, n2)
      → (on_cleanup n2).embedding_subs ≡ n.embedding_subs + 1
  unfolding on_configure on_cleanup configure_remote configure_camera configure_topics Cache.init
  retry_leaks first second n n1 n2 opens remote failed done = ground arith

  -- A node with a remote adapter holds no subscription to the remote embeddings. When it is
  -- configured, and then cleaned up, there are as many subscriptions as before. But a configure that
  -- fails at the camera leaves its subscription behind: after a second one that succeeds, and the
  -- cleanup, there is one subscription more than before.
  pub cleanup_after_retry :
      (first second : Result A) (n once failed again : EdgeNode A)
      → ops.is_local ≡ false
      → n.remote_embedding_sub ≡ false
      → on_configure ops p first true n ≡ ok (success, once)
      → on_configure ops p first false n ≡ ok (failure, failed)
      → on_configure ops p second true failed ≡ ok (success, again)
      → ((on_cleanup once).embedding_subs ≡ n.embedding_subs)
        × ((on_cleanup again).embedding_subs ≡ n.embedding_subs + 1)
  cleanup_after_retry first second n once failed again remote free done fails redone = (
    cleanup-configure first true n once free done,
    retry_leaks first second n failed again true remote fails redone,
  )
