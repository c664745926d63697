-- ===== src/Edge/Node/Correlation.antt =====
-- src/rvln_edge/rvln_edge/edge_node.py: replies and goals, over any order of the callbacks.
use rvln.Prelude.{ℕ, ◌<◌, ◌≡◌, refl, some, List, [], ◌∷◌, All, All-append, subst, arith}
use rvln.Edge.Messages.{GoalSpec}
use rvln.Edge.Adapter.{EdgeAdapter}
use rvln.Edge.Cache.{EmbeddingCache, CachedEmbedding}
use rvln.Edge.Cache.Order.{Above}
use rvln.Edge.Node.{
  Platform, Params, EdgeNode, Output, path_out, observation_out, embedding_out, status_out,
}
use rvln.Edge.Node.Callbacks.{on_goal}
use rvln.Edge.Node.Events.{Event, goal_event, handle, run}
use rvln.Edge.Node.Sends.{SentBy, sent-weaken}
use rvln.Edge.Node.Guard.{Advances, same_cache, goal-Guarded, handle-Advances}

-- An observation among the outputs has an ID below `f`.
abbrev pub SentBefore : ℕ → Output → Type 0
SentBefore f (observation_out o) = o.frame_id < f
SentBefore f (path_out x) = Unit
SentBefore f (embedding_out x) = Unit
SentBefore f (status_out x y z) = Unit

sent_before : (k f : ℕ) (out : List Output) → k < f → All (SentBy k) out → All (SentBefore f) out
sent_before k f [] h a = tt
sent_before k f (observation_out o ∷ out) h a = (omega (arith, a.0), sent_before k f out h a.1)
sent_before k f (path_out x ∷ out) h a = (tt, sent_before k f out h a.1)
sent_before k f (embedding_out x ∷ out) h a = (tt, sent_before k f out h a.1)
sent_before k f (status_out x y z ∷ out) h a = (tt, sent_before k f out h a.1)

module _ {A : Type 0} (w : Platform) (ops : EdgeAdapter A) (p : Params) where
  run-Advances : (events : List Event) (n : EdgeNode A) → Advances n (run w ops p events n)
  unfolding run
  run-Advances [] n = same_cache n ([], n) tt (omega arith) refl
  run-Advances (event ∷ events) n =
      let now = handle-Advances w ops p event n in
      let n' = (handle w ops p event n).1 in
      let later = run-Advances events n' in
      let k = (run w ops p events n').1.observations.frame_counter in
      record {
        sent =
            All-append (SentBy k) (handle w ops p event n).0 (run w ops p events n').0
              (sent-weaken n'.observations.frame_counter k (handle w ops p event n).0 later.counted
                now.sent)
              later.sent;
        counted = omega (arith, now.counted, later.counted);
        present = λ h. later.present (now.present h);
        guarded = λ k h. later.guarded k (now.guarded k h);
      }

  -- An active node with a cache runs any callbacks, then receives a goal, then runs any others. If
  -- an embedding is cached in the end, then its frame ID is above that of every observation that was
  -- sent before the goal: a late reply to an earlier goal's observation is never kept.
  pub stale_reply_never_cached :
      (before after : List Event) (goal : GoalSpec) (n : EdgeNode A) (c c' : EmbeddingCache)
      (e : CachedEmbedding)
      → n.cache ≡ some c
      → (run w ops p (goal_event goal ∷ after) (run w ops p before n).1).1.cache ≡ some c'
      → c'.latest ≡ some e
      → All (SentBefore e.frame_id) (run w ops p before n).0
  unfolding run handle
  stale_reply_never_cached before after goal n c c' e present cached latest =
      let earlier = run-Advances before n in
      let n1 = (run w ops p before n).1 in
      let k = n1.observations.frame_counter in
      let start = goal-Guarded w ops p goal n1 k (omega arith) (earlier.present (c, present)) in
      let last = (run-Advances after (on_goal w ops goal n1)).guarded k start in
      let same : last.1.0 ≡ c' = cc in
      let kept : Above k c' = subst (Above k) same last.1.2 in
      sent_before k e.frame_id (run w ops p before n).0 (kept.above e latest) earlier.sent
