-- ===== src/Edge/Node/Action.antt =====
-- src/rvln_edge/rvln_edge/edge_node.py: the action timer. Its callback runs in a group of its own,
-- beside the other callbacks, so it is cut where it reads the shared cache for the second time:
-- `action_begin` reads the status, `action_finish` reads the embedding. A callback that raises
-- leaves its error in the first component.
use rvln.Prelude.{
  ℕ, ◌+◌, Bool, false, not, ◌&&◌, Option, none, some, List, [], ◌∷◌, is_some, ltb, str_eq,
  if◌then◌else◌, Result, ok, raise, value_error, attribute_error,
}
use rvln.Edge.Messages.{Image, FramePath, Mode, GoalSpec}
use rvln.Edge.Adapter.{EdgeAdapter}
use rvln.Edge.Cache.{CachedEmbedding, Status, waiting, fine, degraded, stale, status}
use rvln.Edge.Camera.{fresh}
use rvln.Edge.Node.{Params, EdgeNode, Output, path_out}
use rvln.Edge.Node.Ticks.{fresh_odom}

abbrev pub empty_path : FramePath
empty_path = record { frame_id = "base_link"; poses = [] }

unfoldable pub is_odom_goal : Option GoalSpec → Bool
is_odom_goal none = false
is_odom_goal (some goal) = elim goal.mode [ Mode.pose ↦ str_eq goal.frame_id "odom" | _ ↦ false ]

abbrev pub Handled : Type 0 → Type 0
Handled A = Result (Unit {0}) × List Output × EdgeNode A

-- A failed prediction is an empty path.
abbrev pub path_or_stop : Result FramePath → FramePath
path_or_stop (ok path) = path
path_or_stop (raise e) = empty_path

module _ {A : Type 0} where
  -- The throttled diagnostic line: `np.abs(arr).max()` raises on an empty array.
  unfoldable pub log_action_diag : CachedEmbedding → ℕ → EdgeNode A → Result (Unit {0}) × EdgeNode A
  log_action_diag emb now n = if ltb now (n.last_diag_log_ns + 1000000000) then (ok tt, n) else (
    elim emb.embedding [ [] ↦ raise value_error | v ∷ vs ↦ ok tt ],
    record n { last_diag_log_ns = now },
  )

  unfoldable pub action_tick_local : EdgeAdapter A → Params → ℕ → EdgeNode A → A → Handled A
  action_tick_local ops p now n a = elim (fresh p.image_max_age now n.camera_frames) [
    | none ↦ (ok tt, path_out empty_path ∷ [], n)
    | some cur ↦
        let (predicted, a') = ops.predict_path none cur cur "base_link" a in
        (ok tt, path_out (path_or_stop predicted) ∷ [], record n { adapter = some a' })
  ]

  -- `if status in ("WAITING_FOR_REMOTE", "STALE"): self._publish_empty_path(); return`
  unfoldable pub stop_by_status : Status → EdgeNode A → Option (Handled A)
  stop_by_status waiting n = some (ok tt, path_out empty_path ∷ [], n)
  stop_by_status stale n = some (ok tt, path_out empty_path ∷ [], n)
  stop_by_status fine n = none
  stop_by_status degraded n = none

  -- `_action_tick` up to its status test: none to go on, or what it did.
  unfoldable pub action_begin : EdgeAdapter A → Params → ℕ → EdgeNode A → Option (Handled A)
  unfolding is_odom_goal
  action_begin ops p now n = if not n.path_pub then some (ok tt, [], n) else elim n.adapter [
    | none ↦ some (ok tt, [], n)
    | some a ↦ if n.local_mode then some (action_tick_local ops p now n a) else elim n.cache [
      | none ↦ some (ok tt, [], n)
      | some c ↦
          if is_odom_goal n.observations.goal && not (is_some (fresh_odom p now n))
          then some (ok tt, path_out empty_path ∷ [], n)
          else stop_by_status (status now c) n
    ]
  ]

  unfoldable pub publish_logged : FramePath → Result (Unit {0}) × EdgeNode A → Handled A
  publish_logged path (ok u, n) = (ok tt, path_out path ∷ [], n)
  publish_logged path (raise e, n) = (raise e, [], n)

  -- `past` is the frame that the embedding was computed from, or else the current one.
  unfoldable pub predict : EdgeAdapter A → ℕ → CachedEmbedding → Image → A → EdgeNode A → Handled A
  unfolding publish_logged log_action_diag
  predict ops now emb cur a n =
      let past : Image = elim emb.obs_image_rgb [ none ↦ cur | some img ↦ img ] in
      let (predicted, a') =
        ops.predict_path
          (some (record {
            values = emb.embedding;
            num_tokens = emb.num_tokens;
            embed_dim = emb.embed_dim;
          }))
          cur past "base_link" a in
      publish_logged (path_or_stop predicted)
        (log_action_diag emb now (record n { adapter = some a' }))

  -- `self._cache`, the embedding and the adapter are read again: an attribute of `None` raises, but
  -- a missing adapter raises inside the `try` and makes an empty path.
  unfoldable pub action_finish : EdgeAdapter A → Params → ℕ → EdgeNode A → Handled A
  unfolding predict
  action_finish ops p now n = elim n.cache [
    | none ↦ (raise attribute_error, [], n)
    | some c ↦ elim (fresh p.image_max_age now n.camera_frames) [
      | none ↦ (ok tt, path_out empty_path ∷ [], n)
      | some cur ↦ elim c.latest [
        | none ↦ (raise attribute_error, [], n)
        | some emb ↦ elim n.adapter [
          | none ↦ publish_logged empty_path (log_action_diag emb now n)
          | some a ↦ predict ops now emb cur a n
        ]
      ]
    ]
  ]

  -- The callback with nothing in between.
  unfoldable pub action_tick : EdgeAdapter A → Params → ℕ → EdgeNode A → Handled A
  unfolding action_begin action_finish
  action_tick ops p now n = elim (action_begin ops p now n) [
    | some handled ↦ handled
    | none ↦ action_finish ops p now n
  ]
