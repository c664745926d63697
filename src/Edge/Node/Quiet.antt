-- ===== src/Edge/Node/Quiet.antt =====
-- src/rvln_edge/rvln_edge/edge_node.py: the action timer publishes paths only, and touches neither
-- the ledger nor the cache.
use rvln.Prelude.{
  ℕ, ◌+◌, ◌≡◌, refl, Option, none, some, [], ◌∷◌, All, subst, sym, Bool-cases, Option-cases, inl,
  inr, not, ◌&&◌, is_some, Result, ok, raise, value_error, attribute_error, ltb,
}
use rvln.Edge.Messages.{Image, FramePath}
use rvln.Edge.Adapter.{EdgeAdapter}
use rvln.Edge.Cache.{CachedEmbedding, Status, waiting, fine, degraded, stale, status}
use rvln.Edge.Camera.{fresh}
use rvln.Edge.Node.{Params, EdgeNode}
use rvln.Edge.Node.Ticks.{fresh_odom}
use rvln.Edge.Node.Action.{
  Handled, action_tick, action_tick_local, action_finish, action_begin, log_action_diag,
  is_odom_goal, empty_path, predict, publish_logged, stop_by_status,
}
use rvln.Edge.Node.Sends.{SentBy}

-- What a callback did: no observation sent, the ledger and the cache as before.
abbrev pub Quiet : {A : Type 0} → EdgeNode A → Handled A → Type 0
Quiet n h = All (SentBy 0) h.1 × (h.2.observations ≡ n.observations) × (h.2.cache ≡ n.cache)

module _ {A : Type 0} (ops : EdgeAdapter A) (p : Params) where
  abbrev pub BeginOk : EdgeNode A → Option (Handled A) → Type 0
  BeginOk n none = Unit
  BeginOk n (some h) = Quiet n h

  local-Quiet : (now : ℕ) (n : EdgeNode A) (a : A) → Quiet n (action_tick_local ops p now n a)
  unfolding action_tick_local
  local-Quiet now n a = elim (Option-cases (fresh p.image_max_age now n.camera_frames)) [
    | inl missing ↦ rw (missing, action_tick_local) ((tt, tt), refl, refl)
    | inr (cur, present) ↦ rw (present, action_tick_local) ((tt, tt), refl, refl)
  ]

  status-ok : (s : Status) (n : EdgeNode A) → BeginOk n (stop_by_status s n)
  unfolding stop_by_status
  status-ok waiting n = ((tt, tt), refl, refl)
  status-ok stale n = ((tt, tt), refl, refl)
  status-ok fine n = tt
  status-ok degraded n = tt

  begin-ok : (now : ℕ) (n : EdgeNode A) → BeginOk n (action_begin ops p now n)
  unfolding action_begin
  begin-ok now n = elim (Bool-cases n.path_pub) [
    | inr down ↦ rw (down, action_begin) (tt, refl, refl)
    | inl up ↦ elim (Option-cases n.adapter) [
      | inl missing ↦ rw (up, missing, action_begin) (tt, refl, refl)
      | inr (a, present) ↦ elim (Bool-cases n.local_mode) [
        | inl local ↦
            let goes : action_begin ops p now n ≡ some (action_tick_local ops p now n a) =
              simp (up, present, local, action_begin) in
            subst (BeginOk n) (sym goes) (local-Quiet now n a)
        | inr remote ↦ elim (Option-cases n.cache) [
          | inl empty ↦ rw (up, present, remote, empty, action_begin) (tt, refl, empty)
          | inr (c, cached) ↦
              elim (Bool-cases
                (is_odom_goal n.observations.goal && not (is_some (fresh_odom p now n)))) [
                  | inl blind ↦
                      rw (up, present, remote, cached, blind, action_begin) ((tt, tt), refl, cached)
                  | inr seeing ↦
                      let goes : action_begin ops p now n ≡ stop_by_status (status now c) n =
                        simp (up, present, remote, cached, seeing, action_begin) in
                      subst (BeginOk n) (sym goes) (status-ok (status now c) n)
                ]
        ]
      ]
    ]
  ]

  logged-Quiet :
      (path : FramePath) (n : EdgeNode A) (r : Result (Unit {0})) (t : ℕ)
      → Quiet n (publish_logged path (r, record n { last_diag_log_ns = t }))
  unfolding publish_logged
  logged-Quiet path n (ok u) t = ((tt, tt), refl, refl)
  logged-Quiet path n (raise e) t = (tt, refl, refl)

  log-Quiet :
      (emb : CachedEmbedding) (now : ℕ) (path : FramePath) (n : EdgeNode A)
      → Quiet n (publish_logged path (log_action_diag emb now n))
  unfolding log_action_diag publish_logged
  log-Quiet emb now path n = elim (Bool-cases (ltb now (n.last_diag_log_ns + 1000000000))) [
    | inl early ↦ rw (early, log_action_diag) ((tt, tt), refl, refl)
    | inr due ↦
        rw (due, log_action_diag)
          (logged-Quiet path n (elim emb.embedding [ [] ↦ raise value_error | v ∷ vs ↦ ok tt ]) now)
  ]

  predict-Quiet :
      (now : ℕ) (emb : CachedEmbedding) (cur : Image) (a : A) (n : EdgeNode A)
      → Quiet n (predict ops now emb cur a n)
  unfolding predict
  predict-Quiet now emb cur a n = log-Quiet emb now _ (record n { adapter = _ })

  finish-Quiet : (now : ℕ) (n : EdgeNode A) → Quiet n (action_finish ops p now n)
  unfolding action_finish predict
  finish-Quiet now n = elim (Option-cases n.cache) [
    | inl empty ↦ rw (empty, action_finish) (tt, refl, empty)
    | inr (c, cached) ↦ elim (Option-cases (fresh p.image_max_age now n.camera_frames)) [
      | inl missing ↦ rw (cached, missing, action_finish) ((tt, tt), refl, cached)
      | inr (cur, present) ↦ elim (Option-cases c.latest) [
        | inl none_left ↦
            let goes : action_finish ops p now n ≡ (raise attribute_error, [], n) =
              simp (cached, present, none_left, action_finish) in
            subst (Quiet n) (sym goes) (tt, refl, refl)
        | inr (emb, latest) ↦ elim (Option-cases n.adapter) [
          | inl no_adapter ↦
              let goes : action_finish ops p now n
                  ≡ publish_logged empty_path (log_action_diag emb now n) =
                simp (cached, present, latest, no_adapter, action_finish) in
              subst (Quiet n) (sym goes) (log-Quiet emb now empty_path n)
          | inr (a, adapter) ↦
              let goes : action_finish ops p now n ≡ predict ops now emb cur a n =
                simp (cached, present, latest, adapter, action_finish) in
              subst (Quiet n) (sym goes) (predict-Quiet now emb cur a n)
        ]
      ]
    ]
  ]

  pub action-Quiet : (now : ℕ) (n : EdgeNode A) → Quiet n (action_tick ops p now n)
  unfolding action_tick
  action-Quiet now n = elim (Option-cases (action_begin ops p now n)) [
    | inl goes_on ↦ rw (goes_on, action_tick) (finish-Quiet now n)
    | inr (h, done) ↦
        let kept : BeginOk n (some h) = subst (BeginOk n) done (begin-ok now n) in
        rw (done, action_tick) kept
  ]
