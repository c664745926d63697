-- ===== src/Edge/Node/Races.antt =====
-- src/rvln_edge/rvln_edge/edge_node.py: what the action timer raises, alone and beside a goal.
use rvln.Prelude.{
  ℕ, ◌≡◌, refl, sym, ◌∙◌, ap, Option, none, some, List, [], ◌∷◌, Option-cases, inl, inr, subst,
  Bool-cases, not, ◌&&◌, is_some, ltb, ◌+◌, Error, Result, ok, raise, value_error, attribute_error,
}
use rvln.Float.{Float}
use rvln.Edge.Messages.{Image, GoalSpec, FramePath}
use rvln.Edge.Adapter.{EdgeAdapter}
use rvln.Edge.Cache.{
  EmbeddingCache, CachedEmbedding, invalidate, status, Status, waiting, fine, degraded, stale,
}
use rvln.Edge.Camera.{fresh}
use rvln.Edge.Ledger.{change_goal}
use rvln.Edge.Node.{Platform, Params, EdgeNode}
use rvln.Edge.Node.Ticks.{fresh_odom}
use rvln.Edge.Node.Callbacks.{on_goal, invalidate_cache}
use rvln.Edge.Node.Action.{
  Handled, action_begin, action_finish, action_tick, action_tick_local, stop_by_status,
  is_odom_goal, publish_logged, log_action_diag, predict, empty_path,
}

-- An outcome that raises is a value error, and the embedding is empty.
abbrev Raises : CachedEmbedding → Result (Unit {0}) → Type 0
Raises emb (ok u) = Unit
Raises emb (raise e) = (e ≡ value_error) × (emb.embedding ≡ [])

abbrev Cached : {A : Type 0} → EdgeNode A → CachedEmbedding → Type 0
Cached n emb = (c : EmbeddingCache) × (n.cache ≡ some c) × (c.latest ≡ some emb)

-- Up to the status test nothing is raised, and to go on there must be an embedding.
abbrev Begun : {A : Type 0} → EdgeNode A → Option (Handled A) → Type 0
Begun n none = (emb : CachedEmbedding) × Cached n emb
Begun n (some h) = h.0 ≡ ok tt

module _ {A : Type 0} (ops : EdgeAdapter A) (p : Params) where
  local-ok : (now : ℕ) (n : EdgeNode A) (a : A) → (action_tick_local ops p now n a).0 ≡ ok tt
  unfolding action_tick_local
  local-ok now n a = elim (Option-cases (fresh p.image_max_age now n.camera_frames)) [
    | inl missing ↦ rw (missing, action_tick_local) refl
    | inr (cur, present) ↦ rw (present, action_tick_local) refl
  ]

  -- Without an embedding the status is waiting.
  status-Begun :
      (now : ℕ) (c : EmbeddingCache) (n : EdgeNode A)
      → n.cache ≡ some c
      → Begun n (stop_by_status (status now c) n)
  unfolding stop_by_status status
  status-Begun now c n e = elim (Option-cases c.latest) [
    | inl missing ↦ rw (missing, status, stop_by_status) refl
    | inr (emb, latest) ↦ by_status (status now c) emb latest
  ]
    where
      by_status :
          (s : Status) (emb : CachedEmbedding) → c.latest ≡ some emb → Begun n (stop_by_status s n)
      by_status waiting emb latest = refl
      by_status stale emb latest = refl
      by_status fine emb latest = (emb, (c, e, latest))
      by_status degraded emb latest = (emb, (c, e, latest))

  begin-Begun : (now : ℕ) (n : EdgeNode A) → Begun n (action_begin ops p now n)
  unfolding action_begin
  begin-Begun now n = elim (Bool-cases n.path_pub) [
    | inr down ↦ rw (down, action_begin) refl
    | inl up ↦ elim (Option-cases n.adapter) [
      | inl missing ↦ rw (up, missing, action_begin) refl
      | inr (a, present) ↦ elim (Bool-cases n.local_mode) [
        | inl local ↦
            let goes : action_begin ops p now n ≡ some (action_tick_local ops p now n a) =
              simp (up, present, local, action_begin) in
            subst (Begun n) (sym goes) (local-ok now n a)
        | inr remote ↦ elim (Option-cases n.cache) [
          | inl empty ↦ rw (up, present, remote, empty, action_begin) refl
          | inr (c, cached) ↦
              elim (Bool-cases
                (is_odom_goal n.observations.goal && not (is_some (fresh_odom p now n)))) [
                  | inl blind ↦ rw (up, present, remote, cached, blind, action_begin) refl
                  | inr seeing ↦
                      let goes : action_begin ops p now n ≡ stop_by_status (status now c) n =
                        simp (up, present, remote, cached, seeing, action_begin) in
                      subst (Begun n) (sym goes) (status-Begun now c n cached)
                ]
        ]
      ]
    ]
  ]

  diag-Raises :
      (emb : CachedEmbedding) (v : List Float) (path : FramePath) (n : EdgeNode A)
      → emb.embedding ≡ v
      → Raises emb (publish_logged path (elim v [ [] ↦ raise value_error | x ∷ xs ↦ ok tt ], n)).0
  unfolding publish_logged
  diag-Raises emb [] path n e = (refl, e)
  diag-Raises emb (x ∷ xs) path n e = tt

  logged-Raises :
      (emb : CachedEmbedding) (now : ℕ) (path : FramePath) (n : EdgeNode A)
      → Raises emb (publish_logged path (log_action_diag emb now n)).0
  unfolding log_action_diag publish_logged
  logged-Raises emb now path n = elim (Bool-cases (ltb now (n.last_diag_log_ns + 1000000000))) [
    | inl early ↦ rw (early, log_action_diag) tt
    | inr due ↦
        rw (due, log_action_diag)
          (diag-Raises emb emb.embedding path (record n { last_diag_log_ns = now }) refl)
  ]

  finish-Raises :
      (now : ℕ) (n : EdgeNode A) (emb : CachedEmbedding)
      → Cached n emb
      → Raises emb (action_finish ops p now n).0
  unfolding action_finish predict
  finish-Raises now n emb (c, cached, latest) =
      elim (Option-cases (fresh p.image_max_age now n.camera_frames)) [
        | inl missing ↦ rw (cached, missing, action_finish) tt
        | inr (cur, present) ↦ elim (Option-cases n.adapter) [
          | inl no_adapter ↦
              let goes : action_finish ops p now n
                  ≡ publish_logged empty_path (log_action_diag emb now n) =
                simp (cached, present, latest, no_adapter, action_finish) in
              subst (λ h. Raises emb h.0) (sym goes) (logged-Raises emb now empty_path n)
          | inr (a, adapter) ↦
              let goes : action_finish ops p now n ≡ predict ops now emb cur a n =
                simp (cached, present, latest, adapter, action_finish) in
              subst (λ h. Raises emb h.0) (sym goes)
                (unfold predict in logged-Raises emb now _ (record n { adapter = _ }))
        ]
      ]

  -- When nothing runs in between, the action timer's callback raises in one case only: the cached
  -- embedding is empty, and the error is the value error of the diagnostic line.
  pub action_tick_raises :
      (now : ℕ) (n : EdgeNode A) (e : Error)
      → (action_tick ops p now n).0 ≡ raise e
      → (e ≡ value_error) × ((emb : CachedEmbedding) × Cached n emb × (emb.embedding ≡ []))
  unfolding action_tick
  action_tick_raises now n e raised = elim (Option-cases (action_begin ops p now n)) [
    | inl goes_on ↦
        let goes : action_tick ops p now n ≡ action_finish ops p now n =
          simp (goes_on, action_tick) in
        let begun : Begun n none = subst (Begun n) goes_on (begin-Begun now n) in
        let failed : (action_finish ops p now n).0 ≡ raise e = ap (λ h. h.0) (sym goes) ∙ raised in
        let why : Raises begun.0 (raise e) =
          subst (Raises begun.0) failed (finish-Raises now n begun.0 begun.1) in
        (why.0, (begun.0, begun.1, why.1))
    | inr (h, done) ↦
        let well : h.0 ≡ ok tt = subst (Begun n) done (begin-Begun now n) in
        let goes : action_tick ops p now n ≡ h = simp (done, action_tick) in
        let absurd : ok tt ≡ raise e = sym well ∙ ap (λ h. h.0) (sym goes) ∙ raised in cc
  ]

module _ {A : Type 0} (w : Platform) (ops : EdgeAdapter A) (p : Params) where
  -- A goal leaves the camera frames as they are and empties the cache.
  goal_empties :
      (goal : GoalSpec) (n : EdgeNode A) (c : EmbeddingCache)
      → n.cache ≡ some c
      → (on_goal w ops goal n).cache ≡ some (invalidate (some n.observations.frame_counter) c)
  unfolding on_goal change_goal invalidate_cache
  goal_empties goal n c e = rw e refl

  -- The action timer and the goal callback run in different groups. When a goal arrives after the
  -- timer read a usable status and before it reads the embedding, and a camera image is fresh, the
  -- timer's callback raises an attribute error and publishes nothing.
  pub goal_in_between :
      (goal : GoalSpec) (now later : ℕ) (n : EdgeNode A) (cur : Image)
      → action_begin ops p now n ≡ none
      → fresh p.image_max_age later n.camera_frames ≡ some cur
      → action_finish ops p later (on_goal w ops goal n)
        ≡ (raise attribute_error, [], on_goal w ops goal n)
  unfolding action_finish
  goal_in_between goal now later n cur goes_on present =
      let begun : Begun n none = subst (Begun n) goes_on (begin-Begun ops p now n) in
      let c = begun.1.0 in
      let emptied = goal_empties goal n c begun.1.1 in
      let same : fresh p.image_max_age later (on_goal w ops goal n).camera_frames ≡ some cur =
        unfold on_goal change_goal in present in
      let gone : (invalidate (some n.observations.frame_counter) c).latest ≡ none =
        unfold invalidate in refl in
      simp (emptied, same, gone, action_finish)
