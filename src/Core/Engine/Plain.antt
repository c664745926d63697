-- ===== src/Core/Engine/Plain.antt =====
-- The engine, against one that keeps every frame and no text.
use rvln.Prelude.{
  ◌<◌, ◌≡◌, refl, sym, subst, ap, ◌∙◌, String, none, some, List, [], ◌∷◌, ◌++◌, length,
  length-append, str_eq, eq_iff, if◌then◌else◌, Result, Error, ok, raise, value_error, ◌>>=◌,
  Result-cases, Option-cases, Bool-cases, inl, inr, arith,
}
use rvln.Float.{Float, Arith}
use rvln.Edge.Messages.{Image}
use rvln.Remote.Backend.{Tensor}
use rvln.Core.Engine.{
  Networks, Engine, Request, modality_id_for, last_n, stack_frames, push_frame, or_xxxx,
  normalize_chw, goal_pose_of, goal_image_of, cached_text, text_features, make_engine, reset,
  infer_image, infer_chunk,
}
use rvln.Core.Engine.History.{window, push_frame-last_n, stack-window}

pub data Command : Type 0 where
  infer_call : Request → Command
  reset_call : Command

-- The text of a goal, or none.
abbrev text_for : Request → String
text_for q = if str_eq q.goal_mode "text" then q.goal_text else ""

module _ (m : Arith) (to_f32 : Float → Float) {F T : Type 0} (net : Networks F T) where
  -- The results of calls on the engine, in their order.
  unfoldable pub run : List Command → Engine F T → List (Result Tensor)
  run [] e = []
  run (infer_call q ∷ rest) e = let (r, e') = infer_chunk m to_f32 net q e in r ∷ run rest e'
  run (reset_call ∷ rest) e = run rest (reset m to_f32 net e)

  -- The network's answer for all the frames since the last reset, the current one included.
  unfoldable pub plain_infer : F → List F → Request → Image → Result Tensor
  plain_infer black log q image = do
    large ← normalize_chw m to_f32 net image 224
    modality ← modality_id_for q.goal_mode
    pose ← goal_pose_of m to_f32 net q.goal_pose
    goal ← goal_image_of m to_f32 net black q
    feat ← net.encode_text (or_xxxx (text_for q))
    net.forward (record {
      obs_images = window log;
      goal_pose = pose;
      map_images = black ∷ black ∷ last_n 1 (window log);
      goal_image = goal;
      modality_id = modality;
      feat_text = feat;
      cur_large = large;
    })

  -- The frame of the current image, if it makes one.
  unfoldable pub frame_of : Request → Result (Image × F)
  frame_of q = elim q.cur_image [
    | none ↦ raise value_error
    | some image ↦ (normalize_chw m to_f32 net image 96 >>= λ frame. ok (image, frame))
  ]

  -- Nothing is forgotten but at a reset, and every text is encoded again.
  unfoldable pub plain_run : F → List F → List Command → List (Result Tensor)
  plain_run black log [] = []
  plain_run black log (infer_call q ∷ rest) = elim (frame_of q) [
    | raise err ↦ raise err ∷ plain_run black log rest
    | ok (image, frame) ↦
        let seen = log ++ frame ∷ [] in plain_infer black seen q image ∷ plain_run black seen rest
  ]
  plain_run black log (reset_call ∷ rest) = plain_run black [] rest

  -- What is cached is what encoding the text again would give.
  abbrev pub CacheOk : Engine F T → Type 0
  CacheOk e =
      (text : String) (feat : T)
      → cached_text m to_f32 net text e ≡ some feat
      → net.encode_text (or_xxxx text) ≡ ok feat

  pub record Stands (black : F) (log : List F) (e : Engine F T) : Type 0 where
    pub ring : e.obs_ring ≡ last_n 6 log
    pub cache : CacheOk e
    pub black96 : e.black96 ≡ black

  cached_text-after :
      (text k : String) (feat f : T) (e : Engine F T)
      → cached_text m to_f32 net k
          (record e { text_cache_key = some text; text_cache_feat = some feat })
        ≡ some f
      → (k ≡ text) × (feat ≡ f)
  unfolding cached_text
  cached_text-after text k feat f e h = elim (Bool-cases (str_eq k text)) [
    | inl same ↦ ((eq_iff k text).0 same, ground arith)
    | inr other ↦ absurd (ground arith)
  ]

  text_features-CacheOk :
      (text : String) (e : Engine F T)
      → CacheOk e
      → CacheOk (text_features m to_f32 net text e).1
        × ((text_features m to_f32 net text e).0 ≡ net.encode_text (or_xxxx text))
        × ((text_features m to_f32 net text e).1.obs_ring ≡ e.obs_ring)
        × ((text_features m to_f32 net text e).1.black96 ≡ e.black96)
  unfolding text_features
  text_features-CacheOk text e c = elim (Option-cases (cached_text m to_f32 net text e)) [
    | inr (feat, hit) ↦
        let kept : e ≡ (text_features m to_f32 net text e).1 = ground arith in
        (subst CacheOk kept c, ground (arith, c text feat hit), ground arith, ground arith)
    | inl miss ↦ elim (Result-cases (net.encode_text (or_xxxx text))) [
      | inr (err, failed) ↦
          let kept : e ≡ (text_features m to_f32 net text e).1 = ground arith in
          (subst CacheOk kept c, ground arith, ground arith, ground arith)
      | inl (feat, encoded) ↦
          let e' : Engine F T = record e {
            text_cache_key = some text;
            text_cache_feat = some feat;
          } in
          let stored : e' ≡ (text_features m to_f32 net text e).1 = ground arith in
          let fresh : CacheOk e' = λ k f hit.
            let (same, found) = cached_text-after text k feat f e hit in
            subst (λ (t : String). net.encode_text (or_xxxx t) ≡ ok f) (sym same)
              (encoded ∙ ap ok found) in
          (subst CacheOk stored fresh, ground arith, ground arith, ground arith)
    ]
  ]

  -- After the frame is stacked, the engine and the plain one do the same.
  pub infer_image-plain :
      (black frame : F) (log : List F) (q : Request) (image : Image) (e : Engine F T)
      → Stands black log e
      → normalize_chw m to_f32 net image 96 ≡ ok frame
      → ((infer_image m to_f32 net q image e).0 ≡ plain_infer black (log ++ frame ∷ []) q image)
        × Stands black (log ++ frame ∷ []) (infer_image m to_f32 net q image e).1
  unfolding infer_image plain_infer cached_text
  infer_image-plain black frame log q image e s ready =
      let seen : List F = log ++ frame ∷ [] in
      let pushed : Engine F T = record e { obs_ring = push_frame frame e.obs_ring } in
      let ring : push_frame frame e.obs_ring ≡ last_n 6 seen =
        ap (push_frame frame) s.ring ∙ push_frame-last_n frame log in
      let some_frame : 0 < length seen = omega (arith, length-append log (frame ∷ [])) in
      let stacked : stack_frames (push_frame frame e.obs_ring) 6 ≡ ok (window seen) =
        ap (λ (l : List F). stack_frames l 6) ring ∙ stack-window seen some_frame in
      let (c, same, ring', black') = text_features-CacheOk (text_for q) pushed s.cache in
      let held : Stands black seen pushed = record {
        ring = ring;
        cache = s.cache;
        black96 = s.black96;
      } in
      let read : Stands black seen (text_features m to_f32 net (text_for q) pushed).1 = record {
        ring = ring' ∙ ring;
        cache = c;
        black96 = black' ∙ s.black96;
      } in
      elim (Result-cases (normalize_chw m to_f32 net image 224)) [
        | inr (err, e1) ↦
            let left : pushed ≡ (infer_image m to_f32 net q image e).1 = ground arith in
            (ground arith, subst (Stands black seen) left held)
        | inl (large, e1) ↦ elim (Result-cases (modality_id_for q.goal_mode)) [
          | inr (err, e2) ↦
              let left : pushed ≡ (infer_image m to_f32 net q image e).1 = ground arith in
              (ground arith, subst (Stands black seen) left held)
          | inl (modality, e2) ↦ elim (Result-cases (goal_pose_of m to_f32 net q.goal_pose)) [
            | inr (err, e3) ↦
                let left : pushed ≡ (infer_image m to_f32 net q image e).1 = ground arith in
                (ground arith, subst (Stands black seen) left held)
            | inl (pose, e3) ↦ elim (Result-cases (goal_image_of m to_f32 net black q)) [
              | inr (err, e4) ↦
                  let asked : goal_image_of m to_f32 net e.black96 q ≡ raise err =
                    ap (λ (b : F). goal_image_of m to_f32 net b q) s.black96 ∙ e4 in
                  let left : pushed ≡ (infer_image m to_f32 net q image e).1 = ground arith in
                  (ground arith, subst (Stands black seen) left held)
              | inl (goal, e4) ↦
                  let asked : goal_image_of m to_f32 net e.black96 q ≡ ok goal =
                    ap (λ (b : F). goal_image_of m to_f32 net b q) s.black96 ∙ e4 in
                  let left : (text_features m to_f32 net (text_for q) pushed).1
                      ≡ (infer_image m to_f32 net q image e).1 =
                    ground arith in
                  let answer : (infer_image m to_f32 net q image e).0
                      ≡ plain_infer black seen q image =
                    ground (arith, s.black96) in
                  (answer, subst (Stands black seen) left read)
            ]
          ]
        ]
      ]

  pub infer_image-refused :
      (q : Request) (image : Image) (e : Engine F T) (err : Error)
      → normalize_chw m to_f32 net image 96 ≡ raise err
      → infer_image m to_f32 net q image e ≡ (raise err, e)
  unfolding infer_image
  infer_image-refused q image e err h = ground arith

  pub run-plain_from :
      (black : F) (log : List F) (commands : List Command) (e : Engine F T)
      → Stands black log e
      → run commands e ≡ plain_run black log commands
  unfolding run plain_run frame_of infer_chunk reset cached_text
  run-plain_from black log [] e s = refl
  run-plain_from black log (reset_call ∷ rest) e s =
      run-plain_from black [] rest (reset m to_f32 net e)
        (record { ring = refl; cache = s.cache; black96 = s.black96 })
  run-plain_from black log (infer_call q ∷ rest) e s = elim (Option-cases q.cur_image) [
    | inl missing ↦ ground (arith, run-plain_from black log rest e s)
    | inr (image, given) ↦ elim (Result-cases (normalize_chw m to_f32 net image 96)) [
      | inr (err, e1) ↦
          ground (arith, infer_image-refused q image e err e1, run-plain_from black log rest e s)
      | inl (frame, e1) ↦
          let (same, after) = infer_image-plain black frame log q image e s e1 in
          let later =
            run-plain_from black (log ++ frame ∷ []) rest (infer_image m to_f32 net q image e).1
              after in
          ground (arith, same, later)
    ]
  ]

  pub make_engine-Stands :
      (e : Engine F T) → make_engine m to_f32 net ≡ ok e → Stands e.black96 [] e
  unfolding make_engine cached_text
  make_engine-Stands e h = record {
    ring = ground arith;
    cache = λ text feat hit. absurd (ground arith);
    black96 = refl;
  }

  -- From a new engine on, over any calls and resets, the engine answers as one that keeps every
  -- frame since the last reset, shows the network the last six of them, front-padded with the first,
  -- and encodes every text again: neither the ring nor the cache of the text can be told from that.
  pub run-plain_run :
      (e : Engine F T) (commands : List Command)
      → make_engine m to_f32 net ≡ ok e
      → run commands e ≡ plain_run e.black96 [] commands
  run-plain_run e commands h = run-plain_from e.black96 [] commands e (make_engine-Stands e h)
