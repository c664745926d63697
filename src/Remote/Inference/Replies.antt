-- ===== src/Remote/Inference/Replies.antt =====
-- src/rvln_remote/rvln_remote/inference_node.py: which embedding answers which observation.
use rvln.Prelude.{
  ℕ, ◌*◌, ◌<◌, ◌≡◌, refl, sym, subst, ap, ◌∙◌, String, Option, none, some, List, [], ◌∷◌, ◌++◌,
  length, Result, Error, ok, raise, Result-cases, inl, inr, arith,
}
use native.Mathlib.Nat.{mul_assoc}
use rvln.Float.{Float, Arith}
use rvln.Edge.Messages.{Mode, GoalSpec, Observation, ActionEmbedding}
use rvln.Remote.Backend.{Query, Tensor, VlaBackend}
use rvln.Remote.Inference.{
  Pil, VlaInferenceNode, Output, asked, published, product, last_of, rows_of, matrix_shape,
  decode_image, goal_to_python, embedding_of, publish, on_observation, run,
}

-- An array has as many items as its shape says.
abbrev pub IsShaped : {I B : Type 0} → VlaBackend I B → Type 0
IsShaped {I = I} {B = B} ops =
    (q : Query I) (b : B) (t : Tensor) (ms : Float)
    → (ops.infer q b).0 ≡ ok (t, ms)
    → product t.shape ≡ length t.items

-- The message answers the observation, and its shape is that of its values.
pub record Fits (obs : Observation) (emb : ActionEmbedding) : Type 0 where
  pub frame : emb.frame_id ≡ obs.frame_id
  pub shape : emb.num_tokens * emb.embed_dim ≡ length emb.embedding
  pub columns : 0 < emb.embed_dim

rows-last :
    (n k : ℕ) (rest : List ℕ)
    → rows_of (n ∷ k ∷ rest) * last_of (n ∷ k ∷ rest) ≡ product (n ∷ k ∷ rest)
unfolding rows_of last_of
rows-last n k [] = omega (arith, mul_assoc n 1 k)
rows-last n k (j ∷ rest) =
    mul_assoc n (rows_of (k ∷ j ∷ rest)) (last_of (k ∷ j ∷ rest))
    ∙ ap (λ (p : ℕ). n * p) (rows-last k j rest)

module _ {I B : Type 0} (m : Arith) (pil : Pil I) (ops : VlaBackend I B) where
  -- The backend was asked about the observation's image and the one before it.
  pub record Matches (past : Option I) (obs : Observation) (q : Query I) : Type 0 where
    pub current : q.current_image ≡ decode_image m pil ops obs.jpeg
    pub before :
        q.past_image ≡ (elim past [ none ↦ decode_image m pil ops obs.jpeg | some image ↦ image ])

  -- What comes out for what comes in: for each observation a question at most, and for each question
  -- an embedding at most, in their order.
  pub data Trace : Option I → List Observation → List (Output I) → Type 0 where
    idle : {past : Option I} → Trace past [] []
    skipped :
        {past : Option I} {obs : Observation} {rest : List Observation} {out : List (Output I)}
        (n : ℕ)
        → obs.goal.mode ≡ Mode.unknown n
        → Trace (some (decode_image m pil ops obs.jpeg)) rest out
        → Trace past (obs ∷ rest) out
    unanswered :
        {past : Option I} {obs : Observation} {rest : List Observation} {out : List (Output I)}
        (q : Query I)
        → Matches past obs q
        → Trace (some (decode_image m pil ops obs.jpeg)) rest out
        → Trace past (obs ∷ rest) (asked q ∷ out)
    answered :
        {past : Option I} {obs : Observation} {rest : List Observation} {out : List (Output I)}
        (q : Query I) (emb : ActionEmbedding)
        → Matches past obs q
        → Fits obs emb
        → Trace (some (decode_image m pil ops obs.jpeg)) rest out
        → Trace past (obs ∷ rest) (asked q ∷ published emb ∷ out)

  embedding_of-Fits :
      (obs : Observation) (version : String) (t : Tensor) (ms : Float) (emb : ActionEmbedding)
      → product t.shape ≡ length t.items
      → embedding_of m pil ops obs version (t, ms) ≡ ok emb
      → Fits obs emb
  unfolding embedding_of matrix_shape
  embedding_of-Fits obs version t ms emb s e = fits t.shape refl
    where
      fits : (shape : List ℕ) → t.shape ≡ shape → Fits obs emb
      fits [] h = ground arith
      fits (n ∷ []) h = ground arith
      fits (n ∷ k ∷ rest) h = ground (arith, rows-last n k rest)

  goal-unknown :
      (g : GoalSpec) (e : Error)
      → goal_to_python m pil ops g ≡ raise e
      → (n : ℕ) × (g.mode ≡ Mode.unknown n)
  unfolding goal_to_python
  goal-unknown g e h = by_mode g.mode refl
    where
      by_mode : (mode : Mode) → g.mode ≡ mode → (n : ℕ) × (g.mode ≡ Mode.unknown n)
      by_mode (Mode.unknown n) k = (n, k)
      by_mode Mode.pose k = ground arith
      by_mode Mode.text k = ground arith
      by_mode Mode.image k = ground arith

  publish-Fits :
      (obs : Observation) (r : Result (Tensor × Float)) (b : B) (emb : ActionEmbedding)
      → ((t : Tensor) (ms : Float) → r ≡ ok (t, ms) → product t.shape ≡ length t.items)
      → publish m pil ops obs r b ≡ published emb ∷ []
      → Fits obs emb
  unfolding publish
  publish-Fits obs (raise e) b emb shaped told = ground arith
  publish-Fits obs (ok (t, ms)) b emb shaped told =
      elim (Result-cases (embedding_of m pil ops obs (ops.model_version b) (t, ms))) [
        | inr (e, bad) ↦ ground arith
        | inl (emb', made) ↦
            let same : emb' ≡ emb = ground arith in
            subst (Fits obs) same
              (embedding_of-Fits obs (ops.model_version b) t ms emb' (shaped t ms refl) made)
      ]

  publish-Trace :
      (past : Option I) (obs : Observation) (rest : List Observation) (out : List (Output I))
      (q : Query I) (r : Result (Tensor × Float)) (b : B)
      → Matches past obs q
      → ((t : Tensor) (ms : Float) → r ≡ ok (t, ms) → product t.shape ≡ length t.items)
      → Trace (some (decode_image m pil ops obs.jpeg)) rest out
      → Trace past (obs ∷ rest) (asked q ∷ (publish m pil ops obs r b ++ out))
  unfolding publish
  publish-Trace past obs rest out q (raise e) b asks shaped h = unanswered q asks h
  publish-Trace past obs rest out q (ok (t, ms)) b asks shaped h =
      elim (Result-cases (embedding_of m pil ops obs (ops.model_version b) (t, ms))) [
        | inr (e, bad) ↦
            let silent : publish m pil ops obs (ok (t, ms)) b ≡ [] = ground arith in
            subst (λ (o : List (Output I)). Trace past (obs ∷ rest) (asked q ∷ (o ++ out)))
              (sym silent) (unanswered q asks h)
        | inl (emb, made) ↦
            let tells : publish m pil ops obs (ok (t, ms)) b ≡ published emb ∷ [] = ground arith in
            subst (λ (o : List (Output I)). Trace past (obs ∷ rest) (asked q ∷ (o ++ out)))
              (sym tells)
              (answered q emb asks
                (embedding_of-Fits obs (ops.model_version b) t ms emb (shaped t ms refl) made) h)
      ]

  -- Whatever the observations are and whatever the backend answers, when its arrays have as many items
  -- as their shapes say: each observation has at most one embedding, published in the order of the
  -- observations, with the observation's frame ID and with as many values as its shape says; the
  -- backend is asked about each observation whose goal has a known mode, and about the image before
  -- it, also when an earlier call failed.
  pub run-Trace :
      (observations : List Observation) (n : VlaInferenceNode I B)
      → IsShaped ops
      → Trace n.past_image observations (run m pil ops observations n)
  unfolding run on_observation
  run-Trace [] n s = idle
  run-Trace (obs ∷ rest) n s =
      let current = decode_image m pil ops obs.jpeg in
      let all = run m pil ops (obs ∷ rest) n in
      elim (Result-cases (goal_to_python m pil ops obs.goal)) [
        | inr (e, bad) ↦
            let (k, unknown) = goal-unknown obs.goal e bad in
            let n' : VlaInferenceNode I B = record n { past_image = some current } in
            let goes : all ≡ run m pil ops rest n' = ground arith in
            subst (Trace n.past_image (obs ∷ rest)) (sym goes)
              (skipped k unknown (run-Trace rest n' s))
        | inl ((pose, text, goal_image), good) ↦
            let q : Query I = record {
              current_image = current;
              past_image = elim n.past_image [ none ↦ current | some image ↦ image ];
              lang_instruction = text;
              goal_image = goal_image;
              goal_pose = pose;
            } in
            let (r, b) = ops.infer q n.backend in
            let n' : VlaInferenceNode I B = record { backend = b; past_image = some current } in
            let goes : all ≡ asked q ∷ (publish m pil ops obs r b ++ run m pil ops rest n') =
              ground arith in
            subst (Trace n.past_image (obs ∷ rest)) (sym goes) (
              publish-Trace n.past_image obs rest (run m pil ops rest n') q r b
                (record { current = refl; before = refl }) (s q n.backend) (run-Trace rest n' s))
      ]

  -- What is published for an observation answers it.
  pub on_observation-Fits :
      (obs : Observation) (n : VlaInferenceNode I B) (q : Query I) (emb : ActionEmbedding)
      → IsShaped ops
      → (on_observation m pil ops obs n).0 ≡ asked q ∷ published emb ∷ []
      → Fits obs emb
  unfolding on_observation
  on_observation-Fits obs n q emb s e = elim (Result-cases (goal_to_python m pil ops obs.goal)) [
    | inr (err, bad) ↦ ground arith
    | inl ((pose, text, goal_image), good) ↦
        let q' : Query I = record {
          current_image = decode_image m pil ops obs.jpeg;
          past_image = elim n.past_image [
            | none ↦ decode_image m pil ops obs.jpeg
            | some image ↦ image
          ];
          lang_instruction = text;
          goal_image = goal_image;
          goal_pose = pose;
        } in
        let (r, b) = ops.infer q' n.backend in
        let told : publish m pil ops obs r b ≡ published emb ∷ [] = ground arith in
        publish-Fits obs r b emb (s q' n.backend) told
  ]
