-- ===== src/Remote/OmniEdge/Warmup.antt =====
-- src/rvln_remote/rvln_remote/backends/omnivla_edge.py: the engine after its warmup.
use rvln.Prelude.{
  ℕ, zero, suc, ◌≡◌, refl, sym, subst, ap, ◌==◌, List, [], ◌∷◌, ◌++◌, Result, ok, Result-cases, inl,
  inr, if◌then◌else◌, arith,
}
use rvln.Float.{Float, Arith}
use rvln.Edge.Json.{ℤ, to_size}
use rvln.Edge.Messages.{Image}
use rvln.Remote.Backend.{Tensor}
use rvln.Core.Engine.{Networks, Engine, infer_chunk, normalize_chw, make_engine, reset, cached_text}
use rvln.Core.Engine.Plain.{
  Command, Stands, run, plain_run, infer_image-plain, infer_image-refused, run-plain_from,
  make_engine-Stands,
}
use rvln.Remote.OmniEdge.{warmup, warmup_calls, warmup_request, black_image}

module _ (m : Arith) (to_f32 scale : Float → Float) (elapsed : Float) {I F T : Type 0}
    (to_rgb : I → Image) (net : Networks F T) where
  -- Some frames or none are added.
  infer_chunk-Stands :
      (black : F) (log : List F) (e : Engine F T)
      → Stands m to_f32 net black log e
      → (log' : List F) × Stands m to_f32 net black log'
          (infer_chunk m to_f32 net warmup_request e).1
  unfolding infer_chunk
  infer_chunk-Stands black log e s =
      elim (Result-cases (normalize_chw m to_f32 net black_image 96)) [
        | inr (err, e1) ↦ (
          log,
          subst (Stands m to_f32 net black log)
              (sym (
                ap (λ (r : Result Tensor × Engine F T). r.1)
                  (infer_image-refused m to_f32 net warmup_request black_image e err e1)))
              s,
        )
        | inl (frame, e1) ↦ (
          log ++ frame ∷ [],
          (infer_image-plain m to_f32 net black frame log warmup_request black_image e s e1).1,
        )
      ]

  warmup_calls-Stands :
      (n : ℕ) (black : F) (log : List F) (e : Engine F T)
      → Stands m to_f32 net black log e
      → (log' : List F) × Stands m to_f32 net black log'
          (warmup_calls m to_f32 scale elapsed to_rgb net n e).1
  unfolding warmup_calls
  warmup_calls-Stands zero black log e s = (log, s)
  warmup_calls-Stands (suc n) black log e s =
      let (log1, s1) = infer_chunk-Stands black log e s in
      let e1 : Engine F T = (infer_chunk m to_f32 net warmup_request e).1 in
      elim (Result-cases (infer_chunk m to_f32 net warmup_request e).0) [
        | inr (err, failed) ↦
            let ended : e1 ≡ (warmup_calls m to_f32 scale elapsed to_rgb net (suc n) e).1 =
              ground arith in
            (log1, subst (Stands m to_f32 net black log1) ended s1)
        | inl (t, went) ↦
            let (log2, s2) = warmup_calls-Stands n black log1 e1 s1 in
            let ended : (warmup_calls m to_f32 scale elapsed to_rgb net n e1).1
                ≡ (warmup_calls m to_f32 scale elapsed to_rgb net (suc n) e).1 =
              ground arith in
            (log2, subst (Stands m to_f32 net black log2) ended s2)
      ]

  -- A warmup of a new engine that returns leaves no trace: whatever number of times the black frame
  -- went through, over any later calls and resets the engine answers as one that keeps every frame
  -- since the warmup and encodes every text again.
  pub run-warmup :
      (num_iters : ℤ) (e e' : Engine F T) (commands : List Command)
      → make_engine m to_f32 net ≡ ok e
      → warmup m to_f32 scale elapsed to_rgb net num_iters e ≡ (ok tt, e')
      → run m to_f32 net commands e' ≡ plain_run m to_f32 net e.black96 [] commands
  unfolding warmup reset cached_text
  run-warmup num_iters e e' commands made warmed =
      let n : ℕ = if to_size num_iters == 0 then 1 else to_size num_iters in
      let (log, s) =
        warmup_calls-Stands n e.black96 [] e (make_engine-Stands m to_f32 net e made) in
      let e1 : Engine F T = (warmup_calls m to_f32 scale elapsed to_rgb net n e).1 in
      elim (Result-cases (warmup_calls m to_f32 scale elapsed to_rgb net n e).0) [
        | inr (err, failed) ↦ absurd (ground arith)
        | inl (u, went) ↦
            let ended : reset m to_f32 net e1 ≡ e' = ground arith in
            let fresh : Stands m to_f32 net e.black96 [] (reset m to_f32 net e1) = record {
              ring = refl;
              cache = s.cache;
              black96 = s.black96;
            } in
            run-plain_from m to_f32 net e.black96 [] commands e'
              (subst (Stands m to_f32 net e.black96 []) ended fresh)
      ]
