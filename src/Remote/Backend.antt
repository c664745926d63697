-- ===== src/Remote/Backend.antt =====
-- src/rvln_remote/rvln_remote/backends/base.py and dummy.py: what the inference node asks of a
-- backend, and the backend for tests.
use rvln.Prelude.{ℕ, ◌+◌, ◌*◌, zero, suc, String, Option, List, [], ◌∷◌, ok}
use rvln.Float.{Float, Arith}
use rvln.Float.Literals.{lit_17, pi}
use rvln.Bench.Calls.{Call}

-- The keyword arguments of `infer`; `I` is the type of the decoded images.
pub record Query (I : Type 0) : Type 0 where
  pub current_image : I
  pub past_image : I
  pub lang_instruction : String
  pub goal_image : Option I
  pub goal_pose : Option (Float × Float × Float)

-- A numpy array of float32 values: its shape and its items.
pub record Tensor : Type 0 where
  pub shape : List ℕ
  pub items : List Float

-- The array and `metrics.get("inference_ms", 0.0)`.
pub record VlaBackend (I B : Type 0) : Type 0 where
  pub infer : Query I → Call B (Tensor × Float)
  pub model_version : B → String

pub record DummyBackend : Type 0 where
  pub num_tokens : ℕ
  pub embed_dim : ℕ
  pub inference_ms : Float
  pub version : String
  pub counter : ℕ

-- `np.full`
unfoldable pub full : ℕ → Float → List Float
full zero x = []
full (suc n) x = x ∷ full n x

-- `to_f32` rounds to a float32.
module _ (m : Arith) (to_f32 : Float → Float) {I : Type 0} where
  unfoldable pub dummy_infer : Query I → Call DummyBackend (Tensor × Float)
  dummy_infer q d =
      let cid = d.counter + 1 in
      let seed = m.sin (m.div (m.mul (m.of_ℕ cid) pi) lit_17) in
      (
        ok (
          record {
            shape = d.num_tokens ∷ d.embed_dim ∷ [];
            items = full (d.num_tokens * d.embed_dim) (to_f32 seed);
          },
          d.inference_ms,
        ),
        record d { counter = cid },
      )

  abbrev pub dummy : VlaBackend I DummyBackend
  dummy = record { infer = dummy_infer; model_version = λ d. d.version }
