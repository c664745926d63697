-- ===== src/Edge/Adapter.antt =====
-- src/rvln_edge/rvln_edge/adapters/base.py: the interface of the edge adapters, and two of its
-- implementations, adapters/stub.py and adapters/omnivla.py. An adapter's state is a type `A`.
pub mod Local
pub mod Delta
use rvln.Prelude.{
  ℕ, zero, suc, ◌+◌, ◌*◌, Bool, false, String, Option, none, some, List, [], ◌∷◌, length, not, ◌==◌,
  if◌then◌else◌, Result, ok, raise, value_error, other_error,
}
use rvln.Float.{Float, Arith, zero_f, one_f}
use rvln.Edge.Messages.{Image, Pose, FramePath}
use rvln.Edge.Trajectory.{reshape, trajectory_to_path}

pub data EdgeGoal : Type 0 where
  pose_goal : Float → Float → Float → EdgeGoal
  text_goal : String → EdgeGoal
  image_goal : Image → EdgeGoal

-- An embedding with its tokens and dimension.
pub record Embedding : Type 0 where
  pub values : List Float
  pub num_tokens : ℕ
  pub embed_dim : ℕ

pub record EdgeAdapter (A : Type 0) : Type 0 where
  pub is_local : Bool
  pub set_goal : EdgeGoal → A → A
  pub predict_path : Option Embedding → Image → Image → String → A → Result FramePath × A

-- The stub's waypoints from number `i` on, `n` of them.
unfoldable pub stub_poses : Arith → Float → ℕ → ℕ → List Pose
stub_poses m step i zero = []
stub_poses m step i (suc n) =
    record {
      x = m.mul (m.of_ℕ i) step;
      y = zero_f;
      orientation = record { x = zero_f; y = zero_f; z = zero_f; w = one_f };
    }
    ∷ stub_poses m step (i + 1) n

unfoldable pub stub : Arith → ℕ → Float → EdgeAdapter (Unit {0})
stub m n_pts step = record {
  is_local = false;
  set_goal = λ g a. a;
  predict_path = λ embedding cur past frame a.
      (ok (record { frame_id = frame; poses = stub_poses m step 1 n_pts }), a);
}

-- `np.asarray(embedding).reshape(...)` of no embedding, or of another size, raises.
unfoldable pub omnivla_path : Arith → Option Embedding → String → Result FramePath
omnivla_path m none frame = raise other_error
omnivla_path m (some e) frame =
    if not (length e.values == e.num_tokens * e.embed_dim)
    then raise value_error
    else trajectory_to_path m (reshape e.num_tokens e.embed_dim e.values) e.embed_dim one_f frame

unfoldable pub omnivla : Arith → EdgeAdapter (Unit {0})
omnivla m = record {
  is_local = false;
  set_goal = λ g a. a;
  predict_path = λ embedding cur past frame a. (omnivla_path m embedding frame, a);
}
