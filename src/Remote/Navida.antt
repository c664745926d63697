-- ===== src/Remote/Navida.antt =====
-- src/rvln_remote/rvln_remote/backends/navida.py: the frames of one instruction, the sampled history and
-- the decoding of an answer. The frames are RGB images already. The vision-language model and the
-- regular expressions are parameters.
pub mod History
use rvln.Prelude.{
  ℕ, ◌+◌, ◌-◌, ◌*◌, ◌/◌, Bool, true, false, not, ◌||◌, ◌&&◌, ◌==◌, ltb, leb, String, Option, none,
  some, is_some, List, [], ◌∷◌, ◌++◌, take, drop, length, get_elem?, str_eq, if◌then◌else◌, Result,
  ok, raise, value_error, attribute_error, ◌>>=◌,
}
use mathlib.Core.List.{reverse}
use rvln.Float.{Float, Arith, zero_f, one_f, neg}
use rvln.Float.Literals.{lit_100, degree}
use rvln.Bench.Calls.{Call}
use rvln.Remote.Backend.{Query, Tensor}

pub data Side : Type 0 where
  left right : Side

-- What `_ACTION.fullmatch` finds in the first answer: a number is none when it is left out, and the
-- Boolean is `first.lower().startswith(("forward", "move forward"))`.
pub data Primitive : Type 0 where
  stop : Primitive
  forward : Option ℕ → Bool → Primitive
  turn : Side → Option ℕ → Primitive

-- `int(match.group(k) or default)`
abbrev pub number_or : ℕ → Option ℕ → ℕ
number_or default none = default
number_or default (some n) = n

-- `W` is the state of the model.
pub record NavidaBackend (I W : Type 0) : Type 0 where
  -- The deque, the newest frame first.
  pub frames : List I
  pub instruction : Option String
  pub model : W

abbrev pub init : {I W : Type 0} → W → NavidaBackend I W
init w = record { frames = []; instruction = none; model = w }

-- `round(i * (n - 1) / 7)`; the quotient is never halfway between two integers.
abbrev pub sample_index : ℕ → ℕ → ℕ
sample_index n i = (2 * i * (n - 1) + 7) / 14

unfoldable pub images_at : {I : Type 0} → List I → List ℕ → List I
images_at images [] = []
images_at images (i ∷ rest) =
    (elim (get_elem? images i) [ none ↦ [] | some image ↦ image ∷ [] ]) ++ images_at images rest

abbrev pub sample_indices : ℕ → List ℕ
sample_indices n =
    sample_index n 0
    ∷ sample_index n 1
    ∷ sample_index n 2
    ∷ sample_index n 3
    ∷ sample_index n 4
    ∷ sample_index n 5
    ∷ sample_index n 6
    ∷ sample_index n 7
    ∷ []

unfoldable pub sample_history : {I : Type 0} → List I → List I
sample_history images =
    if leb (length images) 8 then images else images_at images (sample_indices (length images))

-- A nonempty language goal only.
unfoldable pub is_language : {I : Type 0} → Query I → Bool
is_language q = not (is_some q.goal_image || (is_some q.goal_pose || str_eq q.lang_instruction ""))

-- `lang_instruction == self._instruction`
unfoldable pub is_same : String → Option String → Bool
is_same text none = false
is_same text (some t) = str_eq text t

-- The frames with the current image, at most ten.
unfoldable pub with_current : {I W : Type 0} → Query I → NavidaBackend I W → List I
with_current q b =
    take 10 (q.current_image ∷ (if is_same q.lang_instruction b.instruction then b.frames else []))

-- `images or [image]`
abbrev pub or_current : {I : Type 0} → I → List I → List I
or_current image [] = image ∷ []
or_current image (first ∷ rest) = first ∷ rest

-- `_sample_history(list(self._frames)[:-1]) or [self._frames[-1]]`
unfoldable pub history_of : {I W : Type 0} → Query I → NavidaBackend I W → List I
history_of q b = or_current q.current_image (sample_history (reverse (drop 1 (with_current q b))))

-- `to_f32` rounds to a float32.
module _ (m : Arith) (to_f32 : Float → Float) where
  abbrev pub row : Float → Float → Float → Tensor
  row x cosine sine = record {
    shape = 1 ∷ 4 ∷ [];
    items = to_f32 x ∷ to_f32 zero_f ∷ to_f32 cosine ∷ to_f32 sine ∷ [];
  }

  -- The sign of a turn is a factor, 1 or -1.
  abbrev pub yaw_of : Side → ℕ → Float
  yaw_of left degrees = m.mul (m.of_ℕ degrees) degree
  yaw_of right degrees = neg (m.mul (m.of_ℕ degrees) degree)

  unfoldable pub action_to_embedding : Option Primitive → Result Tensor
  action_to_embedding none = raise value_error
  action_to_embedding (some stop) = ok (row zero_f one_f zero_f)
  action_to_embedding (some (forward none false)) = raise attribute_error
  action_to_embedding (some (forward cm starts)) =
      let distance = number_or 25 cm in
      if ltb 0 distance && leb distance 75
      then ok (row (m.div (m.of_ℕ distance) lit_100) one_f zero_f)
      else raise value_error
  action_to_embedding (some (turn side deg)) =
      let degrees = number_or 15 deg in
      let yaw = yaw_of side degrees in
      if ltb 0 degrees && leb degrees 45
      then ok (row zero_f (m.cos yaw) (m.sin yaw))
      else raise value_error

  -- `generate` answers a history, the current image and an instruction; `parse` finds the first
  -- primitive of the answer. The time that the call takes is left out of the metrics.
  module _ {I W : Type 0} (generate : List I → I → String → Call W String)
      (parse : String → Option Primitive) where
    unfoldable pub infer : Query I → NavidaBackend I W → Result Tensor × NavidaBackend I W
    infer q b =
        if not (is_language q)
        then (raise value_error, b)
        else (let (answer, w) =
              generate (history_of q b) q.current_image q.lang_instruction b.model in
            (
              answer >>= λ text. action_to_embedding (parse text),
              record {
                frames = with_current q b;
                instruction = some q.lang_instruction;
                model = w;
              },
            ))
