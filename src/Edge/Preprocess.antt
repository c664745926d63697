-- ===== src/Edge/Preprocess.antt =====
-- src/rvln_edge/rvln_edge/preprocess.py: the checks around resizing and JPEG coding. OpenCV's part
-- is the argument: `none` is a code that failed.
use rvln.Prelude.{
  ℕ, ◌==◌, not, Bool, false, List, [], ◌∷◌, Option, none, some, if◌then◌else◌, Result, ok, raise,
  value_error, runtime_error,
}
use rvln.Edge.Messages.{Image}

-- `ndim == 3 and shape[2] == 3`
unfoldable pub is_rgb : List ℕ → Bool
is_rgb (h ∷ w ∷ channels ∷ []) = channels == 3
is_rgb shape = false

-- `encode` resizes to the width and the height and codes at the quality.
unfoldable pub resize_and_jpeg :
    (Image → ℕ → ℕ → ℕ → Option (List ℕ)) → Image → ℕ × ℕ → ℕ → Result (List ℕ × ℕ × ℕ)
unfolding is_rgb
resize_and_jpeg encode image (w, h) quality =
    if not image.uint8
    then raise value_error
    else if not (is_rgb image.shape)
    then raise value_error
    else elim (encode image w h quality) [ none ↦ raise runtime_error | some buf ↦ ok (buf, w, h) ]

unfoldable pub decode_jpeg_to_rgb : (List ℕ → Option Image) → List ℕ → Result Image
decode_jpeg_to_rgb imdecode bytes = elim (imdecode bytes) [
  | none ↦ raise value_error
  | some image ↦ ok image
]
