-- ===== src/Edge/Capture/Closing.antt =====
-- src/rvln_edge/rvln_edge/camera_capture.py: a closed camera stores nothing more.
use rvln.Prelude.{arith, ℕ, true, ◌≡◌, refl, Option, none, List, [], ◌∷◌}
use rvln.Edge.Messages.{Image}
use rvln.Edge.Camera.{clear}
use rvln.Edge.Capture.{V4l2CameraCapture, after_read, close, stop}

-- The rounds that the thread may still be in, with what each read gives and when.
unfoldable pub rounds : List (Option Image × ℕ) → V4l2CameraCapture → V4l2CameraCapture
rounds [] s = s
rounds ((read, now) ∷ rest) s = rounds rest (after_read read now s).1

rounds_stopped :
    (reads : List (Option Image × ℕ)) (s : V4l2CameraCapture)
    → s.stop_set ≡ true
    → rounds reads s ≡ s
unfolding rounds after_read
rounds_stopped [] s h = refl
rounds_stopped ((read, now) ∷ rest) s h = ground (arith, rounds_stopped rest s h)

-- When the camera is closed while its thread runs, the frame store is empty afterwards and stays
-- empty, whatever the reads that the thread has not finished still give.
pub close-stays_empty :
    (reads : List (Option Image × ℕ)) (s : V4l2CameraCapture)
    → s.thread ≡ true
    → (rounds reads (close s)).frames.image ≡ none
unfolding close stop clear
close-stays_empty reads s h = ground (arith, rounds_stopped reads (close s))
