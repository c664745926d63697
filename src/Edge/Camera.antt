-- ===== src/Edge/Camera.antt =====
-- src/rvln_edge/rvln_edge/observation_state.py, `CameraFrameStore`: one RGB frame with the
-- monotonic time of its capture. `now - stamp > max_age` is written `stamp + max_age < now`.
use rvln.Prelude.{ℕ, ◌+◌, Bool, false, Option, none, some, ltb, leb, if◌then◌else◌}
use rvln.Edge.Messages.{Image}

pub record CameraFrameStore : Type 0 where
  pub image : Option Image
  pub stamp_ns : ℕ
  pub source_stamp_ns : ℕ

abbrev pub init : CameraFrameStore
init = record { image = none; stamp_ns = 0; source_stamp_ns = 0 }

-- `now` is read from the clock only when the caller gives no stamp.
unfoldable pub put : Image → Option ℕ → ℕ → ℕ → CameraFrameStore → CameraFrameStore
put image stamp source_stamp now s = record {
  image = some image;
  stamp_ns = elim stamp [ none ↦ now | some t ↦ t ];
  source_stamp_ns = source_stamp;
}

unfoldable pub clear : CameraFrameStore → CameraFrameStore
clear s = record { image = none; stamp_ns = 0; source_stamp_ns = 0 }

unfoldable pub fresh_with_stamp : ℕ → ℕ → CameraFrameStore → Option (Image × ℕ)
fresh_with_stamp max_age now s = elim s.image [
  | none ↦ none
  | some img ↦ if ltb (s.stamp_ns + max_age) now then none else some (img, s.source_stamp_ns)
]

unfoldable pub fresh : ℕ → ℕ → CameraFrameStore → Option Image
unfolding fresh_with_stamp
fresh max_age now s = elim (fresh_with_stamp max_age now s) [
  | none ↦ none
  | some frame ↦ some frame.0
]

unfoldable pub has_fresh : ℕ → ℕ → CameraFrameStore → Bool
has_fresh max_age now s = elim s.image [ none ↦ false | some img ↦ leb now (s.stamp_ns + max_age) ]
