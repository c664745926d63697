-- ===== src/Edge/SentFrames.antt =====
-- The dict `_sent_frames` of src/rvln_edge/rvln_edge/observation_state.py, as an association list
-- in insertion order.
pub mod Order
use rvln.Prelude.{ℕ, Option, none, some, List, [], ◌∷◌, ltb, ◌==◌, length, if◌then◌else◌}
use rvln.Edge.Messages.{Image}

abbrev pub SentFrames : Type 0
SentFrames = List (ℕ × Image)

unfoldable pub find : ℕ → SentFrames → Option Image
find f [] = none
find f ((g, image) ∷ d) = if g == f then some image else find f d

-- `d[f] = image`: a present key keeps its place, a new one goes last.
unfoldable pub insert : ℕ → Image → SentFrames → SentFrames
insert f image [] = (f, image) ∷ []
insert f image ((g, old) ∷ d) = if g == f then (f, image) ∷ d else (g, old) ∷ insert f image d

-- `while len(d) > max_frames: del d[next(iter(d))]`
unfoldable pub trim : ℕ → SentFrames → SentFrames
trim max_frames [] = []
trim max_frames (e ∷ d) = if ltb max_frames (length (e ∷ d)) then trim max_frames d else e ∷ d

-- `d.pop(f, None)`, the dict that is left
unfoldable pub without : ℕ → SentFrames → SentFrames
without f [] = []
without f ((g, image) ∷ d) = let rest = without f d in if g == f then d else (g, image) ∷ rest

-- `for old in [g for g in d if g < f]: del d[old]`
unfoldable pub drop_older : ℕ → SentFrames → SentFrames
drop_older f [] = []
drop_older f ((g, image) ∷ d) =
    let rest = drop_older f d in if ltb g f then rest else (g, image) ∷ rest
