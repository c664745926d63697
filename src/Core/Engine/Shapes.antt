-- ===== src/Core/Engine/Shapes.antt =====
-- How many frames are stacked, and which is the last.
use rvln.Float.{Float}
