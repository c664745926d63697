-- ===== src/Tests/Transport.antt =====
-- The action bridge and the decoder on concrete inputs.
use rvln.Prelude.{
  ℕ, ◌+◌, ◌*◌, ◌≤◌, ◌≡◌, ◌↔◌, refl, true, false, some, List, [], ◌∷◌, ◌++◌, length, if◌then◌else◌,
  ok,
}
use rvln.Float.{one_f, zero_f}
use rvln.Edge.Messages.{FramePath}
use rvln.Edge.Fp16.{half_to_float}
use rvln.Edge.Trajectory.{decode_path}
use rvln.Edge.Trajectory.Shape.{decode_path-decodes}
use rvln.Edge.Bridge.{ActionPathBridge, init, receive, tick, stop_path}
use rvln.Edge.Bridge.Watchdog.{published, any_after, first_by, watchdog_lem}
use rvln.Edge.Bridge.Freshness.{Call, receive_call, tick_call, run, tick_fresh}
use rvln.Tests.Platform.{platform}

-- 1.0, -2.0, the largest subnormal's neighbour 2^-24, infinity
halves :
    (half_to_float 0x3C00 ≡ one_f)
    × (half_to_float 0xC000 ≡ record { sign = true; mag = 0x4000000000000000 })
    × (half_to_float 1 ≡ record { sign = false; mag = 0x3E70000000000000 })
    × (half_to_float 0x7C00 ≡ record { sign = false; mag = 0x7FF0000000000000 })
    × (half_to_float 0 ≡ zero_f)
unfolding half_to_float
halves = (refl, refl, refl, refl, refl)

-- one waypoint: 1.0, 0.0, 1.0, 0.0
abbrev pub payload : List ℕ
payload = 0 ∷ 0x3C ∷ 0 ∷ 0 ∷ 0 ∷ 0x3C ∷ 0 ∷ 0 ∷ []

decode_path-decodes_example :
    ((path : FramePath) × (decode_path platform payload 1 4 true one_f "base_link" ≡ ok path)
      × (length path.poses ≡ 1)
      × (path.frame_id ≡ "base_link"))
    ↔ ((1 ≤ 1) × (4 ≤ 4) × (length payload ≡ 1 * 4 + 1 * 4))
decode_path-decodes_example = decode_path-decodes platform payload 1 4 true one_f "base_link"

abbrev straight : FramePath
straight = record { frame_id = "base_link"; poses = [] }

abbrev bridge : ActionPathBridge
bridge = init "base_link" 10

watchdog_lem_example :
    published (105 ∷ 108 ∷ 120 ∷ 130 ∷ []) (receive straight "g" 100 bridge).1
    ≡ (if first_by (100 + 10) (105 ∷ 108 ∷ 120 ∷ 130 ∷ []) then (straight, false) ∷ [] else [])
      ++ (if any_after (100 + 10) (105 ∷ 108 ∷ 120 ∷ 130 ∷ [])
          then (stop_path bridge, true) ∷ []
          else [])
watchdog_lem_example = watchdog_lem straight "g" 100 (105 ∷ 108 ∷ 120 ∷ 130 ∷ []) bridge

-- one path and one stop
watchdog_counts :
    published (105 ∷ 108 ∷ 120 ∷ 130 ∷ []) (receive straight "g" 100 bridge).1
    ≡ (straight, false) ∷ (stop_path bridge, true) ∷ []
unfolding any_after first_by
watchdog_counts = watchdog_lem_example

abbrev calls : List Call
calls = receive_call straight "g" 100 ∷ tick_call 101 ∷ receive_call straight "h" 200 ∷ []

tick_fresh_example :
    (t : ℕ) × ((run calls bridge).last_rx ≡ some t)
    × ((run calls bridge).pending ≡ some straight)
    × (210 ≤ t + 10)
unfolding tick run receive
tick_fresh_example = tick_fresh "base_link" 10 calls 210 straight refl
