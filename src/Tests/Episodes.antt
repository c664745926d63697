-- ===== src/Tests/Episodes.antt =====
-- Episodes, the policy server and its client on concrete inputs.
use rvln.Prelude.{
  ℕ, ◌≡◌, ◌<◌, refl, true, false, some, none, [], ◌∷◌, List, String, ok, raise, value_error, arith,
  zero, suc, length, str_eq, ◌==◌, ltb, if◌then◌else◌, Option, inl, inr, Result, ◌≤◌, ◌+◌,
}
use rvln.Float.{Float, zero_f}
use rvln.Edge.Json.{pos, Json, Members, text}
use rvln.Bench.Episode.{
  EpisodeRequest, EpisodeSimulator, Policy, Observation, DepthImage, Measurements, run_episode,
  run_frames, choose_action, is_allowed,
}
use rvln.Bench.Episode.Shape.{Runs, missing, run_episode-Runs}
use rvln.Bench.Episode.Ends.{Returns}
use rvln.Bench.Policy.{items_of}
use rvln.Bench.Session.{
  Vision, Model, PolicySession, actions, validate_instruction_tokens, token_ids, all_zero, is_zero,
  prepare_rgbd, is_256, is_integer,
}
use rvln.Bench.Session.Acting.{act, act_parts, act_reply, Turn}
use rvln.Bench.Session.Replays.{act_again}
use rvln.Bench.Session.Serves.{IsUsable, IsReadable, Waits, sent, parts-turn}
use rvln.Bench.Session.Completes.{IsRunning, client, run_episode-served}

abbrev request : EpisodeRequest
request = record {
  episode_id = "7";
  instruction = "go to the door";
  allowed_actions = actions;
  terminal_action = "stop";
}

-- A depth image of 256 by 256 doubles of four bytes.
repeat : ℕ → List ℕ
repeat zero = []
repeat (suc n) = 0 ∷ repeat n

length-repeat : (n : ℕ) → length (repeat n) ≡ n
unfolding repeat
length-repeat zero = refl
length-repeat (suc n) = omega (arith, length-repeat n)

zeros : List ℕ
zeros = repeat 262144

length-zeros : length zeros ≡ 262144
unfolding zeros
length-zeros = length-repeat 262144

abbrev depth : DepthImage
depth = record { f32 = zeros; width = pos 256; height = pos 256 }

abbrev view : Observation
view = record { jpeg = []; depth = some depth }

-- A simulator that counts its calls.
abbrev simulator : EpisodeSimulator ℕ
simulator = record {
  reset = λ ep n. (ok (zero_f ∷ []), suc n);
  observe = λ n. (ok view, suc n);
  apply = λ a n. (ok (zero_f ∷ []), suc n);
}

-- A policy that goes forward and stops at the second frame.
abbrev second_stops : Policy ℕ
second_stops = record {
  reset = λ id n. (ok tt, n);
  act = λ id frame_id instruction o n. (ok (if ltb frame_id 1 then "forward" else "stop"), n);
}

measured : Measurements
measured = record {
  positions = (zero_f ∷ []) ∷ (zero_f ∷ []) ∷ [];
  actions = "forward" ∷ "stop" ∷ [];
  stopped = true;
}

run_ok : (run_episode simulator second_stops request 5 (0, 0)).0 ≡ ok measured
unfolding run_episode run_frames choose_action is_allowed measured
run_ok = refl

run_episode-Runs_example :
    Runs request 5 measured.actions measured.stopped
    × (length measured.actions ≤ 5)
    × (length measured.positions + missing measured.stopped ≡ suc (length measured.actions))
run_episode-Runs_example = run_episode-Runs simulator second_stops request 5 (0, 0) measured run_ok

abbrev encode : List ℕ → String
encode bytes = if length bytes == 0 then "jpeg" else "depth"

decode : Json → Result (List ℕ)
decode (text s) = if str_eq s "jpeg" then ok [] else ok zeros
decode v = raise value_error

abbrev vision : Vision
vision = record {
  b64decode = decode;
  float_is = λ f k. false;
  open_image = λ jpeg. ok (256, 256, ok []);
  normalize = λ depth. [];
}

-- A model that stops at its second frame, and counts.
abbrev model : Model ℕ
model = record {
  reset = ok 0;
  act = λ rgb depth tokens previous state.
      ok (elim previous [ none ↦ some (pos 1) | some a ↦ some (pos 0) ], 5);
}

abbrev tokens : List ℕ
tokens = 12 ∷ 7 ∷ []

abbrev session : PolicySession ℕ
session = record {
  policy_id = "sha256:1";
  episode_id = some "7";
  next_frame = 0;
  instruction = none;
  tokens = none;
  previous_action = none;
  state = some 0;
  stopped = false;
}

view-IsReadable : IsReadable encode vision model tokens request view
unfolding decode prepare_rgbd is_256 is_integer
view-IsReadable = record {
  image = depth;
  depth = refl;
  jpeg_decodes = refl;
  depth_decodes = rw (length-zeros) refl;
  prepared = (([], []), rw (length-zeros) refl);
}

request-IsUsable : IsUsable encode vision model tokens request
unfolding validate_instruction_tokens all_zero is_zero token_ids items_of is_allowed
request-IsUsable = record {
  named = refl;
  instructed = refl;
  tokenized = (tokens, refl);
  allowed = (refl, (refl, (refl, (refl, tt))));
  terminal = refl;
  begins = (0, refl);
  acts = moves;
}
  where
    moves :
        (rgb : List ℕ) (depth : List Float) (previous : Option ℕ) (state : Option ℕ)
        → (n : ℕ) × (next : ℕ) × (n < 4)
          × (model.act rgb depth tokens previous state ≡ ok (some (pos n), next))
    moves rgb depth none state = (1, 5, omega arith, refl)
    moves rgb depth (some a) state = (0, 5, omega arith, refl)

simulator-IsRunning : IsRunning encode vision model tokens request simulator
simulator-IsRunning = record {
  placed = λ s. (zero_f ∷ [], refl);
  observed = λ s. (view, refl, view-IsReadable);
  applied = λ a s. (zero_f ∷ [], refl);
}

run_episode-served_example : Returns (
    run_episode simulator
      (client encode vision model tokens request simulator (some "sha256:1"))
      request
      5
      (0, session))
run_episode-served_example =
    run_episode-served encode vision model tokens request simulator (some "sha256:1")
      request-IsUsable 5 (0, session) simulator-IsRunning (omega arith) (inr refl)

session-Waits : Waits encode vision model tokens request 0 session
session-Waits = record { episode = refl; frame = refl; running = refl; same = inl refl }

abbrev payload : Members
payload = sent encode vision model tokens request 0 view

-- A session that waits for a frame answers it.
answers :
    (p : PolicySession ℕ) (message : Members) (id : String) (t : Turn ℕ)
    → p.episode_id ≡ some id
    → act_parts vision model message p ≡ ok t
    → (act vision model message p).0 ≡ ok (act_reply id p.next_frame t.action)
unfolding act
answers p message id t e done = ground (arith, e, done)

session_acts : (r : Members) × ((act vision model payload session).0 ≡ ok r)
session_acts =
    let (t, done, instruction_kept, tokens_kept, named) =
      parts-turn encode vision model tokens request request-IsUsable 0 view session view-IsReadable
        session-Waits in
    (act_reply "7" 0 t.action, answers session payload "7" t refl done)

act_again_example :
    act vision model payload (act vision model payload session).1
    ≡ (raise value_error, (act vision model payload session).1)
act_again_example = act_again vision model payload session_acts.0 session session_acts.1
