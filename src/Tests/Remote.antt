-- ===== src/Tests/Remote.antt =====
-- The inference node and the NaVIDA backend on concrete inputs.
use rvln.Prelude.{
  ℕ, true, ◌+◌, ◌*◌, ◌≤◌, ◌≡◌, refl, zero, suc, String, Option, none, some, List, [], ◌∷◌, length,
  ok, arith, ◌>>=◌,
}
use mathlib.Core.List.{reverse}
use rvln.Float.{Float, zero_f}
use rvln.Float.Literals.{lit_17, pi}
use rvln.Edge.Messages.{Observation, ActionEmbedding}
use rvln.Edge.SentFrames.{insert, trim}
use rvln.Edge.Cache.{put}
use rvln.Edge.Ledger.{record_sent}
use rvln.Edge.Node as Node
use rvln.Edge.Node.{EdgeNode}
use rvln.Edge.Node.Callbacks.{on_embedding_received, cached_of}
use rvln.Bench.Calls.{Call}
use rvln.Remote.Backend.{Query, VlaBackend, DummyBackend, dummy, dummy_infer, full}
use rvln.Remote.Inference.{
  Pil, VlaInferenceNode, asked, published, on_observation, goal_to_python, decode_image, publish,
  embedding_of, matrix_shape, last_of, rows_of, run,
}
use rvln.Remote.Inference.Replies.{IsShaped, Trace, run-Trace}
use rvln.Remote.Inference.Caching.{embedding-cached}
use rvln.Remote.Navida.{
  is_language, Primitive, or_current, infer, action_to_embedding, sample_history, images_at,
  forward,
}
use rvln.Remote.Navida.History.{after, past, infer-after}
use rvln.Tests.Platform.{platform}
use rvln.Tests.Correlation.{picture, go_text, empty_cache, ledger, ledger-IsValid}

-- Images are named by the size of their encoding.
abbrev pub pil : Pil ℕ
pil = record { open_rgb = λ bytes. ok (length bytes); placeholder = 0 }

abbrev ops : VlaBackend ℕ DummyBackend
ops = dummy platform (λ x. x)

length-full : (n : ℕ) (x : Float) → length (full n x) ≡ n
unfolding full
length-full zero x = refl
length-full (suc n) x = omega (arith, length-full n x)

ops-IsShaped : IsShaped ops
unfolding dummy_infer
ops-IsShaped q b t ms e = ground (
  arith,
  length-full (b.num_tokens * b.embed_dim) (
      (λ (x : Float). x)
        (platform.sin (platform.div (platform.mul (platform.of_ℕ (b.counter + 1)) pi) lit_17))),
)

abbrev node : VlaInferenceNode ℕ DummyBackend
node = record {
  backend = record {
    num_tokens = 1;
    embed_dim = 2;
    inference_ms = zero_f;
    version = "dummy-v1";
    counter = 0;
  };
  past_image = none;
}

abbrev pub seen : ℕ → List ℕ → Observation
seen f jpeg = record { frame_id = f; stamp_sec = 1; stamp_nanosec = 0; jpeg = jpeg; goal = go_text }

abbrev pub two : List Observation
two = seen 3 (5 ∷ 5 ∷ []) ∷ seen 4 [] ∷ []

run-Trace_example : Trace platform pil ops none two (run platform pil ops two node)
run-Trace_example = run-Trace platform pil ops two node ops-IsShaped

abbrev question : Query ℕ
question = record {
  current_image = 2;
  past_image = 2;
  lang_instruction = go_text.goal_text;
  goal_image = none;
  goal_pose = none;
}

abbrev answer : ActionEmbedding
answer = record {
  frame_id = 3;
  num_tokens = 1;
  embed_dim = 2;
  embedding = zero_f ∷ zero_f ∷ [];
  inference_ms = zero_f;
  model_version = "dummy-v1";
}

answered :
    (on_observation platform pil ops (seen 3 (5 ∷ 5 ∷ [])) node).0
    ≡ asked question ∷ published answer ∷ []
unfolding on_observation goal_to_python decode_image publish embedding_of matrix_shape last_of
    rows_of dummy_infer full
answered = refl

abbrev edge : EdgeNode (Unit {0})
edge = record Node.init {
  cache = some empty_cache;
  observations = (record_sent 1 picture ledger).1;
}

sent : record_sent 1 picture ledger ≡ (some 3, edge.observations)
unfolding record_sent insert trim
sent = refl

embedding-cached_example :
    (on_embedding_received answer 1000 edge).1.cache
    ≡ some (put (cached_of answer 1000 (some picture)) empty_cache)
embedding-cached_example =
    embedding-cached platform pil ops 1 3 1000 picture edge ledger empty_cache (seen 3 (5 ∷ 5 ∷ []))
      node question answer ops-IsShaped ledger-IsValid (omega arith) sent refl refl answered

abbrev ask : ℕ → String → Query ℕ
ask image text = record question { current_image = image; lang_instruction = text }

-- Of nine images, the first, the last and six in between.
sampled :
    sample_history {I = ℕ} (10 ∷ 11 ∷ 12 ∷ 13 ∷ 14 ∷ 15 ∷ 16 ∷ 17 ∷ 18 ∷ [])
    ≡ 10 ∷ 11 ∷ 12 ∷ 13 ∷ 15 ∷ 16 ∷ 17 ∷ 18 ∷ []
unfolding sample_history images_at
sampled = refl

abbrev generate : List ℕ → ℕ → String → Call ℕ String
generate history image text w = (ok "forward", w + 1)

abbrev parse : String → Option Primitive
parse text = some (forward none true)

abbrev calls : List (Query ℕ)
calls = ask 3 "door" ∷ ask 2 "door" ∷ ask 1 "hall" ∷ []

infer-after_example :
    let b = after platform (λ x. x) generate parse calls 0 in
    let shown = or_current 4 (sample_history (reverse (past (ask 4 "door") calls))) in
    let answer = generate shown 4 "door" b.model in
    let result = infer platform (λ x. x) generate parse (ask 4 "door") b in
    (result.0 ≡ (answer.0 >>= λ text. action_to_embedding platform (λ x. x) (parse text)))
    × (result.1.model ≡ answer.1)
    × (1 ≤ length shown)
    × (length shown ≤ 8)
unfolding is_language
infer-after_example = infer-after platform (λ x. x) generate parse (ask 4 "door") calls 0 refl
