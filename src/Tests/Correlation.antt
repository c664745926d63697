-- ===== src/Tests/Correlation.antt =====
-- The embedding cache and the observation ledger on concrete inputs.
use rvln.Prelude.{ℕ, ◌+◌, ◌≡◌, refl, true, some, none, [], ◌∷◌, arith}
use rvln.Float.{zero_f}
use rvln.Edge.Messages.{Image, GoalSpec, Mode, Pose}
use rvln.Edge.SentFrames.{insert, trim}
use rvln.Edge.Cache.{EmbeddingCache, CachedEmbedding}
use rvln.Edge.Ledger.{ObservationLedger, record_sent, take_reply_frame}
use rvln.Edge.Ledger.Invariant as LedgerInvariant
use rvln.Edge.Ledger.Invariant.{IsValid, run-IsValid}
use rvln.Edge.Ledger.Pairing.{take_reply-record_sent}

abbrev pub reply : ℕ → CachedEmbedding
reply f = record {
  frame_id = f;
  recv_time_ns = 1000;
  embedding = zero_f ∷ [];
  num_tokens = 1;
  embed_dim = 1;
  inference_ms = zero_f;
  model_version = "dummy-v1";
  obs_image_rgb = none;
}

abbrev pub empty_cache : EmbeddingCache
empty_cache = record { max_age_ns = 6; hard_ns = 15; latest = none; floor = none }

abbrev one_reply : EmbeddingCache
one_reply = record empty_cache { latest = some (reply 3) }

abbrev pub picture : Image
picture = record { shape = 1 ∷ 1 ∷ 3 ∷ []; uint8 = true; items = 1 ∷ 2 ∷ 3 ∷ [] }

abbrev origin : Pose
origin = record {
  x = zero_f;
  y = zero_f;
  orientation = record { x = zero_f; y = zero_f; z = zero_f; w = zero_f };
}

abbrev pub go_text : GoalSpec
go_text = record {
  mode = Mode.text;
  frame_id = "";
  goal_pose = origin;
  goal_text = "door";
  raw_image = [];
}

abbrev pub ledger : ObservationLedger
ledger = record {
  goal = some go_text;
  generation = 1;
  frame_counter = 2;
  sent_frames = (2, picture) ∷ [];
  max_frames = 8;
}

pub ledger-IsValid : IsValid ledger
ledger-IsValid = record { ordered = (omega arith, omega arith, tt); bounded = omega arith }

run-IsValid_example : IsValid (
    LedgerInvariant.run
      (LedgerInvariant.Call.record_sent_call 1 picture
        ∷ LedgerInvariant.Call.take_reply_call 2
        ∷ [])
      ledger)
run-IsValid_example =
    run-IsValid
      (LedgerInvariant.Call.record_sent_call 1 picture
        ∷ LedgerInvariant.Call.take_reply_call 2
        ∷ [])
      ledger ledger-IsValid

take_reply-record_sent_example :
    (3 ≡ ledger.frame_counter + 1)
    × ((take_reply_frame 3 (record_sent 1 picture ledger).1).0 ≡ some picture)
unfolding record_sent insert trim
take_reply-record_sent_example =
    take_reply-record_sent 1 3 picture ledger (record_sent 1 picture ledger).1 ledger-IsValid
      (omega arith) refl
