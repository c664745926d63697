-- ===== src/Bench/Session/Serves.antt =====
-- bench/src/isaac_r2r/policy_server.py reads what bench/src/isaac_r2r/policy.py sends.
use rvln.Prelude.{
  ℕ, All, ◌<◌, ◌≡◌, ◌⊎◌, refl, ap, ◌∙◌, true, false, not, ◌&&◌, ◌||◌, ◌==◌, String, Option, some,
  List, [], ◌∷◌, get_elem?, get_elem?-of_lt, str_eq, eq_iff, ok, Result-cases, inl, inr, arith,
}
use rvln.Float.{Float}
use rvln.Edge.Json.{Json, Members, get, integer, pos, text, array}
use rvln.Bench.Episode.{Observation, DepthImage, EpisodeRequest, is_allowed}
use rvln.Bench.Policy.{is_text, items_of, act_payload, depth_members, token_members}
use rvln.Bench.Session.{
  Vision, Model, PolicySession, actions, token_ids, validate_instruction_tokens, tokens_of, text_of,
  is_frame, is_active, is_unchanged, same_tokens, bytes_at, prepare_rgbd, action_name,
}
use rvln.Bench.Session.Acting.{act_parts, Turn}

pub str_eq_refl : (s : String) → str_eq s s ≡ true
str_eq_refl s = (eq_iff s s).1 refl

same_tokens_refl : (ts : List ℕ) → same_tokens ts ts ≡ true
unfolding same_tokens
same_tokens_refl [] = refl
same_tokens_refl (t ∷ ts) = ground (arith, same_tokens_refl ts)

-- The tokens survive being sent.
token_ids-items_of : (ts ids : List ℕ) → token_ids (items_of ts) ≡ ok ids → ids ≡ ts
unfolding token_ids items_of
token_ids-items_of [] ids e = ground arith
token_ids-items_of (t ∷ ts) ids e = elim (Result-cases (token_ids (items_of ts))) [
  | inr (err, bad) ↦ ground arith
  | inl (others, good) ↦ ground (arith, token_ids-items_of ts others good)
]

tokens_of-items_of :
    (ts ids : List ℕ)
    → validate_instruction_tokens (items_of ts) ≡ ok ids
    → tokens_of (some (array (items_of ts))) ≡ ok ts
unfolding tokens_of validate_instruction_tokens
tokens_of-items_of ts ids e = ground (arith, token_ids-items_of ts ids)

pub text_of-nonempty : (s : String) → str_eq s "" ≡ false → text_of (some (text s)) ≡ ok s
unfolding text_of
text_of-nonempty s e = rw (e, text_of) refl

action_name-of :
    (n : ℕ) (name : String)
    → get_elem? actions n ≡ some name
    → action_name (some (pos n)) ≡ ok (n, name)
unfolding action_name
action_name-of n name e = rw (e) refl

bytes_at-decoded :
    (vision : Vision) (v : Json) (bytes : List ℕ)
    → vision.b64decode v ≡ ok bytes
    → bytes_at vision (some v) ≡ ok bytes
unfolding bytes_at
bytes_at-decoded vision v bytes e = rw (e, bytes_at) refl

module _ {R : Type 0} (b64 : List ℕ → String) (vision : Vision) (model : Model R) (tokens : List ℕ)
    (ep : EpisodeRequest) where
  -- What the episode is run with: an episode with texts that are
  -- not empty, valid tokens and the server's actions; a model that returns one of its actions.
  pub record IsUsable : Type 0 where
    pub named : str_eq ep.episode_id "" ≡ false
    pub instructed : str_eq ep.instruction "" ≡ false
    pub tokenized : (ids : List ℕ) × (validate_instruction_tokens (items_of tokens) ≡ ok ids)
    pub allowed : All (λ (a : String). is_allowed ep.allowed_actions a ≡ true) actions
    pub terminal : ep.terminal_action ≡ "stop"
    pub begins : (state : R) × (model.reset ≡ ok state)
    pub acts :
        (rgb : List ℕ) (depth : List Float) (previous : Option ℕ) (state : Option R)
        → (n : ℕ) × (next : R) × (n < 4)
          × (model.act rgb depth tokens previous state ≡ ok (some (pos n), next))

  -- An observation that the server can read: base64 decodes what it encodes of it, and the images are
  -- of the model's size.
  pub record IsReadable (o : Observation) : Type 0 where
    pub image : DepthImage
    pub depth : o.depth ≡ some image
    pub jpeg_decodes : vision.b64decode (text (b64 o.jpeg)) ≡ ok o.jpeg
    pub depth_decodes : vision.b64decode (text (b64 image.f32)) ≡ ok image.f32
    pub prepared :
        (images : List ℕ × List Float) × (prepare_rgbd vision o.jpeg image.f32
            (some (integer image.width))
            (some (integer image.height))
          ≡ ok images)

  -- The session waits for frame `k` of the episode.
  pub record Waits (k : ℕ) (p : PolicySession R) : Type 0 where
    pub episode : p.episode_id ≡ some ep.episode_id
    pub frame : p.next_frame ≡ k
    pub running : p.stopped ≡ false
    pub same : (k ≡ 0) ⊎ ((p.instruction ≡ some ep.instruction) × (p.tokens ≡ some tokens))

  -- What the client sends.
  abbrev pub sent : ℕ → Observation → Members
  sent k o = act_payload b64 (some tokens) ep.episode_id k ep.instruction o

  -- What the server reads of an observation that the client sends.
  module _ (k : ℕ) (o : Observation) (r : IsReadable o) where
    get-tokens : get "instruction_tokens" (sent k o) ≡ some (array (items_of tokens))
    unfolding act_payload depth_members token_members get
    get-tokens = rw (r.depth) refl

    get-depth : get "depth_f32_base64" (sent k o) ≡ some (text (b64 r.image.f32))
    unfolding act_payload depth_members get
    get-depth = rw (r.depth) refl

    get-width : get "depth_width" (sent k o) ≡ some (integer r.image.width)
    unfolding act_payload depth_members get
    get-width = rw (r.depth) refl

    get-height : get "depth_height" (sent k o) ≡ some (integer r.image.height)
    unfolding act_payload depth_members get
    get-height = rw (r.depth) refl

  module _ (u : IsUsable) where
    module _ (k : ℕ) (o : Observation) (p : PolicySession R) (r : IsReadable o)
        (w : Waits k p) where
      active : is_active (get "episode_id" (sent k o)) p.episode_id ≡ true
      unfolding act_payload get is_active is_text
      active = rw (w.episode, str_eq_refl ep.episode_id) refl

      on_time : (is_frame (get "frame_id" (sent k o)) p.next_frame && not p.stopped) ≡ true
      unfolding act_payload get is_frame
      on_time = ground (arith, w.frame, w.running)

      instructed : text_of (get "instruction" (sent k o)) ≡ ok ep.instruction
      unfolding act_payload get
      instructed = text_of-nonempty ep.instruction u.instructed

      tokenized : tokens_of (get "instruction_tokens" (sent k o)) ≡ ok tokens
      tokenized =
          ap tokens_of (get-tokens k o r) ∙ tokens_of-items_of tokens u.tokenized.0 u.tokenized.1

      unchanged :
          (p.next_frame == 0 || is_unchanged ep.instruction tokens p.instruction p.tokens) ≡ true
      unfolding is_unchanged
      unchanged =
          ground (arith, w.frame, w.same, str_eq_refl ep.instruction, same_tokens_refl tokens)

      pictured : bytes_at vision (get "jpeg_base64" (sent k o)) ≡ ok o.jpeg
      unfolding act_payload get
      pictured = bytes_at-decoded vision (text (b64 o.jpeg)) o.jpeg r.jpeg_decodes

      measured : bytes_at vision (get "depth_f32_base64" (sent k o)) ≡ ok r.image.f32
      measured =
          ap (bytes_at vision) (get-depth k o r)
          ∙ bytes_at-decoded vision (text (b64 r.image.f32)) r.image.f32 r.depth_decodes

      prepared :
          prepare_rgbd vision o.jpeg r.image.f32
            (get "depth_width" (sent k o))
            (get "depth_height" (sent k o))
          ≡ ok r.prepared.0
      prepared = rw (get-width k o r, get-height k o r) r.prepared.1

      -- The turn that the frame is committed with.
      pub parts-turn :
          (t : Turn R) × (act_parts vision model (sent k o) p ≡ ok t)
          × (t.instruction ≡ ep.instruction)
          × (t.tokens ≡ tokens)
          × (get_elem? actions t.action_id ≡ some t.action)
      unfolding act_parts
      parts-turn =
          let (n, next, small, answers) =
            u.acts r.prepared.0.0 r.prepared.0.1 p.previous_action p.state in
          let (name, found) = get_elem?-of_lt actions n small in
          let named : action_name (some (pos n)) ≡ ok (n, name) = action_name-of n name found in
          (
            record {
              instruction = ep.instruction;
              tokens = tokens;
              action_id = n;
              action = name;
              state = next;
            },
            simp (
              active, on_time, instructed, tokenized, unchanged, pictured, measured, prepared,
              answers, named,
            ),
            refl,
            refl,
            found,
          )
