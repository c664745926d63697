-- ===== src/Bench/Session/Completes.antt =====
-- An episode that bench/src/bench/episode.py runs against the policy server of
-- bench/src/isaac_r2r/policy_server.py, through the client of bench/src/isaac_r2r/policy.py.
use rvln.Prelude.{
  ℕ, All-get_elem?, ◌+◌, ◌<◌, ◌≡◌, ◌⊎◌, refl, sym, ap, subst, ◌∙◌, Bool, true, false, ◌==◌, zero,
  suc, String, Option, none, some, List, get_elem?, str_eq, eq_iff, Result, ok, inl, inr, arith,
}
use rvln.Float.{Float}
use rvln.Edge.Json.{Members, get, text}
use rvln.Bench.Calls.{Call}
use rvln.Bench.Episode.{
  Observation, EpisodeRequest, EpisodeSimulator, Policy, Measurements, start_measurements,
  is_allowed, choose_action, run_episode,
}
use rvln.Bench.Episode.Ends.{Returns, Goes, run_frames-Returns, run_episode-frames}
use rvln.Bench.Policy.{
  is_text, is_number, action_of, act_payload, http_policy, http_act, http_reset, reset_payload,
}
use rvln.Bench.Session.{Vision, Model, PolicySession, actions}
use rvln.Bench.Session.Acting.{
  reset, reset_parts, reset_reply, act, act_reply, commit, Turn, do_post,
}
use rvln.Bench.Session.Serves.{
  IsUsable, IsReadable, Waits, sent, parts-turn, str_eq_refl, text_of-nonempty,
}

-- The actions are texts that are not empty, and the first one alone is the stop.
action-nonempty :
    (n : ℕ) (a : String) → get_elem? actions n ≡ some a → action_of (some (text a)) ≡ ok a
unfolding action_of
action-nonempty n a e = elim (named n e) [
  | inl h ↦ subst IsName (sym h) refl
  | inr (inl h) ↦ subst IsName (sym h) refl
  | inr (inr (inl h)) ↦ subst IsName (sym h) refl
  | inr (inr (inr h)) ↦ subst IsName (sym h) refl
]
  where
    IsName : String → Type 0
    IsName x = action_of (some (text x)) ≡ ok x

    named :
        (k : ℕ)
        → get_elem? actions k ≡ some a
        → (a ≡ "stop") ⊎ ((a ≡ "forward") ⊎ ((a ≡ "left") ⊎ (a ≡ "right")))
    named zero h = ground arith
    named (suc zero) h = ground arith
    named (suc (suc zero)) h = ground arith
    named (suc (suc (suc zero))) h = ground arith
    named (suc (suc (suc (suc k)))) h = ground arith

action-going :
    (n : ℕ) (a : String) → get_elem? actions n ≡ some a → str_eq a "stop" ≡ false → (n == 0) ≡ false
action-going zero a e h =
    let stop : a ≡ "stop" = ground arith in
    let same : str_eq a "stop" ≡ true = (eq_iff a "stop").1 stop in ground arith
action-going (suc n) a e h = ground arith

-- The client takes the replies that the server builds.
http_act-reply :
    {W : Type 0} (b64 : List ℕ → String) (float_is : Float → ℕ → Bool)
    (request : String → Members → Call W Members) (tokens : Option (List ℕ))
    (id instruction : String) (k : ℕ) (o : Observation) (a : String) (w w' : W)
    → request "/act" (act_payload b64 tokens id k instruction o) w ≡ (ok (act_reply id k a), w')
    → action_of (some (text a)) ≡ ok a
    → http_act b64 float_is request tokens id k instruction o w ≡ (ok a, w')
unfolding http_act act_reply get is_text is_number
http_act-reply b64 float_is request tokens id instruction k o a w w' sends named =
    ground (arith, sends, named, str_eq_refl id)

http_reset-reply :
    {W : Type 0} (b64 : List ℕ → String) (float_is : Float → ℕ → Bool)
    (request : String → Members → Call W Members) (policy_id : Option String)
    (id server_id : String) (w w' : W)
    → request "/reset" (reset_payload id) w ≡ (ok (reset_reply id server_id), w')
    → (policy_id ≡ none) ⊎ (policy_id ≡ some server_id)
    → http_reset b64 float_is request policy_id id w ≡ (ok tt, w')
unfolding http_reset reset_reply get is_text
http_reset-reply b64 float_is request policy_id id server_id w w' sends known =
    ground (arith, sends, known, str_eq_refl id, str_eq_refl server_id)

module _ {R S : Type 0} (b64 : List ℕ → String) (vision : Vision) (model : Model R)
    (tokens : List ℕ) (ep : EpisodeRequest) (sim : EpisodeSimulator S) where
  -- The simulator's calls return, with observations that the server can read.
  pub record IsRunning : Type 0 where
    pub placed : (s : S) → Returns (sim.reset ep s)
    pub observed :
        (s : S)
        → (o : Observation) × ((sim.observe s).0 ≡ ok o) × IsReadable b64 vision model tokens ep o
    pub applied : (a : String) (s : S) → Returns (sim.apply a s)

  -- The client, on the session behind the server.
  abbrev pub client : Option String → Policy (PolicySession R)
  client policy_id = http_policy b64 vision.float_is (do_post vision model) (some tokens) policy_id

  module _ (policy_id : Option String) (u : IsUsable b64 vision model tokens ep) where
    abbrev Waiting : ℕ → PolicySession R → Type 0
    Waiting = Waits b64 vision model tokens ep

    allows :
        (n : ℕ) (a : String) → get_elem? actions n ≡ some a → is_allowed ep.allowed_actions a ≡ true
    allows n a e =
        All-get_elem? (λ (b : String). is_allowed ep.allowed_actions b ≡ true) actions n a u.allowed
          e

    act-served :
        (k : ℕ) (o : Observation) (p : PolicySession R)
        → IsReadable b64 vision model tokens ep o
        → Waiting k p
        → (t : Turn R) × ((client policy_id).act ep.episode_id k ep.instruction o p
            ≡ (ok t.action, commit t p))
          × (get_elem? actions t.action_id ≡ some t.action)
          × ((t.action_id == 0) ≡ false → Waiting (k + 1) (commit t p))
    unfolding do_post act commit
    act-served k o p r w =
        let (t, done, instruction_kept, tokens_kept, named) =
          parts-turn b64 vision model tokens ep u k o p r w in
        let reply : do_post vision model "/act" (sent b64 vision model tokens ep k o) p
            ≡ (ok (act_reply ep.episode_id k t.action), commit t p) =
          ground (arith, w.episode, w.frame, done) in
        (
          t,
          http_act-reply b64 vision.float_is (do_post vision model) (some tokens) ep.episode_id
              ep.instruction k o t.action p (commit t p) reply
              (action-nonempty t.action_id t.action named),
          named,
          λ going. record {
            episode = w.episode;
            frame = ground (arith, w.frame);
            running = going;
            same = inr (ap some instruction_kept, ap some tokens_kept);
          },
        )

    frame-Goes :
        IsRunning
        → (k : ℕ) (w : S × PolicySession R) → Waiting k w.1
        → Goes sim (client policy_id) ep (λ k w. Waiting k w.1) k w
    unfolding choose_action
    frame-Goes s k w i =
        let (o, seen, readable) = s.observed w.0 in
        let (t, replied, named, onward) = act-served k o w.1 readable i in
        let chosen : choose_action sim (client policy_id) ep k w
            ≡ (ok t.action, ((sim.observe w.0).1, commit t w.1)) =
          ground (arith, seen, replied, allows t.action_id t.action named) in
        record {
          action = t.action;
          acts = ap (λ (c : Result String × (S × PolicySession R)). c.0) chosen;
          moves = λ going. (
            s.applied t.action (choose_action sim (client policy_id) ep k w).1.0,
            subst (λ (c : Result String × (S × PolicySession R)). Waiting (k + 1) c.1.1)
                (sym chosen)
                (onward (
                  action-going t.action_id t.action named
                    (subst (λ (a : String). str_eq t.action a ≡ false) u.terminal going))),
          );
        }

    reset-served :
        (p : PolicySession R)
        → (policy_id ≡ none) ⊎ (policy_id ≡ some p.policy_id)
        → let c = (client policy_id).reset ep.episode_id p in (c.0 ≡ ok tt) × Waiting 0 c.1
    unfolding do_post reset reset_parts reset_payload get
    reset-served p known =
        let (state, begins) = u.begins in
        let fresh : PolicySession R = record p {
          episode_id = some ep.episode_id;
          next_frame = 0;
          instruction = none;
          tokens = none;
          previous_action = none;
          state = some state;
          stopped = false;
        } in
        let reply : do_post vision model "/reset" (reset_payload ep.episode_id) p
            ≡ (ok (reset_reply ep.episode_id p.policy_id), fresh) =
          ground (arith, begins, text_of-nonempty ep.episode_id u.named) in
        let taken =
          http_reset-reply b64 vision.float_is (do_post vision model) policy_id ep.episode_id
            p.policy_id p fresh reply known in
        (
          ap (λ (c : Result (Unit {0}) × PolicySession R). c.0) taken,
          subst (λ (c : Result (Unit {0}) × PolicySession R). Waiting 0 c.1) (sym taken)
              (record { episode = refl; frame = refl; running = refl; same = inl refl }),
        )

    -- An episode over the client and the server returns its measurements: no refusal of the server,
    -- of a frame as stale, out of order or after the stop, and no reply that the client rejects ends
    -- it with an error. The conditions: the policy ID is not checked or is the server's; there is at
    -- least one step; the episode's ID and instruction are not empty, its instruction tokens are
    -- valid, its allowed actions contain all four actions of the server, and its terminal action is
    -- "stop"; every call of the simulator returns, and each observation has a depth image and images
    -- that the server can decode and prepare; and the model's reset succeeds, and each of its acts
    -- returns one of the four actions.
    pub run_episode-served :
        (max_steps : ℕ) (w : S × PolicySession R)
        → IsRunning
        → 0 < max_steps
        → (policy_id ≡ none) ⊎ (policy_id ≡ some w.1.policy_id)
        → Returns (run_episode sim (client policy_id) ep max_steps w)
    run_episode-served max_steps w s some_steps known =
        let (position, placed) = s.placed w.0 in
        let (ready, waits) = reset-served w.1 known in
        let terminal : is_allowed ep.allowed_actions ep.terminal_action ≡ true =
          subst (λ (a : String). is_allowed ep.allowed_actions a ≡ true) (sym u.terminal)
            (allows 0 "stop" refl) in
        let begun =
          run_episode-frames sim (client policy_id) ep max_steps w position some_steps terminal
            (tt, ready) placed in
        let w' : S × PolicySession R =
          ((sim.reset ep w.0).1, ((client policy_id).reset ep.episode_id w.1).1) in
        let (r, ran) =
          run_frames-Returns sim (client policy_id) ep (λ k v. Waiting k v.1) (frame-Goes s)
            max_steps 0 (start_measurements position) w' waits in
        (r, ap (λ (c : Result Measurements × (S × PolicySession R)). c.0) begun ∙ ran)
