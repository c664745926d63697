-- ===== src/Bench/Session/Replays.antt =====
-- bench/src/isaac_r2r/policy_server.py: a frame is acted on once.
use rvln.Prelude.{
  ℕ, ◌+◌, ◌≡◌, sym, subst, true, false, Option, some, ok, raise, value_error, Result-cases,
  Option-cases, Bool-cases, inl, inr, arith,
}
use rvln.Edge.Json.{Json, Members, get, integer, pos}
use rvln.Bench.Session.{Vision, Model, PolicySession, is_frame, is_active}
use rvln.Bench.Session.Acting.{act, act_parts, commit, Turn}

is_frame-Next : (v : Option Json) (k : ℕ) → is_frame v k ≡ true → is_frame v (k + 1) ≡ false
unfolding is_frame
is_frame-Next (some (integer (pos n))) k e = ground arith
is_frame-Next v k e = ground arith

module _ {R : Type 0} (vision : Vision) (model : Model R) where
  -- A payload that the session acts on is of its next frame.
  act_parts-frame :
      (payload : Members) (p : PolicySession R) (t : Turn R)
      → act_parts vision model payload p ≡ ok t
      → is_frame (get "frame_id" payload) p.next_frame ≡ true
  unfolding act_parts
  act_parts-frame payload p t e =
      elim (Bool-cases (is_frame (get "frame_id" payload) p.next_frame)) [
        | inl h ↦ h
        | inr late ↦ elim (Bool-cases (is_active (get "episode_id" payload) p.episode_id)) [
          | inl active ↦ ground arith
          | inr other ↦ ground arith
        ]
      ]

  act_late :
      (payload : Members) (p : PolicySession R)
      → is_frame (get "frame_id" payload) p.next_frame ≡ false
      → act vision model payload p ≡ (raise value_error, p)
  unfolding act act_parts
  act_late payload p late = elim (Option-cases p.episode_id) [
    | inl idle ↦ simp (idle, act)
    | inr (id, busy) ↦ elim (Bool-cases (is_active (get "episode_id" payload) p.episode_id)) [
      | inl active ↦ ground arith
      | inr other ↦ ground arith
    ]
  ]

  -- Once a payload is acted on, the same payload is refused and changes nothing, as one that a client
  -- sends again after a time-out: the model does not see a frame twice.
  pub act_again :
      (payload r : Members) (p : PolicySession R)
      → (act vision model payload p).0 ≡ ok r
      → let p' = (act vision model payload p).1 in
        act vision model payload p' ≡ (raise value_error, p')
  unfolding act commit
  act_again payload r p e = elim (Option-cases p.episode_id) [
    | inl idle ↦ ground arith
    | inr (id, busy) ↦ elim (Result-cases (act_parts vision model payload p)) [
      | inr (err, refused) ↦ ground arith
      | inl (t, done) ↦
          let on_time = act_parts-frame payload p t done in
          let after : PolicySession R = (act vision model payload p).1 in
          let moved : after.next_frame ≡ p.next_frame + 1 = ground arith in
          let late : is_frame (get "frame_id" payload) after.next_frame ≡ false =
            subst (λ (k : ℕ). is_frame (get "frame_id" payload) k ≡ false) (sym moved)
              (is_frame-Next (get "frame_id" payload) p.next_frame on_time) in
          act_late payload after late
    ]
  ]
