-- ===== src/Bench/Live/Keeping.antt =====
-- bench/src/isaac_rvln/live_transport.py: what a callback and the call of a service leave as it is.
use rvln.Prelude.{
  ℕ, ◌≤◌, ◌≡◌, refl, sym, subst, ap, ◌∙◌, Bool, List, [], ◌∷◌, ◌++◌, length, length-append,
  if◌then◌else◌, Result, ok, raise, Result-cases, Bool-cases, inl, inr, arith,
}
use rvln.Float.{Arith}
use rvln.Edge.Messages.{Mode, Observation}
use rvln.Bench.Calls.{Call, ◌>>=◌}
use rvln.Bench.Live.{
  Episode, Event, odom_event, state_event, command_event, path_event, observation_event, Outcome,
  Reply, handle, on_odom, on_state, on_command, on_path, on_observation, for_goal,
  count_observation, record_video, infer_remote, catch, read_reply, accept_reply, caught,
  other_instruction, non_text_observation, no_video_frame,
}
use rvln.Bench.Live.Running.{Client, asked, LiveRun, Answer, spin_event, spin_events, set_bool}

read_reply-errors :
    (msg : Observation) (answer : Result Reply) (n : Episode)
    → (read_reply msg answer n).2.errors ≡ n.errors
unfolding read_reply accept_reply
read_reply-errors msg answer n = ground arith

catch-errors : (o : Outcome) → length o.2.errors ≤ length (catch o).2.errors
unfolding catch
catch-errors (ok u, out, n) = omega arith
catch-errors (raise e, out, n) = ground (arith, length-append n.errors (caught e ∷ []))

-- No error is forgotten.
abbrev pub Grows : Episode → Episode → Type 0
Grows n after = length n.errors ≤ length after.errors

for_goal-Grows :
    (mode : Mode) (msg : Observation) (answer : Result Reply) (n : Episode)
    → Grows n (for_goal mode msg answer n).2
unfolding for_goal infer_remote
for_goal-Grows Mode.text msg answer n =
    let kept = ap length (read_reply-errors msg answer n) in
    ground (
      arith,
      kept,
      catch-errors (read_reply msg answer n),
      length-append n.errors (other_instruction ∷ []),
    )
for_goal-Grows mode msg answer n = omega (arith, length-append n.errors (non_text_observation ∷ []))

count_observation-Grows :
    (decodes : List ℕ → Bool) (msg : Observation) (n : Episode)
    → Grows n (count_observation decodes msg n)
unfolding count_observation record_video
count_observation-Grows decodes msg n = ground (arith, length-append n.errors (no_video_frame ∷ []))

handle-Grows :
    (m : Arith) (decodes : List ℕ → Bool) (ev : Event) (n : Episode)
    → Grows n (handle m decodes ev n).2
unfolding handle on_odom on_state on_command on_path on_observation
handle-Grows m decodes (odom_event p x w) n = ground arith
handle-Grows m decodes (state_event p now) n = ground arith
handle-Grows m decodes (command_event x w now) n = ground arith
handle-Grows m decodes (path_event msg now) n = ground arith
handle-Grows m decodes (observation_event msg answer) n = omega (
  arith,
  count_observation-Grows decodes msg n,
  for_goal-Grows msg.goal.mode msg answer (count_observation decodes msg n),
)

-- The verdict is the same, and no error is forgotten.
pub record Keeps (s s' : LiveRun) : Type 0 where
  pub reason : s'.stop_reason ≡ s.stop_reason
  pub confirmed : s'.confirmed_stop ≡ s.confirmed_stop
  pub errors : Grows s.node s'.node

pub Keeps-trans : (s t u : LiveRun) → Keeps s t → Keeps t u → Keeps s u
Keeps-trans s t u p q = record {
  reason = q.reason ∙ p.reason;
  confirmed = q.confirmed ∙ p.confirmed;
  errors = omega (arith, p.errors, q.errors);
}

pub bind-ok :
    {A B : Type 0} (c : Call LiveRun A) (k : A → Call LiveRun B) (s s' : LiveRun) (b : B)
    → (c >>= k) s ≡ (ok b, s')
    → (a : A) × (t : LiveRun) × (c s ≡ (ok a, t)) × (k a t ≡ (ok b, s'))
bind-ok c k s s' b h = elim (Result-cases (c s).0) [
  | inr (err, e) ↦ absurd (ground arith)
  | inl (a, e) ↦ (a, (c s).1, ground arith, ground arith)
]

module _ (m : Arith) (decodes : List ℕ → Bool) where
  pub spin_event-Keeps :
      (ev : Event) (s : LiveRun)
      → Keeps s (spin_event m decodes ev s).1 × ((spin_event m decodes ev s).1.actions ≡ s.actions)
  unfolding spin_event
  spin_event-Keeps ev s =
      (record { reason = refl; confirmed = refl; errors = handle-Grows m decodes ev s.node }, refl)

  spin_events-Keeps :
      (events : List Event) (s : LiveRun)
      → Keeps s (spin_events m decodes events s).1
        × ((spin_events m decodes events s).1.actions ≡ s.actions)
  unfolding spin_events
  spin_events-Keeps [] s = (record { reason = refl; confirmed = refl; errors = omega arith }, refl)
  spin_events-Keeps (ev ∷ rest) s =
      let (one, same) = spin_event-Keeps ev s in
      let t : LiveRun = (spin_event m decodes ev s).1 in
      let (others, later) = spin_events-Keeps rest t in
      elim (Result-cases (spin_event m decodes ev s).0) [
        | inr (err, e) ↦
            let ends : t ≡ (spin_events m decodes (ev ∷ rest) s).1 = ground arith in
            (subst (Keeps s) ends one, ap (λ (u : LiveRun). u.actions) (sym ends) ∙ same)
        | inl (u, e) ↦
            let last : LiveRun = (spin_events m decodes rest t).1 in
            let ends : last ≡ (spin_events m decodes (ev ∷ rest) s).1 = ground arith in
            (
              subst (Keeps s) ends (Keeps-trans s t last one others),
              ap (λ (u : LiveRun). u.actions) (sym ends) ∙ later ∙ same,
            )
      ]

  pub set_bool-Keeps :
      (client : Client) (value : Bool) (a : Answer) (s : LiveRun)
      → Keeps s (set_bool m decodes client value a s).1
        × ((set_bool m decodes client value a s).1.actions
            ≡ (if a.available then s.actions ++ asked client value ∷ [] else s.actions))
  unfolding set_bool
  set_bool-Keeps client value a s =
      let called : LiveRun = record s { actions = s.actions ++ asked client value ∷ [] } in
      let (k, same) = spin_events-Keeps a.events called in
      elim (Bool-cases a.available) [
        | inr gone ↦
            let ends : s ≡ (set_bool m decodes client value a s).1 = ground arith in
            (
              subst (Keeps s) ends
                  (record { reason = refl; confirmed = refl; errors = omega arith }),
              ground arith,
            )
        | inl there ↦
            let spun : LiveRun = (spin_events m decodes a.events called).1 in
            let ends : spun ≡ (set_bool m decodes client value a s).1 = ground arith in
            let kept : Keeps s spun = record {
              reason = k.reason;
              confirmed = k.confirmed;
              errors = k.errors;
            } in
            (subst (Keeps s) ends kept, ground (arith, same, ap (λ (u : LiveRun). u.actions) ends))
      ]
