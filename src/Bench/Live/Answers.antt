-- ===== src/Bench/Live/Answers.antt =====
-- bench/src/isaac_rvln/live_transport.py: what the node asks of the server and publishes.
use rvln.Prelude.{
  ℕ, ◌≡◌, refl, sym, subst, ap, ◌∙◌, Bool, true, String, Option, some, List, [], ◌∷◌, ◌++◌, str_eq,
  Result, ok, raise, Result-cases, Option-cases, Bool-cases, inl, inr, arith,
}
use rvln.Float.{Arith}
use rvln.Edge.Messages.{Mode, Observation}
use rvln.Bench.Live.{
  Episode, Event, odom_event, state_event, command_event, path_event, observation_event, Outcome,
  Output, Reply, is_version, infer_remote, on_observation, count_observation, for_goal, note_fault,
  other_instruction, non_text_observation, on_odom, on_state, on_command, on_path, record_video,
  handle,
}
use rvln.Bench.Live.Exchanges.{Exchange, idle, Told, infer_remote-Told}

-- A callback that asks nothing.
quiet-Told : (n after : Episode) → after.model_version ≡ n.model_version → Told n (ok tt, [], after)
quiet-Told n after same = (λ v h. same ∙ h, λ v rest is ex. ex)

for_goal-Told :
    (mode : Mode) (msg : Observation) (answer : Result Reply) (n : Episode)
    → Told n (for_goal mode msg answer n)
unfolding for_goal
for_goal-Told Mode.text msg answer n = elim (Bool-cases (str_eq msg.goal.goal_text n.instruction)) [
  | inl same ↦
      let told : infer_remote msg answer n ≡ for_goal Mode.text msg answer n = ground arith in
      subst (Told n) told (infer_remote-Told msg answer n)
  | inr other ↦
      let told : (ok tt, [], note_fault other_instruction n) ≡ for_goal Mode.text msg answer n =
        ground arith in
      subst (Told n) told (quiet-Told n (note_fault other_instruction n) refl)
]
for_goal-Told mode msg answer n = quiet-Told n (note_fault non_text_observation n) refl

count_observation-version :
    (decodes : List ℕ → Bool) (msg : Observation) (n : Episode)
    → (count_observation decodes msg n).model_version ≡ n.model_version
unfolding count_observation record_video
count_observation-version decodes msg n = ground arith

handle-Told :
    (m : Arith) (decodes : List ℕ → Bool) (ev : Event) (n : Episode)
    → Told n (handle m decodes ev n)
unfolding handle on_odom on_state on_command on_path on_observation
handle-Told m decodes (odom_event p x w) n = quiet-Told n (on_odom p x w n) (ground arith)
handle-Told m decodes (state_event p now) n = quiet-Told n (on_state m p now n) (ground arith)
handle-Told m decodes (command_event x w now) n = quiet-Told n (on_command x w now n) (ground arith)
handle-Told m decodes (path_event msg now) n = quiet-Told n (on_path m msg now n) (ground arith)
handle-Told m decodes (observation_event msg answer) n =
    let seen : Episode = count_observation decodes msg n in
    let (stays, told) = for_goal-Told msg.goal.mode msg answer seen in
    (λ v h. stays v (count_observation-version decodes msg n ∙ h), told)

-- Callbacks, one after the other, until an exception escapes.
unfoldable pub run_events : Arith → (List ℕ → Bool) → List Event → Episode → Outcome
run_events m decodes [] n = (ok tt, [], n)
run_events m decodes (ev ∷ rest) n =
    let (r, out, after) = handle m decodes ev n in
    elim r [
      | raise e ↦ (raise e, out, after)
      | ok u ↦ let (r', others, last) = run_events m decodes rest after in (r', out ++ others, last)
    ]

run_events-stays :
    (m : Arith) (decodes : List ℕ → Bool) (events : List Event) (n : Episode) (v : String)
    → n.model_version ≡ some v
    → (run_events m decodes events n).2.model_version ≡ some v
unfolding run_events
run_events-stays m decodes [] n v h = h
run_events-stays m decodes (ev ∷ rest) n v h =
    let after : Episode = (handle m decodes ev n).2 in
    let stays : after.model_version ≡ some v = (handle-Told m decodes ev n).0 v h in
    ground (arith, stays, run_events-stays m decodes rest after v stays)

version-earlier :
    (m : Arith) (decodes : List ℕ → Bool) (events : List Event) (n : Episode) (version : String)
    → is_version (run_events m decodes events n).2.model_version version ≡ true
    → is_version n.model_version version ≡ true
version-earlier m decodes events n version h = elim (Option-cases n.model_version) [
  | inl new ↦ ground (arith, new)
  | inr (w, known) ↦
      let kept = run_events-stays m decodes events n w known in
      subst (λ (k : Option String). is_version k version ≡ true) (kept ∙ sym known) h
]

append-nil_out : (out : List Output) → out ++ [] ≡ out
append-nil_out [] = refl
append-nil_out (o ∷ rest) = ap (λ (l : List Output). o ∷ l) (append-nil_out rest)

-- From any state on and through any callbacks, until an exception escapes: what goes out are
-- requests, each followed by at most one message, which has the frame ID of the request, as many
-- values as its shape says, and the model version that the node ends with, so that no episode mixes
-- the answers of two models.
pub run_events-Exchange :
    (m : Arith) (decodes : List ℕ → Bool) (events : List Event) (n : Episode) (version : String)
    → is_version (run_events m decodes events n).2.model_version version ≡ true
    → Exchange version (run_events m decodes events n).1
unfolding run_events
run_events-Exchange m decodes [] n version h = idle
run_events-Exchange m decodes (ev ∷ rest) n version h =
    let o : Outcome = handle m decodes ev n in
    let (stays, told) = handle-Told m decodes ev n in
    elim (Result-cases o.0) [
      | inr (err, e) ↦
          let ends : o.2 ≡ (run_events m decodes (ev ∷ rest) n).2 = ground arith in
          let outs : o.1 ++ [] ≡ (run_events m decodes (ev ∷ rest) n).1 =
            append-nil_out o.1 ∙ ground arith in
          let is : is_version o.2.model_version version ≡ true =
            subst (λ (k : Episode). is_version k.model_version version ≡ true) (sym ends) h in
          subst (Exchange version) outs (told version [] is idle)
      | inl (u, e) ↦
          let later : Outcome = run_events m decodes rest o.2 in
          let ends : later.2 ≡ (run_events m decodes (ev ∷ rest) n).2 = ground arith in
          let outs : o.1 ++ later.1 ≡ (run_events m decodes (ev ∷ rest) n).1 = ground arith in
          let is : is_version later.2.model_version version ≡ true =
            subst (λ (k : Episode). is_version k.model_version version ≡ true) (sym ends) h in
          let first : is_version o.2.model_version version ≡ true =
            version-earlier m decodes rest o.2 version is in
          subst (Exchange version) outs
            (told version later.1 first (run_events-Exchange m decodes rest o.2 version is))
    ]
