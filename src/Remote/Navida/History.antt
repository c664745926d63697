-- ===== src/Remote/Navida/History.antt =====
-- src/rvln_remote/rvln_remote/backends/navida.py: the images that the model is shown.
use rvln.Prelude.{
  ℕ, ◌≤◌, ◌≡◌, refl, ap, ◌∙◌, true, false, not, leb, String, Option, none, some, List, [], ◌∷◌,
  zero, suc, take, drop, length, if◌then◌else◌, Bool-cases, inl, inr, arith, ◌>>=◌,
}
use mathlib.Core.List.{reverse}
use rvln.Float.{Float, Arith}
use rvln.Bench.Calls.{Call}
use rvln.Remote.Backend.{Query}
use rvln.Remote.Navida.{
  NavidaBackend, Primitive, init, sample_history, sample_indices, images_at, is_language, is_same,
  with_current, history_of, or_current, infer, action_to_embedding,
}

-- The instruction that was last taken; the calls are listed with the newest first.
unfoldable pub last_instruction : {I : Type 0} → List (Query I) → Option String
last_instruction [] = none
last_instruction (q ∷ earlier) =
    if is_language q then some q.lang_instruction else last_instruction earlier

-- The images since the instruction last changed, the newest first.
unfoldable pub streak : {I : Type 0} → List (Query I) → List I
streak [] = []
streak (q ∷ earlier) =
    let before = streak earlier in
    if not (is_language q)
    then before
    else if is_same q.lang_instruction (last_instruction earlier)
    then q.current_image ∷ before
    else q.current_image ∷ []

-- The images of the instruction before the current one.
unfoldable pub past : {I : Type 0} → Query I → List (Query I) → List I
past q earlier =
    if is_same q.lang_instruction (last_instruction earlier) then take 9 (streak earlier) else []

length-images_at :
    {I : Type 0} (images : List I) (indices : List ℕ)
    → length (images_at images indices) ≤ length indices
unfolding images_at
length-images_at images [] = omega arith
length-images_at images (i ∷ rest) = ground (arith, length-images_at images rest)

take-take : {I : Type 0} (n : ℕ) (xs : List I) → take n (take (suc n) xs) ≡ take n xs
take-take zero xs = refl
take-take (suc n) [] = refl
take-take (suc n) (x ∷ xs) = ap (λ (r : List _). x ∷ r) (take-take n xs)

sample_history-length : {I : Type 0} (images : List I) → length (sample_history images) ≤ 8
unfolding sample_history
sample_history-length images = elim (Bool-cases (leb (length images) 8)) [
  | inl few ↦ ground arith
  | inr many ↦ rw (many, sample_history) (length-images_at images (sample_indices (length images)))
]

length-or_current :
    {I : Type 0} (image : I) (images : List I)
    → length images ≤ 8
    → (1 ≤ length (or_current image images)) × (length (or_current image images) ≤ 8)
length-or_current image [] h = (omega arith, omega arith)
length-or_current image (first ∷ rest) h = (omega arith, h)

module _ {I W : Type 0} (m : Arith) (to_f32 : Float → Float)
    (generate : List I → I → String → Call W String) (parse : String → Option Primitive) where
  unfoldable pub after : List (Query I) → W → NavidaBackend I W
  after [] w = init w
  after (q ∷ earlier) w = (infer m to_f32 generate parse q (after earlier w)).1

  with_current-past :
      (q : Query I) (earlier : List (Query I)) (b : NavidaBackend I W)
      → b.frames ≡ take 10 (streak earlier)
      → b.instruction ≡ last_instruction earlier
      → with_current q b ≡ q.current_image ∷ past q earlier
  unfolding with_current past
  with_current-past q earlier b f i =
      elim (Bool-cases (is_same q.lang_instruction (last_instruction earlier))) [
        | inl same ↦
            rw (i, f, same)
              (ap (λ (r : List I). q.current_image ∷ r) (take-take 9 (streak earlier)))
        | inr new ↦ rw (i, new) refl
      ]

  infer-skip :
      (q : Query I) (b : NavidaBackend I W)
      → is_language q ≡ false
      → (infer m to_f32 generate parse q b).1 ≡ b
  unfolding infer
  infer-skip q b h = ground (arith, h)

  infer-frames :
      (q : Query I) (b : NavidaBackend I W)
      → is_language q ≡ true
      → ((infer m to_f32 generate parse q b).1.frames ≡ with_current q b)
        × ((infer m to_f32 generate parse q b).1.instruction ≡ some q.lang_instruction)
  unfolding infer
  infer-frames q b h = ground (arith, h)

  streak-past :
      (q : Query I) (earlier : List (Query I))
      → is_language q ≡ true
      → q.current_image ∷ past q earlier ≡ take 10 (streak (q ∷ earlier))
  unfolding past streak
  streak-past q earlier h =
      elim (Bool-cases (is_same q.lang_instruction (last_instruction earlier))) [
        | inl same ↦ rw (h, same) refl
        | inr new ↦ rw (h, new) refl
      ]

  after-streak :
      (calls : List (Query I)) (w : W)
      → ((after calls w).frames ≡ take 10 (streak calls))
        × ((after calls w).instruction ≡ last_instruction calls)
  unfolding after last_instruction streak
  after-streak [] w = (refl, refl)
  after-streak (q ∷ earlier) w =
      let b = after earlier w in
      let (frames_kept, instruction_kept) = after-streak earlier w in
      elim (Bool-cases (is_language q)) [
        | inr other ↦ rw (infer-skip q b other, other) (frames_kept, instruction_kept)
        | inl language ↦
            let (frames_of, instruction_of) = infer-frames q b language in
            let now = frames_of ∙ with_current-past q earlier b frames_kept instruction_kept in
            (now ∙ streak-past q earlier language, rw (language) instruction_of)
      ]

  -- The images that the model is shown for a call after the given ones.
  abbrev pub shown_after : Query I → List (Query I) → List I
  shown_after q calls = or_current q.current_image (sample_history (reverse (past q calls)))

  history_of-after :
      (q : Query I) (calls : List (Query I)) (w : W)
      → history_of q (after calls w) ≡ shown_after q calls
  unfolding history_of
  history_of-after q calls w =
      let (frames_kept, instruction_kept) = after-streak calls w in
      let now = with_current-past q calls (after calls w) frames_kept instruction_kept in
      ap (λ (r : List I). or_current q.current_image (sample_history (reverse (drop 1 r)))) now

  infer-shows :
      (q : Query I) (b : NavidaBackend I W) (shown : List I)
      → is_language q ≡ true
      → history_of q b ≡ shown
      → let answer = generate shown q.current_image q.lang_instruction b.model in
        let result = infer m to_f32 generate parse q b in
        (result.0 ≡ (answer.0 >>= λ text. action_to_embedding m to_f32 (parse text)))
        × (result.1.model ≡ answer.1)
  unfolding infer
  infer-shows q b shown language h = ground (arith, language, h)

  -- After any calls, answered or not, and for a language goal: the result is the action that the
  -- model's answer names, or the error, and the model's state is the one after that answer, when the
  -- model is called with the current image, the instruction and these images: the sampled ones of
  -- the nine calls before, at most, with the same instruction since it last changed, the oldest
  -- first, or the current image when there are none. They are one to eight images in any case.
  pub infer-after :
      (q : Query I) (calls : List (Query I)) (w : W)
      → is_language q ≡ true
      → let b = after calls w in
        let shown = or_current q.current_image (sample_history (reverse (past q calls))) in
        let answer = generate shown q.current_image q.lang_instruction b.model in
        let result = infer m to_f32 generate parse q b in
        (result.0 ≡ (answer.0 >>= λ text. action_to_embedding m to_f32 (parse text)))
        × (result.1.model ≡ answer.1)
        × (1 ≤ length shown)
        × (length shown ≤ 8)
  infer-after q calls w language =
      let b = after calls w in
      let (answered, moved) =
        infer-shows q b (shown_after q calls) language (history_of-after q calls w) in
      let (some_shown, few_shown) =
        length-or_current q.current_image (sample_history (reverse (past q calls)))
          (sample_history-length (reverse (past q calls))) in
      (answered, moved, some_shown, few_shown)
