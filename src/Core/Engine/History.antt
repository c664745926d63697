-- ===== src/Core/Engine/History.antt =====
-- The engine, against one that keeps every frame and no text.
use rvln.Prelude.{
  ℕ, zero, suc, ◌+◌, ◌-◌, ◌≤◌, ◌<◌, ◌≡◌, refl, sym, ap, ◌∙◌, true, false, ltb, List, [], ◌∷◌, ◌++◌,
  length, drop, length-append, ok, Bool-cases, inl, inr, arith,
}
use rvln.Core.Engine.{pad_front, last_n, stack_frames, push_frame}

module _ {F : Type 0} where
  abbrev pub copies : ℕ → F → List F
  copies zero x = []
  copies (suc n) x = x ∷ copies n x

  -- The last six of six copies of the first frame and all the frames.
  unfoldable pub window : List F → List F
  window [] = []
  window (first ∷ rest) = last_n 6 (copies 6 first ++ first ∷ rest)

  drop-append_left : (n : ℕ) (xs ys : List F) → n ≤ length xs → drop n (xs ++ ys) ≡ drop n xs ++ ys
  drop-append_left zero xs ys h = refl
  drop-append_left (suc n) [] ys h = absurd (omega arith)
  drop-append_left (suc n) (x ∷ xs) ys h = drop-append_left n xs ys (omega arith)

  pub drop-drop_one : (n : ℕ) (xs : List F) → drop 1 (drop n xs) ≡ drop (suc n) xs
  drop-drop_one zero xs = refl
  drop-drop_one (suc n) [] = refl
  drop-drop_one (suc n) (x ∷ xs) = drop-drop_one n xs

  pub length-drop_sub : (n : ℕ) (xs : List F) → length (drop n xs) ≡ length xs - n
  length-drop_sub zero xs = omega arith
  length-drop_sub (suc n) [] = omega arith
  length-drop_sub (suc n) (x ∷ xs) = omega (arith, length-drop_sub n xs)

  copies_shift : (n : ℕ) (x : F) (xs : List F) → copies n x ++ x ∷ xs ≡ x ∷ copies n x ++ xs
  copies_shift zero x xs = refl
  copies_shift (suc n) x xs = ap (λ (ys : List F). x ∷ ys) (copies_shift n x xs)

  pad_front-copies : (n : ℕ) (x : F) (xs : List F) → pad_front n x xs ≡ copies n x ++ xs
  unfolding pad_front
  pad_front-copies zero x xs = refl
  pad_front-copies (suc n) x xs = pad_front-copies n x (x ∷ xs) ∙ copies_shift n x xs

  length-copies : (n : ℕ) (x : F) → length (copies n x) ≡ n
  length-copies zero x = refl
  length-copies (suc n) x = omega (arith, length-copies n x)

  -- The ring holds the last frames.
  pub push_frame-last_n :
      (frame : F) (log : List F) → push_frame frame (last_n 6 log) ≡ last_n 6 (log ++ frame ∷ [])
  unfolding push_frame
  push_frame-last_n frame log =
      let k : ℕ = length log - 6 in
      let pushed : List F = drop k log ++ frame ∷ [] in
      let kept : drop k (log ++ frame ∷ []) ≡ pushed =
        drop-append_left k log (frame ∷ []) (omega arith) in
      let size : length pushed ≡ (length log - k) + 1 =
        omega (arith, length-append (drop k log) (frame ∷ []), length-drop_sub k log) in
      let total : length (log ++ frame ∷ []) ≡ length log + 1 = length-append log (frame ∷ []) in
      elim (Bool-cases (ltb 5 (length log))) [
        | inl many ↦
            let past : ltb 6 (length pushed) ≡ true = ground arith in
            let next : suc k ≡ length (log ++ frame ∷ []) - 6 = ground arith in
            let end : drop 1 pushed ≡ drop (length (log ++ frame ∷ []) - 6) (log ++ frame ∷ []) =
              ap (drop 1) (sym kept)
              ∙ drop-drop_one k (log ++ frame ∷ [])
              ∙ ap (λ (n : ℕ). drop n (log ++ frame ∷ [])) next in
            ground (arith, past, end)
        | inr few ↦
            let room : ltb 6 (length pushed) ≡ false = ground arith in
            let same : k ≡ length (log ++ frame ∷ []) - 6 = ground arith in
            let end : pushed ≡ drop (length (log ++ frame ∷ []) - 6) (log ++ frame ∷ []) =
              sym kept ∙ ap (λ (n : ℕ). drop n (log ++ frame ∷ [])) same in
            ground (arith, room, end)
      ]

  drop-copies : (n k : ℕ) (x : F) (xs : List F) → drop n (copies (n + k) x ++ xs) ≡ copies k x ++ xs
  drop-copies zero k x xs = let e : 0 + k ≡ k = omega arith in ap (λ (n : ℕ). copies n x ++ xs) e
  drop-copies (suc n) k x xs =
      let e : suc n + k ≡ suc (n + k) = omega arith in
      ap (λ (j : ℕ). drop (suc n) (copies j x ++ xs)) e ∙ drop-copies n k x xs

  drop-after_copies : (n k : ℕ) (x : F) (xs : List F) → drop (n + k) (copies n x ++ xs) ≡ drop k xs
  drop-after_copies zero k x xs = let e : 0 + k ≡ k = omega arith in ap (λ (j : ℕ). drop j xs) e
  drop-after_copies (suc n) k x xs =
      let e : suc n + k ≡ suc (n + k) = omega arith in
      ap (λ (j : ℕ). drop j (copies (suc n) x ++ xs)) e ∙ drop-after_copies n k x xs

  pub window_of :
      (first : F) (rest : List F)
      → window (first ∷ rest) ≡ drop (length (first ∷ rest)) (copies 6 first ++ first ∷ rest)
  unfolding window
  window_of first rest =
      let size : length (copies 6 first ++ first ∷ rest) - 6 ≡ length (first ∷ rest) =
        omega arith in
      ap (λ (n : ℕ). drop n (copies 6 first ++ first ∷ rest)) size

  -- With fewer than six frames.
  stack_few :
      (first : F) (rest : List F) (left : ℕ)
      → length (first ∷ rest) + left ≡ 6
      → stack_frames (first ∷ rest) 6 ≡ ok (window (first ∷ rest))
  unfolding stack_frames
  stack_few first rest left h =
      let frames : List F = first ∷ rest in
      let n : 6 - length frames ≡ left = omega arith in
      let padded : pad_front (6 - length frames) first frames ≡ copies left first ++ frames =
        ap (λ (j : ℕ). pad_front j first frames) n ∙ pad_front-copies left first frames in
      let size : length (copies left first ++ frames) - 6 ≡ 0 =
        omega (arith, length-append (copies left first) frames, length-copies left first) in
      let whole : last_n 6 (copies left first ++ frames) ≡ copies left first ++ frames =
        ap (λ (j : ℕ). drop j (copies left first ++ frames)) size in
      let seen : window frames ≡ copies left first ++ frames =
        window_of first rest
        ∙ ap (λ (j : ℕ). drop (length frames) (copies j first ++ frames)) (sym h)
        ∙ drop-copies (length frames) left first frames in
      ap (λ (l : List F). ok (last_n 6 l)) padded ∙ ap ok (whole ∙ sym seen)

  stack_six : (frames : List F) → length frames ≡ 6 → stack_frames frames 6 ≡ ok frames
  unfolding stack_frames pad_front
  stack_six [] h = absurd (omega arith)
  stack_six (first ∷ rest) h =
      let none_left : 6 - length (first ∷ rest) ≡ 0 = omega arith in
      let whole : length (first ∷ rest) - 6 ≡ 0 = omega arith in
      ap (λ (j : ℕ). ok (last_n 6 (pad_front j first (first ∷ rest)))) none_left
      ∙ ap (λ (j : ℕ). ok (drop j (first ∷ rest))) whole

  -- With six frames or more.
  stack_many :
      (first : F) (rest : List F) (k : ℕ)
      → length (first ∷ rest) ≡ 6 + k
      → stack_frames (drop k (first ∷ rest)) 6 ≡ ok (window (first ∷ rest))
  stack_many first rest k h =
      let frames : List F = first ∷ rest in
      let size : length (drop k frames) ≡ 6 = omega (arith, length-drop_sub k frames) in
      let seen : window frames ≡ drop k frames =
        window_of first rest
        ∙ ap (λ (j : ℕ). drop j (copies 6 first ++ frames)) h
        ∙ drop-after_copies 6 k first frames in
      stack_six (drop k frames) size ∙ ap ok (sym seen)

  pub stack-window :
      (log : List F) → 0 < length log → stack_frames (last_n 6 log) 6 ≡ ok (window log)
  stack-window [] h = absurd (omega arith)
  stack-window (first ∷ rest) h = elim (Bool-cases (ltb 5 (length (first ∷ rest)))) [
    | inl many ↦ stack_many first rest (length (first ∷ rest) - 6) (ground arith)
    | inr few ↦
        let none_gone : length (first ∷ rest) - 6 ≡ 0 = ground arith in
        ap (λ (j : ℕ). stack_frames (drop j (first ∷ rest)) 6) none_gone
        ∙ stack_few first rest (6 - length (first ∷ rest)) (ground arith)
  ]

  pub length-window : (log : List F) → 0 < length log → length (window log) ≡ 6
  length-window [] h = absurd (omega arith)
  length-window (first ∷ rest) h =
      let frames : List F = first ∷ rest in
      ap length (window_of first rest)
      ∙ omega (arith, length-drop_sub (length frames) (copies 6 first ++ frames))
