-- ===== src/Bench/Live/Exchanges.antt =====
-- bench/src/isaac_rvln/live_transport.py: one request to the server and what is published for its answer.
use rvln.Prelude.{
  ℕ, suc, ◌*◌, ◌<◌, ◌≡◌, refl, sym, subst, ap, ◌∙◌, true, String, Option, some, List, [], ◌∷◌, ◌++◌,
  length, length-append, eq_iff, Result, ok, raise, Result-cases, Option-cases, Bool-cases, ◌⊎◌,
  inl, inr, arith,
}
use rvln.Float.{Float}
use rvln.Edge.Messages.{Observation, ActionEmbedding}
use rvln.Bench.Live.{
  Episode, Outcome, Output, sent, publishes, Payload, Reply, embedding_shape, all_width, flatten,
  is_version, output_of, accept_reply, read_reply, catch, infer_remote, payload_of,
}

-- Requests, each with at most one message after it: of the same frame, of the version given, and
-- with as many values as its shape says.
pub data Exchange (version : String) : List Output → Type 0 where
  idle : Exchange version []
  unanswered :
      {rest : List Output} (p : Payload) → Exchange version rest → Exchange version (sent p ∷ rest)
  answered :
      {rest : List Output} (p : Payload) (e : ActionEmbedding)
      → e.frame_id ≡ p.frame_id
      → e.model_version ≡ version
      → e.num_tokens * e.embed_dim ≡ length e.embedding
      → 0 < e.embed_dim
      → Exchange version rest
      → Exchange version (sent p ∷ publishes e ∷ rest)

length-flatten :
    (w : ℕ) (tokens : List (List Float))
    → all_width w tokens ≡ true
    → length (flatten tokens) ≡ length tokens * w
length-flatten w [] h = omega arith
length-flatten w (t ∷ rest) h =
    let same : length t ≡ w = ground arith in
    let others : length (flatten rest) ≡ length rest * w = length-flatten w rest (ground arith) in
    grind (arith, length-append t (flatten rest))

shape-flatten :
    (tokens : List (List Float)) (n d : ℕ)
    → embedding_shape tokens ≡ some (n, d)
    → (n * d ≡ length (flatten tokens)) × (0 < d)
unfolding embedding_shape
shape-flatten [] n d h = absurd (ground arith)
shape-flatten (t ∷ rest) n d h =
    let wide : all_width (length t) (t ∷ rest) ≡ true = ground arith in
    let core : length (flatten (t ∷ rest)) ≡ suc (length rest) * length t =
      length-flatten (length t) (t ∷ rest) wide in
    let rows : suc (length rest) ≡ n = ground arith in
    let columns : length t ≡ d = ground arith in
    (
      ap (λ (k : ℕ). k * d) (sym rows)
          ∙ ap (λ (k : ℕ). suc (length rest) * k) (sym columns)
          ∙ sym core,
      ground arith,
    )

-- Either nothing is published and the version is as it was, or one message is, and its version is
-- the node's from then on.
abbrev Silent : Episode → Outcome → Type 0
Silent n (r, out, after) = (out ≡ []) × (after.model_version ≡ n.model_version)

abbrev Speaks : ℕ → Episode → Outcome → Type 0
Speaks frame n (r, out, after) =
    (e : ActionEmbedding) × (out ≡ publishes e ∷ [])
    × (e.frame_id ≡ frame)
    × (e.num_tokens * e.embed_dim ≡ length e.embedding)
    × (0 < e.embed_dim)
    × (after.model_version ≡ some e.model_version)
    × (is_version n.model_version e.model_version ≡ true)

output_of-shape :
    (msg : Observation) (r : Reply) (out : ActionEmbedding)
    → output_of msg r ≡ ok out
    → (out.frame_id ≡ msg.frame_id)
      × (out.num_tokens * out.embed_dim ≡ length out.embedding)
      × (0 < out.embed_dim)
unfolding output_of
output_of-shape msg r out h = elim (Option-cases (embedding_shape r.embedding)) [
  | inl bad ↦ absurd (ground arith)
  | inr ((tokens, dim), good) ↦
      let (size, wide) = shape-flatten r.embedding tokens dim good in
      (ground arith, ground (arith, size), ground (arith, wide))
]

accept_reply-Speaks :
    (r : Reply) (out : ActionEmbedding) (n : Episode) (frame : ℕ)
    → out.frame_id ≡ frame
    → out.num_tokens * out.embed_dim ≡ length out.embedding
    → 0 < out.embed_dim
    → Silent n (accept_reply r out n) ⊎ Speaks frame n (accept_reply r out n)
unfolding accept_reply
accept_reply-Speaks r out n frame f s w =
    elim (Bool-cases (is_version n.model_version out.model_version)) [
      | inr other ↦ inl (ground arith, ground arith)
      | inl same ↦ elim (Result-cases r.server_wall_ms) [
        | inl (wall, e) ↦ inr (out, ground arith, f, s, w, ground arith, same)
        | inr (err, e) ↦ inr (out, ground arith, f, s, w, ground arith, same)
      ]
    ]

read_reply-Speaks :
    (msg : Observation) (answer : Result Reply) (n : Episode)
    → Silent n (read_reply msg answer n) ⊎ Speaks msg.frame_id n (read_reply msg answer n)
unfolding read_reply
read_reply-Speaks msg (raise e) n = inl (refl, refl)
read_reply-Speaks msg (ok r) n = elim (Result-cases (output_of msg r)) [
  | inr (err, e) ↦ inl (ground arith, ground arith)
  | inl (out, e) ↦
      let (frame, size, wide) = output_of-shape msg r out e in
      let same : accept_reply r out n ≡ read_reply msg (ok r) n = ground arith in
      subst (λ (o : Outcome). Silent n o ⊎ Speaks msg.frame_id n o) same
        (accept_reply-Speaks r out n msg.frame_id frame size wide)
]

-- What a callback sends and publishes, with what the version is before and after.
abbrev pub Told : Episode → Outcome → Type 0
Told n (r, out, after) =
    ((v : String) → n.model_version ≡ some v → after.model_version ≡ some v)
    × ((v : String) (rest : List Output)
        → is_version after.model_version v ≡ true
        → Exchange v rest
        → Exchange v (out ++ rest))

version-same : (v w : String) → is_version (some v) w ≡ true → v ≡ w
version-same v w h = (eq_iff v w).0 h

catch-same : (o : Outcome) → ((catch o).1 ≡ o.1) × ((catch o).2.model_version ≡ o.2.model_version)
unfolding catch
catch-same (ok u, out, n) = (refl, refl)
catch-same (raise e, out, n) = (ground arith, ground arith)

pub infer_remote-Told :
    (msg : Observation) (answer : Result Reply) (n : Episode) → Told n (infer_remote msg answer n)
unfolding infer_remote
infer_remote-Told msg answer n =
    let p : Payload = payload_of msg n in
    let o : Outcome = catch (read_reply msg answer n) in
    let (kept, same) = catch-same (read_reply msg answer n) in
    elim (read_reply-Speaks msg answer n) [
      | inl (out, version) ↦
          let quiet : o.1 ≡ [] = kept ∙ out in
          (
            λ v h. same ∙ version ∙ h,
            λ v rest is ex.
                subst (λ (l : List Output). Exchange v (sent p ∷ (l ++ rest))) (sym quiet)
                  (unanswered p ex),
          )
      | inr (e, out, frame, size, wide, version, before) ↦
          let told : o.1 ≡ publishes e ∷ [] = kept ∙ out in
          let now : o.2.model_version ≡ some e.model_version = same ∙ version in
          (
            λ v h.
                let agrees : is_version (some v) e.model_version ≡ true =
                  subst (λ (k : Option String). is_version k e.model_version ≡ true) h before in
                now ∙ ap some (sym (version-same v e.model_version agrees)),
            λ v rest is ex.
                let agrees : is_version (some e.model_version) v ≡ true =
                  subst (λ (k : Option String). is_version k v ≡ true) now is in
                subst (λ (l : List Output). Exchange v (sent p ∷ (l ++ rest))) (sym told)
                  (answered p e frame (version-same e.model_version v agrees) size wide ex),
          )
    ]
