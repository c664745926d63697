-- ===== src/Edge/SentFrames/Order.antt =====
-- The sent frames stay in the order of their IDs.
use rvln.Prelude.{
  ℕ, ◌≤◌, ◌<◌, ◌≡◌, refl, none, some, [], ◌∷◌, ◌++◌, length, ltb, arith, Bool-cases, inl, inr,
}
use rvln.Edge.Messages.{Image}
use rvln.Edge.SentFrames.{SentFrames, find, insert, trim, without, drop_older}

-- The IDs grow strictly, from above `lo` up to `hi`.
abbrev pub Increasing : ℕ → ℕ → SentFrames → Type 0
Increasing lo hi [] = Unit
Increasing lo hi ((f, image) ∷ d) = (lo < f) × (f ≤ hi) × Increasing f hi d

pub weaken :
    (lo lo' hi hi' : ℕ) (d : SentFrames)
    → lo' ≤ lo
    → hi ≤ hi'
    → Increasing lo hi d
    → Increasing lo' hi' d
weaken lo lo' hi hi' [] p q h = tt
weaken lo lo' hi hi' ((f, image) ∷ d) p q h =
    (omega arith, omega arith, weaken f f hi hi' d (omega arith) q h.2)

-- A new ID goes last.
pub insert_new :
    (lo hi f : ℕ) (image : Image) (d : SentFrames)
    → hi < f
    → Increasing lo hi d
    → insert f image d ≡ d ++ (f, image) ∷ []
unfolding insert
insert_new lo hi f image [] p h = refl
insert_new lo hi f image ((g, old) ∷ d) p h = ground (arith, insert_new g hi f image d p h.2)

pub insert-Increasing :
    (lo hi f : ℕ) (image : Image) (d : SentFrames)
    → lo < f
    → hi < f
    → Increasing lo hi d
    → Increasing lo f (insert f image d)
unfolding insert
insert-Increasing lo hi f image [] p q h = (p, omega arith, tt)
insert-Increasing lo hi f image ((g, old) ∷ d) p q h =
    let ih = insert-Increasing g hi f image d (omega arith) q h.2 in ground (arith, ih, h.0)

pub trim-Increasing :
    (lo hi n : ℕ) (d : SentFrames) → Increasing lo hi d → Increasing lo hi (trim n d)
unfolding trim
trim-Increasing lo hi n [] h = tt
trim-Increasing lo hi n ((f, image) ∷ d) h =
    let ih =
      weaken f lo hi hi (trim n d) (omega arith) (omega arith) (trim-Increasing f hi n d h.2) in
    ground (arith, ih, h)

pub length-trim-le : (n : ℕ) (d : SentFrames) → length (trim n d) ≤ n
unfolding trim
length-trim-le n [] = omega arith
length-trim-le n (e ∷ d) = ground (arith, length-trim-le n d)

pub without-Increasing :
    (lo hi f : ℕ) (d : SentFrames) → Increasing lo hi d → Increasing lo hi (without f d)
unfolding without
without-Increasing lo hi f [] h = tt
without-Increasing lo hi f ((g, image) ∷ d) h =
    let ih = without-Increasing g hi f d h.2 in
    let rest = weaken g lo hi hi d (omega arith) (omega arith) h.2 in ground (arith, ih, rest, h)

pub drop_older-Increasing :
    (lo hi f : ℕ) (d : SentFrames) → Increasing lo hi d → Increasing lo hi (drop_older f d)
unfolding drop_older
drop_older-Increasing lo hi f [] h = tt
drop_older-Increasing lo hi f ((g, image) ∷ d) h =
    let ih = drop_older-Increasing g hi f d h.2 in
    let rest = weaken g lo hi hi (drop_older f d) (omega arith) (omega arith) ih in
    ground (arith, ih, rest, h)

pub length-without-le : (f : ℕ) (d : SentFrames) → length (without f d) ≤ length d
unfolding without
length-without-le f [] = omega arith
length-without-le f ((g, image) ∷ d) = ground (arith, length-without-le f d)

pub length-drop_older-le : (f : ℕ) (d : SentFrames) → length (drop_older f d) ≤ length d
unfolding drop_older
length-drop_older-le f [] = omega arith
length-drop_older-le f ((g, image) ∷ d) = ground (arith, length-drop_older-le f d)

find_above : (lo hi f : ℕ) (d : SentFrames) → f ≤ lo → Increasing lo hi d → find f d ≡ none
unfolding find
find_above lo hi f [] p h = refl
find_above lo hi f ((g, image) ∷ d) p h = ground (arith, find_above g hi f d (omega arith) h.2)

-- After a reply to `f` is taken, no image of `f` or of an older frame is left.
pub find-drop_older :
    (lo hi f g : ℕ) (d : SentFrames)
    → g ≤ f
    → Increasing lo hi d
    → find g (drop_older f (without f d)) ≡ none
unfolding find drop_older without
find-drop_older lo hi f g [] p h = refl
find-drop_older lo hi f g ((k, image) ∷ d) p h = ground (
  arith,
  find-drop_older k hi f g d p h.2,
  drop_older-Increasing k hi f d h.2,
  find_above k hi g (drop_older f d),
)

find-append_last :
    (lo hi f : ℕ) (image : Image) (d : SentFrames)
    → hi < f
    → Increasing lo hi d
    → find f (d ++ (f, image) ∷ []) ≡ some image
unfolding find
find-append_last lo hi f image [] p h = ground arith
find-append_last lo hi f image ((g, old) ∷ d) p h =
    ground (arith, find-append_last g hi f image d p h.2)

pub find-trim_last :
    (lo hi f n : ℕ) (image : Image) (d : SentFrames)
    → hi < f
    → 0 < n
    → Increasing lo hi d
    → find f (trim n (d ++ (f, image) ∷ [])) ≡ some image
unfolding trim find
find-trim_last lo hi f n image [] p q h = ground arith
find-trim_last lo hi f n image ((g, old) ∷ d) p q h =
    elim (Bool-cases (ltb n (length ((g, old) ∷ d ++ (f, image) ∷ [])))) [
      | inl more ↦ rw more (find-trim_last g hi f n image d p q h.2)
      | inr fits ↦ rw fits (find-append_last lo hi f image ((g, old) ∷ d) p h)
    ]
