-- ===== src/Edge/Trajectory/Shape.antt =====
-- The shape of a decoded path.
use rvln.Prelude.{
  ℕ, zero, suc, ◌+◌, ◌*◌, ◌≤◌, ◌≡◌, ◌↔◌, refl, Bool, List, [], ◌∷◌, inl, inr, String, length, take,
  drop, All, Result-cases, ok, arith, if◌then◌else◌,
}
use rvln.Float.{Float, Arith, one_f}
use rvln.Edge.Messages.{Pose, FramePath}
use rvln.Edge.Fp16.{half_to_float, fp16_bytes_to_float32_list}
use rvln.Edge.Trajectory.{row_to_pose, rows_to_poses, trajectory_to_path, reshape, decode_path}

length-take_of_le : (n : ℕ) (xs : List Float) → n ≤ length xs → length (take n xs) ≡ n
length-take_of_le zero xs h = refl
length-take_of_le (suc n) [] h = absurd (omega arith)
length-take_of_le (suc n) (x ∷ xs) h = omega (arith, length-take_of_le n xs (omega arith))

length-drop : (n k : ℕ) (xs : List Float) → length xs ≡ n + k → length (drop n xs) ≡ k
length-drop zero k xs h = omega arith
length-drop (suc n) k [] h = absurd (omega arith)
length-drop (suc n) k (x ∷ xs) h = length-drop n k xs (omega arith)

abbrev pub IsRow : ℕ → List Float → Type 0
IsRow columns row = length row ≡ columns

pub reshape-rows :
    (rows columns : ℕ) (values : List Float)
    → length values ≡ rows * columns
    → All (IsRow columns) (reshape rows columns values)
      × (length (reshape rows columns values) ≡ rows)
unfolding reshape
reshape-rows zero columns values h = (tt, refl)
reshape-rows (suc rows) columns values h =
    let total : length values ≡ columns + rows * columns = grind arith in
    let (each, count) =
      reshape-rows rows columns (drop columns values)
        (length-drop columns (rows * columns) values total) in
    ((length-take_of_le columns values (omega arith), each), omega arith)

row_to_pose-ok :
    (m : Arith) (spacing : Float) (columns : ℕ) (row : List Float)
    → 4 ≤ columns
    → IsRow columns row
    → (p : Pose) × (row_to_pose m spacing row ≡ ok p)
unfolding row_to_pose
row_to_pose-ok m spacing columns (x ∷ y ∷ c ∷ s ∷ row) h k = (_, refl)
row_to_pose-ok m spacing columns row h k = absurd (omega arith)

pub rows_to_poses-ok :
    (m : Arith) (spacing : Float) (columns : ℕ) (rows : List (List Float))
    → 4 ≤ columns
    → All (IsRow columns) rows
    → (poses : List Pose) × (rows_to_poses m spacing rows ≡ ok poses) × (length poses ≡ length rows)
unfolding rows_to_poses
rows_to_poses-ok m spacing columns [] h k = ([], refl, refl)
rows_to_poses-ok m spacing columns (row ∷ rows) h k =
    let (p, here) = row_to_pose-ok m spacing columns row h k.0 in
    let (poses, there, count) = rows_to_poses-ok m spacing columns rows h k.1 in
    (p ∷ poses, rw (here, there), omega arith)

fp16-length :
    (raw : List ℕ) (n : ℕ)
    → length raw ≡ n + n
    → (values : List Float) × (fp16_bytes_to_float32_list raw ≡ ok values) × (length values ≡ n)
unfolding fp16_bytes_to_float32_list
fp16-length [] n h = ([], refl, omega arith)
fp16-length (b ∷ []) n h = absurd (omega arith)
fp16-length (low ∷ high ∷ raw) zero h = absurd (omega arith)
fp16-length (low ∷ high ∷ raw) (suc n) h =
    let (values, e, count) = fp16-length raw n (omega arith) in
    (half_to_float (low + 256 * high) ∷ values, rw e, omega arith)

-- fp16 payloads of another size are refused
fp16-size :
    (raw : List ℕ) (values : List Float)
    → fp16_bytes_to_float32_list raw ≡ ok values
    → length raw ≡ length values + length values
unfolding fp16_bytes_to_float32_list
fp16-size [] values h = ground arith
fp16-size (b ∷ []) values h = cc
fp16-size (low ∷ high ∷ raw) values h = elim (Result-cases (fp16_bytes_to_float32_list raw)) [
  | inl (rest, e) ↦ ground (arith, fp16-size raw rest e)
  | inr (err, e) ↦ ground arith
]

pub decode_path-ok :
    (m : Arith) (raw : List ℕ) (num_tokens embed_dim : ℕ) (scaled_to_m : Bool) (spacing : Float)
    (frame_id : String)
    → 1 ≤ num_tokens
    → 4 ≤ embed_dim
    → length raw ≡ num_tokens * embed_dim + num_tokens * embed_dim
    → (path : FramePath) × (decode_path m raw num_tokens embed_dim scaled_to_m spacing frame_id
        ≡ ok path)
      × (length path.poses ≡ num_tokens)
      × (path.frame_id ≡ frame_id)
unfolding decode_path trajectory_to_path
decode_path-ok m raw num_tokens embed_dim scaled_to_m spacing frame_id h k e =
    let unit = if scaled_to_m then one_f else spacing in
    let (values, read, count) = fp16-length raw (num_tokens * embed_dim) e in
    let (each, rows) = reshape-rows num_tokens embed_dim values count in
    let (poses, built, all) =
      rows_to_poses-ok m unit embed_dim (reshape num_tokens embed_dim values) k each in
    (record { frame_id = frame_id; poses = poses }, ground (arith, read, built), omega arith, refl)

decode_path-shape :
    (m : Arith) (raw : List ℕ) (num_tokens embed_dim : ℕ) (scaled_to_m : Bool) (spacing : Float)
    (frame_id : String) (path : FramePath)
    → decode_path m raw num_tokens embed_dim scaled_to_m spacing frame_id ≡ ok path
    → (1 ≤ num_tokens)
      × (4 ≤ embed_dim)
      × (length raw ≡ num_tokens * embed_dim + num_tokens * embed_dim)
      × (length path.poses ≡ num_tokens)
unfolding decode_path
decode_path-shape m raw num_tokens embed_dim scaled_to_m spacing frame_id path h =
    let n : 1 ≤ num_tokens = ground arith in
    let d : 4 ≤ embed_dim = ground arith in
    elim (Result-cases (fp16_bytes_to_float32_list raw)) [
      | inl (values, e) ↦
          let size : length raw ≡ num_tokens * embed_dim + num_tokens * embed_dim =
            ground (arith, fp16-size raw values e) in
          let (path', e', count, frame) =
            decode_path-ok m raw num_tokens embed_dim scaled_to_m spacing frame_id n d size in
          (n, d, size, ground (arith, e', h, count))
      | inr (err, e) ↦ absurd (ground arith)
    ]

-- A payload decodes, to a path in the given frame with one pose for each row, exactly when the shape
-- has at least one row and at least four columns and the payload two bytes for each value.
pub decode_path-decodes :
    (m : Arith) (raw : List ℕ) (num_tokens embed_dim : ℕ) (scaled_to_m : Bool) (spacing : Float)
    (frame_id : String)
    → ((path : FramePath) × (decode_path m raw num_tokens embed_dim scaled_to_m spacing frame_id
          ≡ ok path)
        × (length path.poses ≡ num_tokens)
        × (path.frame_id ≡ frame_id))
      ↔ ((1 ≤ num_tokens)
          × (4 ≤ embed_dim)
          × (length raw ≡ num_tokens * embed_dim + num_tokens * embed_dim))
decode_path-decodes m raw num_tokens embed_dim scaled_to_m spacing frame_id = (
  λ p.
      let (n, d, size, count) =
        decode_path-shape m raw num_tokens embed_dim scaled_to_m spacing frame_id p.0 p.1 in
      (n, d, size),
  λ q. decode_path-ok m raw num_tokens embed_dim scaled_to_m spacing frame_id q.0 q.1 q.2,
)
