-- ===== src/Bench/Batch/Summary.antt =====
-- bench/src/isaac_r2r/summary.py: `summarize`, of the traces and of the split they must cover.
use rvln.Prelude.{
  ℕ, ◌+◌, Bool, true, false, not, ◌&&◌, ◌||◌, ◌==◌, String, none, some, List, [], ◌∷◌, map, length,
  str_eq, if◌then◌else◌, Result, ok, raise, value_error, key_error, type_error, attribute_error,
  other_error, ◌>>=◌, ◌>>◌,
}
use rvln.Float.{Float}
use rvln.Edge.Json.{ℤ, Json, Members, null, text, array, object, get, truthy, int_of, Library}
use rvln.Bench.Policy.{is_text}
use rvln.Bench.Batch.{TraceFile, absent, unreadable, readable}

-- What is taken of Python: `==` of JSON values, `float`, the `mean` of truths and of floats, and
-- the sum of integers.
pub record Numbers : Type 0 where
  pub same : Json → Json → Bool
  pub float_of : Json → Result Float
  pub rate : List Bool → Float
  pub mean : List Float → Float
  pub sum : List ℤ → ℤ

pub record Summary : Type 0 where
  pub split_sha256 : String
  pub episodes : ℕ
  pub scenes : ℕ
  pub success_rate : Float
  pub spl : Float
  pub navigation_error_m : Float
  pub blocked_steps : ℤ
  pub policy_split_sha256 : Json
  pub policy_id : Json

-- `json.loads(path.read_text(...))`, of which only a dict has `get`
unfoldable pub load_row : TraceFile → Result Members
load_row (readable (object row)) = ok row
load_row (readable v) = raise attribute_error
load_row unreadable = raise value_error
load_row absent = raise other_error

unfoldable pub item_of : String → Members → Result Json
item_of key row = elim (get key row) [ none ↦ raise key_error | some v ↦ ok v ]

-- `row.get(key)`
unfoldable pub item_or_null : String → Members → Result Json
item_or_null key row = elim (get key row) [ none ↦ ok null | some v ↦ ok v ]

module _ {A B : Type 0} where
  abbrev pub each : (A → Result B) → List A → Result (List B)
  each f [] = ok []
  each f (x ∷ xs) = f x >>= λ y. each f xs >>= λ ys. ok (y ∷ ys)

abbrev pub first_of : List Json → Json
first_of [] = null
first_of (v ∷ rest) = v

-- An element of a set must be hashable.
unfoldable pub hashable : Json → Result Json
hashable (array items) = raise type_error
hashable (object members) = raise type_error
hashable v = ok v

abbrev pub all_same : (Json → Json → Bool) → Json → List Json → Bool
all_same same v [] = true
all_same same v (w ∷ rest) = same v w && all_same same v rest

-- A set of values has one element.
unfoldable pub is_single : (Json → Json → Bool) → List Json → Bool
is_single same [] = false
is_single same (v ∷ rest) = all_same same v rest

abbrev pub is_in : String → List String → Bool
is_in s [] = false
is_in s (t ∷ rest) = str_eq s t || is_in s rest

abbrev pub has_duplicate : List String → Bool
has_duplicate [] = false
has_duplicate (s ∷ rest) = is_in s rest || has_duplicate rest

abbrev pub all_text : String → List Json → Bool
all_text s [] = true
all_text s (v ∷ rest) = is_text (some v) s && all_text s rest

-- `d.get(key) == value`, in a dict of scenes
abbrev pub is_scene : String → Json → List (String × String) → Bool
is_scene id scene [] = false
is_scene id scene (e ∷ rest) =
    if str_eq e.0 id then is_text (some scene) e.1 else is_scene id scene rest

abbrev pub are_scenes : List String → List Json → List (String × String) → Bool
are_scenes (id ∷ ids) (scene ∷ scenes) expected =
    is_scene id scene expected && are_scenes ids scenes expected
are_scenes ids scenes expected = true

abbrev is_new : (Json → Json → Bool) → Json → List Json → Bool
is_new same v [] = true
is_new same v (w ∷ rest) = not (same v w) && is_new same v rest

-- The number of elements of a set.
abbrev count_distinct : (Json → Json → Bool) → List Json → ℕ
count_distinct same [] = 0
count_distinct same (v ∷ rest) =
    let others = count_distinct same rest in if is_new same v rest then others + 1 else others

abbrev pub all_completed : List Members → Bool
all_completed [] = true
all_completed (row ∷ rest) = is_text (get "status" row) "completed" && all_completed rest

abbrev pub set_of : String → Members → Result Json
set_of key row = item_of key row >>= hashable

abbrev pub optional_set_of : String → Members → Result Json
optional_set_of key row = item_or_null key row >>= hashable

-- `row.get("navigation_error_kind", "euclidean")`
abbrev pub error_kind : Members → Result Json
error_kind row = elim (get "navigation_error_kind" row) [
  | none ↦ ok (text "euclidean")
  | some v ↦ hashable v
]

abbrev pub demand : Bool → Result (Unit {0})
demand c = if c then ok tt else raise value_error

module _ (j : Library) (num : Numbers) where
  abbrev pub id_of : Members → Result String
  id_of row = item_of "episode_id" row >>= λ v. ok (j.str_of v)

  -- The checks of the rows among each other.
  unfoldable pub check_rows : List Members → Result (List String × List Json)
  check_rows rows = do
    demand (all_completed rows)
    ids ← each id_of rows
    demand (not (has_duplicate ids))
    spaces ← each (set_of "metric_namespace") rows
    demand (all_text "isaac_r2r_transfer" spaces)
    kinds ← each error_kind rows
    demand (all_text "euclidean" kinds)
    hashes ← each (set_of "split_sha256") rows
    demand (is_single num.same hashes)
    splits ← each (optional_set_of "policy_split_sha256") rows
    demand (is_single num.same splits)
    policies ← each (optional_set_of "policy_id") rows
    demand (is_single num.same policies)
    ok (ids, hashes)

  -- The rows are those of the split's episodes, in their scenes, and of its hash.
  unfoldable pub check_split :
      List (String × String) → String → List Members → List String × List Json → Result (List Json)
  check_split expected split_sha256 rows (ids, hashes) = do
    scenes ← each (item_of "scene_id") rows
    demand (length ids == length expected && are_scenes ids scenes expected)
    demand (all_text split_sha256 hashes)
    ok scenes

  unfoldable pub summary_of : String → List Members → List Json → Result Summary
  summary_of split_sha256 rows scenes = do
    success ← each (item_of "success") rows
    spl ← each (λ row. item_of "spl" row >>= num.float_of) rows
    errors ← each (λ row. item_of "navigation_error_m" row >>= num.float_of) rows
    blocked ← each (λ row. item_of "blocked_steps" row >>= int_of j) rows
    splits ← each (item_or_null "policy_split_sha256") rows
    policies ← each (item_or_null "policy_id") rows
    ok (record {
      split_sha256 = split_sha256;
      episodes = length rows;
      scenes = count_distinct num.same scenes;
      success_rate = num.rate (map truthy success);
      spl = num.mean spl;
      navigation_error_m = num.mean errors;
      blocked_steps = num.sum blocked;
      policy_split_sha256 = first_of splits;
      policy_id = first_of policies;
    })

  -- `expected` is what `load_episodes` and `scene_name` find, each episode once.
  unfoldable pub summarize : List TraceFile → List (String × String) → String → Result Summary
  summarize files expected split_sha256 = do
    demand (not (length files == 0))
    rows ← each load_row files
    checked ← check_rows rows
    scenes ← check_split expected split_sha256 rows checked
    summary_of split_sha256 rows scenes
