-- ===== src/Edge/Json.antt =====
-- The JSON values that `json.loads` builds, as src/rvln_edge/rvln_edge/edge_action_ws_node.py reads
-- them: Python's `int`, `bool` and `dict.get` on such a value. The texts themselves are read by the
-- standard library, a parameter.
use rvln.Prelude.{
  ℕ, Bool, true, false, not, String, Option, none, some, List, ◌==◌, str_eq, if◌then◌else◌, Result,
  ok, raise, type_error,
}
use rvln.Float.{Float, zero_f, eq}

pub data ℤ : Type 0 where
  pos : ℕ → ℤ
  negsuc : ℕ → ℤ

mutual
  pub data Json : Type 0 where
    null : Json
    boolean : Bool → Json
    integer : ℤ → Json
    number : Float → Json
    text : String → Json
    array : Items → Json
    object : Members → Json

  pub data Items : Type 0 where
    no_item : Items
    item : Json → Items → Items

  pub data Members : Type 0 where
    no_member : Members
    member : String → Json → Members → Members

-- What the standard library reads and prints: json.loads, int of a float and of a text, str, and
-- base64.b64decode with `validate=True`.
pub record Library : Type 0 where
  pub loads : String → Result Json
  pub int_of_float : Float → Result ℤ
  pub int_of_text : String → Result ℤ
  pub str_of : Json → String
  pub b64decode : Json → Result (List ℕ)

unfoldable pub get : String → Members → Option Json
get key no_member = none
get key (member k v rest) = if str_eq k key then some v else get key rest

unfoldable pub int_of : Library → Json → Result ℤ
int_of j null = raise type_error
int_of j (boolean b) = ok (pos (if b then 1 else 0))
int_of j (integer i) = ok i
int_of j (number f) = j.int_of_float f
int_of j (text s) = j.int_of_text s
int_of j (array items) = raise type_error
int_of j (object members) = raise type_error

unfoldable pub truthy : Json → Bool
truthy null = false
truthy (boolean b) = b
truthy (integer (pos n)) = not (n == 0)
truthy (integer (negsuc n)) = true
truthy (number f) = not (eq f zero_f)
truthy (text s) = not (str_eq s "")
truthy (array no_item) = false
truthy (array (item v rest)) = true
truthy (object no_member) = false
truthy (object (member k v rest)) = true

-- A size below one is refused wherever it is used, so a negative one is read as zero.
unfoldable pub to_size : ℤ → ℕ
to_size (pos n) = n
to_size (negsuc n) = 0
