-- ===== src/ValidateRules/Json.antt =====
-- JSON values as json.loads returns them, and Python's order on their numbers.
use scrapeflow.Base.{
  ℕ, ◌*◌, ◌^◌, Bool, true, false, not, ◌&&◌, Option, none, some, List, ltb, ◌==◌, if◌then◌else◌,
  same_text,
}

-- A float is ± mantissa / 2 ^ scale.
pub data Number : Type 0 where
  integer : (negative : Bool) → ℕ → Number
  float : (negative : Bool) → (mantissa scale : ℕ) → Number
  nan : Number
  infinity : (negative : Bool) → Number

mutual
  pub data Json : Type 0 where
    null : Json
    boolean : Bool → Json
    number : Number → Json
    string : List ℕ → Json
    array : Elements → Json
    object : Members → Json

  pub data Elements : Type 0 where
    no_elements : Elements
    element : Json → Elements → Elements

  -- A key stands once.
  pub data Members : Type 0 where
    no_members : Members
    member : List ℕ → Json → Members → Members

-- ± x against ± y.
abbrev signed_less : Bool → ℕ → Bool → ℕ → Bool
signed_less true x true y = ltb y x
signed_less true x false y = not ((x == 0) && (y == 0))
signed_less false x true y = false
signed_less false x false y = ltb x y

abbrev signed_same : Bool → ℕ → Bool → ℕ → Bool
signed_same true x true y = x == y
signed_same false x false y = x == y
signed_same _ x _ y = (x == 0) && (y == 0)

abbrev same_sign : Bool → Bool → Bool
same_sign true b = b
same_sign false b = not b

-- a < b: exact between integers and floats; nan is in no order.
unfoldable pub num_less : Number → Number → Bool
num_less (integer n x) (integer m y) = signed_less n x m y
num_less (integer n x) (float m y k) = signed_less n (x * 2 ^ k) m y
num_less (float n x j) (integer m y) = signed_less n x m (y * 2 ^ j)
num_less (float n x j) (float m y k) = signed_less n (x * 2 ^ k) m (y * 2 ^ j)
num_less (infinity true) (infinity b) = not b
num_less (infinity false) b = false
num_less (infinity true) nan = false
num_less (infinity true) b = true
num_less nan b = false
num_less a (infinity b) = not b
num_less a nan = false

-- a == b
unfoldable pub num_same : Number → Number → Bool
num_same (integer n x) (integer m y) = signed_same n x m y
num_same (integer n x) (float m y k) = signed_same n (x * 2 ^ k) m y
num_same (float n x j) (integer m y) = signed_same n x m (y * 2 ^ j)
num_same (float n x j) (float m y k) = signed_same n (x * 2 ^ k) m (y * 2 ^ j)
num_same (infinity a) (infinity b) = same_sign a b
num_same _ _ = false

-- dict.get
abbrev pub get : Members → List ℕ → Option Json
get no_members key = none
get (member k v ms) key = let rest = get ms key in if same_text k key then some v else rest
