-- ===== src/Json.antt =====
-- The values that cross the wire: JSON, an object as a dictionary, and the tests that the source makes
-- on them.
use p2p_thief.Prelude.{
  Bool, true, false, ◌&&◌, ◌==◌, if◌then◌else◌, List, Option, none, some, dict_get, text_equality,
}
use p2p_thief.Prelude.Int.{ℤ, pos, ℤ_equality}
use Prim.Native.String.{String}

-- `decimal n f` is a float whose part before the point is `n`, which `int` gives, and whose digits
-- after it are `f`; the floats that have neither are `infinite`, of both signs, and `not_a_number`, which
-- Python's parser gives for a literal as 1e400 or NaN.
mutual
  pub data Json : Type 0 where
    null : Json
    boolean : Bool → Json
    number : ℤ → Json
    decimal : ℤ → String → Json
    infinite : Json
    not_a_number : Json
    text : String → Json
    array : Items → Json
    object : Members → Json

  pub data Items : Type 0 where
    no_items : Items
    item : Json → Items → Items

  pub data Members : Type 0 where
    no_members : Members
    member : String → Json → Members → Members

-- A dictionary at the top level.
abbrev pub Dict : Type 0
Dict = List (String × Json)

-- `isinstance(value, int)`: a `bool` is an `int` too.
abbrev pub is_int : Json → Bool
is_int (number n) = true
is_int (boolean b) = true
is_int _ = false

abbrev pub is_infinite : Json → Bool
is_infinite infinite = true
is_infinite _ = false

abbrev pub is_text : Json → Bool
is_text (text t) = true
is_text _ = false

abbrev pub is_object : Json → Bool
is_object (object m) = true
is_object _ = false

-- `value == n`
abbrev pub equals_int : Json → ℤ → Bool
equals_int (number m) n = m == n
equals_int (boolean b) n = (if b then pos 1 else pos 0) == n
equals_int (decimal m f) n = m == n && f == "0"
equals_int _ n = false

-- `d.get(key)`, where a missing key is `None`.
abbrev pub or_null : Option Json → Json
or_null none = null
or_null (some v) = v

abbrev pub field : String → Dict → Json
field key d = or_null (dict_get key d)

abbrev pub member_get : String → Members → Option Json
member_get key no_members = none
member_get key (member name v rest) = if name == key then some v else member_get key rest
