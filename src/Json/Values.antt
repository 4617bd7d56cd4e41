-- ===== src/Json/Values.antt =====
-- The data type of the values, and the reading of a value that the program expects to be a text,
-- a dictionary or a list.
use owasp_llm_lab_setup_guid.Base.{
  ℕ, ◌*◌, ◌&&◌, Bool, true, Option, none, some, String, ◌==◌, List, [], ◌∷◌, text_in, if◌then◌else◌,
}

-- `minus n` is -(n + 1), as a number of units.
pub data Integer : Type 0 where
  plus : ℕ → Integer
  minus : ℕ → Integer

mutual
  pub data Json : Type 0 where
    null : Json
    bool : Bool → Json
    int : Integer → Json
    -- A finite float, in millionths.
    float : Integer → Json
    -- NaN or an infinity.
    not_finite : Json
    str : String → Json
    arr : Items → Json
    obj : Fields → Json

  pub data Items : Type 0 where
    nil : Items
    cons : Json → Items → Items

  pub data Fields : Type 0 where
    end : Fields
    field : String → Json → Fields → Fields

-- `isinstance(value, str)`
abbrev pub as_str : Json → Option String
as_str (str s) = some s
as_str null = none
as_str (bool b) = none
as_str (int n) = none
as_str (float n) = none
as_str not_finite = none
as_str (arr xs) = none
as_str (obj fs) = none

-- `isinstance(value, dict)`
abbrev pub as_dict : Json → Option Fields
as_dict (obj fs) = some fs
as_dict null = none
as_dict (bool b) = none
as_dict (int n) = none
as_dict (float n) = none
as_dict not_finite = none
as_dict (str s) = none
as_dict (arr xs) = none

-- `isinstance(value, list)`
abbrev pub as_list : Json → Option Items
as_list (arr xs) = some xs
as_list null = none
as_list (bool b) = none
as_list (int n) = none
as_list (float n) = none
as_list not_finite = none
as_list (str s) = none
as_list (obj fs) = none

abbrev million : ℕ
million = 1000000

-- A number of the types `int` and `float` that is finite and not negative, in millionths. Every
-- test of the program refuses the other values.
abbrev pub as_micros : Json → Option ℕ
as_micros (int (plus n)) = some (n * million)
as_micros (int (minus n)) = none
as_micros (float (plus n)) = some n
as_micros (float (minus n)) = none
as_micros null = none
as_micros (bool b) = none
as_micros not_finite = none
as_micros (str s) = none
as_micros (arr xs) = none
as_micros (obj fs) = none

-- `d.get(k)`; a dictionary lists each of its keys once.
unfoldable pub get : String → Fields → Option Json
get k end = none
get k (field j v fs) = if j == k then some v else get k fs

unfoldable pub keys : Fields → List String
keys end = []
keys (field j v fs) = j ∷ keys fs

unfoldable pub to_list : Items → List Json
to_list nil = []
to_list (cons v vs) = v ∷ to_list vs

all_in : List String → List String → Bool
all_in [] ys = true
all_in (x ∷ xs) ys = text_in x ys && all_in xs ys

-- `set(d) == {…}`
unfoldable pub has_exactly : List String → Fields → Bool
unfolding keys all_in text_in
has_exactly names fs = all_in (keys fs) names && all_in names (keys fs)
