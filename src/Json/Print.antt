-- ===== src/Json/Print.antt =====
-- `json.dumps` with sorted keys.
use Prim.Native.Char.{code}
use Prim.Native.String.{◌++◌, compare}
use text.Mathlib.Text.{is_lt}
use owasp_llm_lab_setup_guid.Base.{
  ℕ, zero, suc, ◌/◌, ◌%◌, Bool, true, false, Option, none, some, String, nat_eq, ltb, if◌then◌else◌,
}
use owasp_llm_lab_setup_guid.Json.Values.{
  Integer, plus, minus, Json, Items, Fields, null, bool, int, float, not_finite, str, arr, obj, nil,
  cons, end, field,
}

hex_digit : ℕ → String
hex_digit d =
    if nat_eq d 0
    then "0"
    else if nat_eq d 1
    then "1"
    else if nat_eq d 2
    then "2"
    else if nat_eq d 3
    then "3"
    else if nat_eq d 4
    then "4"
    else if nat_eq d 5
    then "5"
    else if nat_eq d 6
    then "6"
    else if nat_eq d 7
    then "7"
    else if nat_eq d 8
    then "8"
    else if nat_eq d 9
    then "9"
    else if nat_eq d 10
    then "a"
    else if nat_eq d 11
    then "b"
    else if nat_eq d 12
    then "c"
    else if nat_eq d 13
    then "d"
    else if nat_eq d 14
    then "e"
    else "f"

-- The decimal digits of `n` before `rest`. A number is at least its count of digits less one, so
-- `n + 1` rounds are enough.
decimal_from : ℕ → ℕ → String → String
unfolding hex_digit
decimal_from zero n rest = rest
decimal_from (suc fuel) n rest =
    let more = decimal_from fuel (n / 10) (hex_digit (n % 10) ++ rest) in
    if ltb n 10 then hex_digit n ++ rest else more

decimal : ℕ → String
unfolding decimal_from
decimal n = decimal_from (suc n) n ""

-- The last `width` digits of `n`, with leading zeros.
padded : ℕ → ℕ → String
unfolding hex_digit
padded zero n = ""
padded (suc width) n = padded width (n / 10) ++ hex_digit (n % 10)

-- The same, with no zeros at the end but a first one.
fraction : ℕ → ℕ → String
unfolding padded
fraction zero n = ""
fraction (suc width) n =
    let shorter = if nat_eq width 0 then "0" else fraction width (n / 10) in
    if nat_eq (n % 10) 0 then shorter else padded (suc width) n

float_text : ℕ → String
unfolding decimal fraction
float_text n = decimal (n / 1000000) ++ "." ++ fraction 6 (n % 1000000)

unfoldable pub integer_text : Integer → String
unfolding decimal
integer_text (plus n) = decimal n
integer_text (minus n) = "-" ++ decimal (suc n)

unfoldable pub signed_float_text : Integer → String
unfolding float_text
signed_float_text (plus n) = float_text n
signed_float_text (minus n) = "-" ++ float_text (suc n)

-- The escapes of `ensure_ascii=False`: quotes, backslashes and control characters.
escape : String → String
unfolding hex_digit
escape String.[] = ""
escape (String.◌∷◌ c s) =
    let rest = escape s in
    let n = code c in
    if nat_eq n 0x22
    then "\\\"" ++ rest
    else if nat_eq n 0x5c
    then "\\\\" ++ rest
    else if nat_eq n 10
    then "\\n" ++ rest
    else if nat_eq n 13
    then "\\r" ++ rest
    else if nat_eq n 9
    then "\\t" ++ rest
    else if nat_eq n 8
    then "\\b" ++ rest
    else if nat_eq n 12
    then "\\f" ++ rest
    else if ltb n 32
    then "\\u00" ++ hex_digit (n / 16) ++ hex_digit (n % 16) ++ rest
    else String.◌∷◌ c rest

-- A key and its value in their place among sorted fields.
insert_field : String → Json → Fields → Fields
insert_field k v end = field k v end
insert_field k v (field j w fs) =
    let rest = insert_field k v fs in
    if is_lt (compare j k) then field j w rest else field k v (field j w fs)

unfoldable pub quoted : String → String
unfolding escape
quoted s = "\"" ++ escape s ++ "\""

join : Option String → String → Option String → Option String
join (some a) between (some b) = some (a ++ between ++ b)
join (some a) between none = none
join none between b = none

-- The values with the fields of every dictionary sorted.
unfoldable mutual
  unfolding insert_field

  pub sorted : Json → Json
  sorted (obj fs) = obj (sorted_fields fs)
  sorted (arr xs) = arr (sorted_items xs)
  sorted null = null
  sorted (bool b) = bool b
  sorted (int n) = int n
  sorted (float n) = float n
  sorted not_finite = not_finite
  sorted (str s) = str s

  sorted_items : Items → Items
  sorted_items nil = nil
  sorted_items (cons v vs) = cons (sorted v) (sorted_items vs)

  sorted_fields : Fields → Fields
  sorted_fields end = end
  sorted_fields (field k v fs) = insert_field k (sorted v) (sorted_fields fs)

-- `none` is the `ValueError` of NaN and the infinities.
mutual
  unfolding integer_text signed_float_text quoted join

  print : Json → Option String
  print null = some "null"
  print (bool true) = some "true"
  print (bool false) = some "false"
  print (int n) = some (integer_text n)
  print (float n) = some (signed_float_text n)
  print not_finite = none
  print (str s) = some (quoted s)
  print (arr xs) = join (some "[") "" (print_items true xs)
  print (obj fs) = join (some "{") "" (print_fields true fs)

  print_items : Bool → Items → Option String
  print_items first nil = some "]"
  print_items first (cons v vs) =
      join (join (some (if first then "" else ", ")) "" (print v)) "" (print_items false vs)

  print_fields : Bool → Fields → Option String
  print_fields first end = some "}"
  print_fields first (field k v fs) =
      join (join (some ((if first then "" else ", ") ++ quoted k)) ": " (print v)) ""
        (print_fields false fs)

unfoldable pub canonical : Json → Option String
unfolding sorted print
canonical v = print (sorted v)

-- The same with the fields in their order.
unfoldable pub dumps : Json → Option String
unfolding print
dumps v = print v
