-- ===== src/Json/Compact.antt =====
-- `json.dumps` with `ensure_ascii=False` and no spaces, in the order of the fields. NaN stands for
-- every value that is not finite.
use Prim.Native.String.{◌++◌}
use owasp_llm_lab_setup_guid.Base.{Bool, true, false, String, if◌then◌else◌}
use owasp_llm_lab_setup_guid.Json.Values.{
  Json, Items, Fields, null, bool, int, float, not_finite, str, arr, obj, nil, cons, end, field,
}
use owasp_llm_lab_setup_guid.Json.Print.{integer_text, signed_float_text, quoted}

unfoldable mutual
  unfolding integer_text signed_float_text quoted

  pub compact : Json → String
  compact null = "null"
  compact (bool true) = "true"
  compact (bool false) = "false"
  compact (int n) = integer_text n
  compact (float n) = signed_float_text n
  compact not_finite = "NaN"
  compact (str s) = quoted s
  compact (arr xs) = "[" ++ compact_items true xs
  compact (obj fs) = "{" ++ compact_fields true fs

  compact_items : Bool → Items → String
  compact_items first nil = "]"
  compact_items first (cons v vs) =
      (if first then "" else ",") ++ compact v ++ compact_items false vs

  compact_fields : Bool → Fields → String
  compact_fields first end = "}"
  compact_fields first (field k v fs) =
      (if first then "" else ",") ++ quoted k ++ ":" ++ compact v ++ compact_fields false fs
