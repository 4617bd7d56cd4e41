-- ===== src/Json.antt =====
-- The values of `json` documents, and their canonical text: `canonical` of
-- llm-security-control-plane/guided-bedrock-gateway/p04_contract.py, which is
-- `json.dumps(value, sort_keys=True, ensure_ascii=False, allow_nan=False)`.
-- A finite float is a whole number of millionths, and is printed without an exponent. A text has
-- no lone surrogates.
mod Values
mod Compact
mod Print
mod Tests
pub use Values.{
  Integer, plus, minus, Json, Items, Fields, null, bool, int, float, not_finite, str, arr, obj, nil,
  cons, end, field, as_str, as_dict, as_list, as_micros,
}
unfoldable pub use Values.{get, keys, to_list, has_exactly}
unfoldable pub use Print.{canonical, sorted, dumps}
unfoldable pub use Compact.{compact}
