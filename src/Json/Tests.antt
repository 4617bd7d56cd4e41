-- ===== src/Json/Tests.antt =====
-- Documents and their canonical texts.
use owasp_llm_lab_setup_guid.Base.{true, some, none, ◌≡◌, refl}
use owasp_llm_lab_setup_guid.Json.Values.{
  plus, minus, Json, null, bool, int, float, not_finite, str, arr, obj, nil, cons, end, field,
}
use owasp_llm_lab_setup_guid.Json.Print.{canonical}

abbrev document : Json
document = obj (
    field "b" (arr (cons (int (minus 4)) (cons (float (plus 1500000)) (cons (float (plus 0)) nil))))
      (field "a" (obj (field "q\"x" (str "한\n") (field "k" null end))) (field "c" (bool true) end)))

canonical-document :
    canonical document
    ≡ some "{\"a\": {\"k\": null, \"q\\\"x\": \"한\\n\"}, \"b\": [-5, 1.5, 0.0], \"c\": true}"
unfolding canonical
canonical-document = refl

canonical-not_finite : canonical (arr (cons not_finite nil)) ≡ none
unfolding canonical
canonical-not_finite = refl
