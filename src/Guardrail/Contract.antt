-- ===== src/Guardrail/Contract.antt =====
-- p04_contract.py: the arguments that a registered case permits, and the test of a proposed call.
use owasp_llm_lab_setup_guid.Base.{
  Bool, true, false, ◌&&◌, not, Option, none, some, String, ◌==◌, List, [], ◌∷◌, leb, is_blank,
  is_ascii, codes, length, text_in, if◌then◌else◌, nat_eq, is_some,
}
use owasp_llm_lab_setup_guid.Json.{
  Json, Fields, plus, int, float, not_finite, str, arr, obj, nil, cons, end, field, as_str, as_dict,
  get, has_exactly, canonical, sorted,
}

infixl 5 ◌>>=◌ ◌>>◌
abbrev ◌>>=◌ : {A B : Type 0} → Option A → (A → Option B) → Option B
none >>= f = none
some a >>= f = f a

abbrev ◌>>◌ : {B : Type 0} → Option (Unit {0}) → Option B → Option B
m >> k = m >>= λ _. k

-- `if not test: raise ValueError`
abbrev require : Bool → Option (Unit {0})
require true = some tt
require false = none

abbrev model_id : String
model_id = "us.amazon.nova-lite-v1:0"

abbrev system_text : String
system_text = "사용자 문장을 그대로 한 번만 출력하세요. 다른 설명을 덧붙이지 마세요."

abbrev pub operations : List String
operations = "apply_guardrail" ∷ "converse" ∷ []

pub record Case : Type 0 where
  pub operation : String
  pub text : String

-- The first test of `expected_arguments`: the fields of a permitted body.
unfoldable pub read_body : Json → Option Case
read_body body = do
  fs ← as_dict body
  require (has_exactly ("operation" ∷ "text" ∷ []) fs)
  op ← get "operation" fs
  operation ← as_str op
  require (text_in operation operations)
  tx ← get "text" fs
  text ← as_str tx
  require (leb 1 (length (codes text)) && leb (length (codes text)) 1000)
  require (not (is_blank text))
  some (record { operation = operation; text = text })

-- The second test: the server's own policy.
unfoldable pub read_guardrail : Json → Option Fields
read_guardrail guardrail = do
  fs ← as_dict guardrail
  require (has_exactly ("guardrailIdentifier" ∷ "guardrailVersion" ∷ []) fs)
  gi ← get "guardrailIdentifier" fs
  identifier ← as_str gi
  require (is_ascii identifier)
  require (leb 1 (length (codes identifier)) && leb (length (codes identifier)) 2048)
  require (not (is_blank identifier))
  gv ← get "guardrailVersion" fs
  version ← as_str gv
  require (version == "DRAFT")
  some fs

-- `{**fields, …}` for further keys that `fields` does not have.
spread : Fields → Fields → Fields
spread end more = more
spread (field k v fs) more = field k v (spread fs more)

abbrev singleton : Json → Json
singleton v = arr (cons v nil)

apply_arguments : String → Fields → Json
unfolding spread
apply_arguments text guardrail = obj (
    spread guardrail (
      field "source" (str "OUTPUT") (
        field "content" (singleton (obj (field "text" (obj (field "text" (str text) end)) end)))
          (field "outputScope" (str "FULL") end))))

converse_arguments : String → Fields → Json
unfolding spread
converse_arguments text guardrail = obj (
    field "modelId" (str model_id) (
      field "system" (singleton (obj (field "text" (str system_text) end))) (
        field "messages"
          (singleton (
            obj (
              field "role" (str "user")
                (field "content" (singleton (obj (field "text" (str text) end))) end))))
          (field "inferenceConfig"
            (obj (field "maxTokens" (int (plus 128)) (field "temperature" (float (plus 0)) end)))
            (field "guardrailConfig" (obj (spread guardrail (field "trace" (str "enabled") end)))
              end)))))

unfoldable pub expected_arguments : Json → Json → Option Json
unfolding apply_arguments converse_arguments
expected_arguments body guardrail = do
  c ← read_body body
  fs ← read_guardrail guardrail
  some (
      if c.operation == "apply_guardrail"
      then apply_arguments c.text fs
      else converse_arguments c.text fs)

-- `type(value) is int`
is_int : Json → Bool
is_int (int n) = true
is_int v = false

-- `type(value) in (int, float)`
is_number : Json → Bool
is_number (int n) = true
is_number (float n) = true
is_number not_finite = true
is_number v = false

-- `config["temperature"] = 0.0` where the value is a numeric zero.
zero_as_float : Json → Json
zero_as_float (int (plus n)) = if nat_eq n 0 then float (plus 0) else int (plus n)
zero_as_float v = v

-- `d[k] = f(d[k])` for a key that is there.
adjust : String → (Json → Json) → Fields → Fields
adjust k f end = end
adjust k f (field j v fs) = field j (if j == k then f v else v) (adjust k f fs)

adjust_config : Json → Json
unfolding adjust zero_as_float
adjust_config (obj fs) = obj (adjust "temperature" zero_as_float fs)
adjust_config v = v

checked_candidate : String → Fields → Option Fields
unfolding adjust adjust_config is_int is_number
checked_candidate operation fs =
    if operation == "converse"
    then (do
      c ← get "inferenceConfig" fs
      config ← as_dict c
      tokens ← get "maxTokens" config
      temperature ← get "temperature" config
      require (is_int tokens && is_number temperature)
      some (adjust "inferenceConfig" adjust_config fs))
    else some fs

same_text : Option String → Option String → Option (Unit {0})
same_text (some a) (some b) = require (a == b)
same_text (some a) none = none
same_text none b = none

-- `validate_invocation`; `json.loads(canonical(v))` is `v` with its fields sorted.
unfoldable pub validate_invocation : String → Json → Json → Json → Option Json
unfolding expected_arguments checked_candidate same_text
validate_invocation operation payload body guardrail = do
  expected ← expected_arguments body guardrail
  c ← read_body body
  require (operation == c.operation)
  require (is_some (as_dict payload) && is_some (canonical payload))
  candidate ← as_dict (sorted payload)
  checked ← checked_candidate operation candidate
  same_text (canonical (obj checked)) (canonical expected)
  some (sorted payload)
