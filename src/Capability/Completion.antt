-- ===== src/Capability/Completion.antt =====
-- `complete` of `CapabilityStore`: the tests of the provider's evidence, and its record.
use owasp_llm_lab_setup_guid.Base.{
  ℕ, ◌+◌, Bool, true, false, ◌&&◌, not, ◌||◌, Option, none, some, String, len, ◌==◌, List, [], ◌∷◌,
  ok, err, guard, or_raise, ◌>>=◌, ◌>>◌, leb, nat_eq, if◌then◌else◌, is_none, lookup, append,
  update, exists, text_in, codes, length, is_sha256_hex,
}
use owasp_llm_lab_setup_guid.Json.{
  Json, Fields, plus, null, bool, int, str, obj, arr, end, field, as_str, as_dict, get, has_exactly,
}
use owasp_llm_lab_setup_guid.Clock.{Checked, refused, type_error}
use owasp_llm_lab_setup_guid.Capability.Rows.{completed, Store}
use owasp_llm_lab_setup_guid.Capability.Operations.{model_id, is_reserved}

-- `type(v) is int` for a value that is not negative.
abbrev pub as_count : Json → Option ℕ
as_count (int (plus n)) = some n
as_count v = none

-- `d.get(k)` with None for a key that is missing.
abbrev pub get_value : String → Fields → Json
get_value k fs = elim (get k fs) [ none ↦ null | some v ↦ v ]

-- `v in {…}` for a set of texts: a list or a dictionary cannot be hashed.
unfoldable pub one_of : List String → Json → Checked (Option String)
unfolding text_in
one_of names (str s) = ok (if text_in s names then some s else none)
one_of names (arr xs) = err type_error
one_of names (obj fs) = err type_error
one_of names v = ok none

pub record Usage : Type 0 where
  pub input : ℕ
  pub output : ℕ
  pub total : ℕ

unfoldable pub read_usage : Json → Checked Usage
read_usage v = do
  fs ← or_raise (as_dict v) (refused 502)
  input ← or_raise (as_count (get_value "inputTokens" fs)) (refused 502)
  output ← or_raise (as_count (get_value "outputTokens" fs)) (refused 502)
  total ← or_raise (as_count (get_value "totalTokens" fs)) (refused 502)
  guard (nat_eq total (input + output)) (refused 502)
  ok (record { input = input; output = output; total = total })

-- What the first test of `complete` leaves.
pub record Reply : Type 0 where
  pub request_id : String
  pub text : String
  pub usage : Usage
  pub stop_reason : String

unfoldable pub read_reply : Fields → Checked Reply
unfolding read_usage one_of
read_reply provider = do
  request_id ← or_raise (as_str (get_value "provider_request_id" provider)) (refused 502)
  guard (leb 1 (length (codes request_id)) && leb (length (codes request_id)) 256) (refused 502)
  text ← or_raise (as_str (get_value "text" provider)) (refused 502)
  guard (leb 1 (length (codes text)) && leb (length (codes text)) 32000) (refused 502)
  usage ← read_usage (get_value "usage" provider)
  reason ←
      one_of ("end_turn" ∷ "max_tokens" ∷ "stop_sequence" ∷ []) (get_value "stop_reason" provider)
  stop_reason ← or_raise reason (refused 502)
  ok (record { request_id = request_id; text = text; usage = usage; stop_reason = stop_reason })

-- `type(binding.get("schema_valid")) is bool`
abbrev as_bool : Json → Option Bool
as_bool (bool b) = some b
as_bool v = none

abbrev binding_keys : Bool → List String
binding_keys false = "schema_valid" ∷ "prompt_digest" ∷ []
binding_keys true =
    "schema_valid" ∷ "prompt_digest" ∷ "question_digest" ∷ "context_digest" ∷ "question_bytes"
    ∷ "context_bytes" ∷ []

-- The names of `binding_keys` that end in `_digest`, and those that end in `_bytes`.
abbrev digest_keys : List String
digest_keys = "prompt_digest" ∷ "question_digest" ∷ "context_digest" ∷ []

abbrev bytes_keys : List String
bytes_keys = "question_bytes" ∷ "context_bytes" ∷ []

abbrev is_digest : Json → Bool
is_digest v = elim (as_str v) [ none ↦ false | some s ↦ is_sha256_hex s ]

abbrev is_size : Json → Bool
is_size v = elim (as_count v) [ none ↦ false | some n ↦ leb 1 n && leb n 64000 ]

unfoldable pub fields_fit : Fields → Bool
unfolding text_in
fields_fit end = true
fields_fit (field k v fs) =
    (not (text_in k digest_keys) || is_digest v)
    && (not (text_in k bytes_keys) || is_size v)
    && fields_fit fs

-- The tests of `provider.get("main_input")`.
unfoldable pub checked_main_input : Json → Checked Json
unfolding fields_fit
checked_main_input null = ok null
checked_main_input binding = do
  fs ← or_raise (as_dict binding) (refused 502)
  valid ← or_raise (as_bool (get_value "schema_valid" fs)) (refused 502)
  guard (has_exactly (binding_keys valid) fs) (refused 502)
  guard (fields_fit fs) (refused 502)
  ok binding

-- The last fields of the evidence: a classifier's answer, or the input of the main model.
unfoldable pub role_evidence : String → String → Fields → Checked Fields
unfolding checked_main_input
role_evidence role text provider =
    if role == "main"
    then (do
      binding ← checked_main_input (get_value "main_input" provider)
      ok (field "main_input" binding end))
    else ok (
        let answers = text_in text ("Yes" ∷ "No" ∷ []) in
        field "classifier_schema_valid" (bool answers)
          (field "classifier_answer" (if answers then str text else null) end))

module _ (sha256 : String → String) where
  evidence_of : Reply → Fields → Json
  evidence_of r more = obj (
      field "provider_request_id" (str r.request_id) (
        field "actual_model_id" (str model_id) (
          field "response_digest" (str (sha256 r.text)) (
            field "response_bytes" (int (plus (len r.text))) (
              field "usage"
                (obj (
                  field "inputTokens" (int (plus r.usage.input)) (
                    field "outputTokens" (int (plus r.usage.output))
                      (field "totalTokens" (int (plus r.usage.total)) end))))
                (field "stop_reason" (str r.stop_reason) more))))))

  -- `complete`; the value that is stored is the evidence before `json.dumps`.
  unfoldable pub complete : String → Fields → ℕ → Store → Checked (Json × Store)
  unfolding read_reply role_evidence evidence_of
  complete token provider current s = do
    r ← read_reply provider
    g ← or_raise (lookup (sha256 token) s.grants) (refused 409)
    guard (is_reserved g.state) (refused 409)
    more ← role_evidence g.role r.text provider
    guard (is_none (lookup r.request_id s.provider_ids)) (refused 409)
    guard (not (exists (λ d. d == sha256 token) s.provider_ids)) (refused 409)
    ok (
      evidence_of r more,
      record s {
        provider_ids = append r.request_id (sha256 token) s.provider_ids;
        grants =
            update (sha256 token)
              (λ row. record row {
                state = completed;
                finished = some current;
                evidence = some (evidence_of r more);
              })
              s.grants;
      },
    )
