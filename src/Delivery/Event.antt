-- ===== src/Delivery/Event.antt =====
-- The event that `enqueue` of `AuditDelivery` makes of a payload, and which of its fields leave the
-- gateway. `hmac` is the keyed digest of `hmac` and `hashlib`, `text_of` is `str`.
use owasp_llm_lab_setup_guid.Base.{
  ◌≡◌, refl, Bool, true, ◌||◌, Bool-cases, some, none, String, List, [], ◌∷◌, ◌==◌, text_in, all,
  is_some, if◌then◌else◌, arith, Option-cases, inl, inr,
}
use owasp_llm_lab_setup_guid.Json.{
  Json, Fields, null, bool, int, float, not_finite, str, arr, obj, end, field, get, keys,
}

-- `FIELDS`
unfoldable pub allowed_fields : List String
allowed_fields =
    "user_id" ∷ "attempted_user_id" ∷ "client_ip" ∷ "client_ip_source" ∷ "http_method" ∷ "http_path"
    ∷ "event" ∷ "engine" ∷ "direction" ∷ "decision" ∷ "blocking_reason" ∷ "request_id" ∷ "trace_id"
    ∷ "guard_mode" ∷ "guard_model_calls" ∷ "upstream_called" ∷ "duration_ms" ∷ "entity_types"
    ∷ "stage_name" ∷ "stage_order" ∷ "policy_bundle_version" ∷ "assurance_profile"
    ∷ "classification" ∷ "subject_hash" ∷ "auth_action" ∷ "http_status" ∷ "source_service"
    ∷ "source_version" ∷ "occurred_at_ns" ∷ "input_hmac_sha256" ∷ "main_stop_reason" ∷ "model_id"
    ∷ "roles" ∷ "token_hash" ∷ "client_ip_hash" ∷ "application_stages" ∷ "application_policy_id"
    ∷ "retrieval_called" ∷ []

-- `{key: value for key, value in payload.items() if key in names}`
unfoldable pub keep_fields : List String → Fields → Fields
keep_fields names end = end
keep_fields names (field k v fs) =
    let rest = keep_fields names fs in if text_in k names then field k v rest else rest

-- `d[key] = value`
unfoldable pub set_field : String → Json → Fields → Fields
set_field k v end = field k v end
set_field k v (field j w fs) =
    let rest = set_field k v fs in if j == k then field j v fs else field j w rest

-- `d.setdefault(key, value)`
unfoldable pub set_default : String → Json → Fields → Fields
unfolding set_field get
set_default k v fs = if is_some (get k fs) then fs else set_field k v fs

unfoldable pub is_allowed : List String → String → Bool
unfolding text_in
is_allowed names k = k == "event_id" || text_in k names

module _ (hmac : String → String) (text_of : Json → String) where
  -- `identity`
  unfoldable pub identity : Json → Json
  identity null = null
  identity (bool b) = str (hmac (text_of (bool b)))
  identity (int n) = str (hmac (text_of (int n)))
  identity (float n) = str (hmac (text_of (float n)))
  identity not_finite = str (hmac (text_of not_finite))
  identity (str s) = str (hmac (text_of (str s)))
  identity (arr xs) = str (hmac (text_of (arr xs)))
  identity (obj fs) = str (hmac (text_of (obj fs)))

  -- `if source in payload: event[target] = self.identity(payload[source])`
  unfoldable pub set_identity : String → String → Fields → Fields → Fields
  unfolding set_field identity get
  set_identity source target payload event = elim (get source payload) [
    | none ↦ event
    | some v ↦ set_field target (identity v) event
  ]

  -- The event of `enqueue`; `now_ns` is `str(time.time_ns())`.
  unfoldable pub event_of : Fields → String → String → Fields
  unfolding keep_fields set_field set_default set_identity allowed_fields
  event_of payload event_id now_ns = set_identity "client_ip" "client_ip_hash" payload (
      set_identity "subject" "subject_hash" payload (
        set_default "occurred_at_ns" (str now_ns)
          (set_field "event_id" (str event_id) (keep_fields allowed_fields payload))))

-- The keys of an event are among `names`, but for its identifier.
unfoldable pub Allowed : List String → Fields → Type 0
unfolding all keys is_allowed
Allowed names fs = all (is_allowed names) (keys fs) ≡ true

keep_fields-Allowed : (names : List String) (fs : Fields) → Allowed names (keep_fields names fs)
unfolding keep_fields all keys is_allowed Allowed
keep_fields-Allowed names end = refl
keep_fields-Allowed names (field k v fs) = ground (arith, keep_fields-Allowed names fs)

set_field-Allowed :
    (names : List String) (k : String) (v : Json) (fs : Fields)
    → is_allowed names k ≡ true
    → Allowed names fs
    → Allowed names (set_field k v fs)
unfolding set_field all keys Allowed
set_field-Allowed names k v end h a = ground arith
set_field-Allowed names k v (field j w fs) h a = ground (arith, set_field-Allowed names k v fs h)

set_default-Allowed :
    (names : List String) (k : String) (v : Json) (fs : Fields)
    → is_allowed names k ≡ true
    → Allowed names fs
    → Allowed names (set_default k v fs)
unfolding set_default
set_default-Allowed names k v fs h a = elim (Bool-cases (is_some (get k fs))) [
  | inl present ↦ rw (present, set_default) a
  | inr missing ↦ rw (missing, set_default) (set_field-Allowed names k v fs h a)
]

module _ (hmac : String → String) (text_of : Json → String) where
  set_identity-Allowed :
      (names : List String) (source target : String) (payload event : Fields)
      → is_allowed names target ≡ true
      → Allowed names event
      → Allowed names (set_identity hmac text_of source target payload event)
  unfolding set_identity
  set_identity-Allowed names source target payload event h a =
      elim (Option-cases (get source payload)) [
        | inl missing ↦ rw (missing, set_identity) a
        | inr (v, found) ↦
            rw (found, set_identity)
              (set_field-Allowed names target (identity hmac text_of v) event h a)
      ]

  -- No field of the payload outside `FIELDS` is in the event.
  pub event_of-Allowed :
      (payload : Fields) (event_id now_ns : String)
      → Allowed allowed_fields (event_of hmac text_of payload event_id now_ns)
  unfolding event_of is_allowed allowed_fields text_in
  event_of-Allowed payload event_id now_ns =
      set_identity-Allowed allowed_fields "client_ip" "client_ip_hash" payload _ refl (
        set_identity-Allowed allowed_fields "subject" "subject_hash" payload _ refl (
          set_default-Allowed allowed_fields "occurred_at_ns" (str now_ns) _ refl (
            set_field-Allowed allowed_fields "event_id" (str event_id) _ refl
              (keep_fields-Allowed allowed_fields payload))))
