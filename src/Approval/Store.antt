-- ===== src/Approval/Store.antt =====
-- The tables and operations of `ApprovalStore`. `sha256` is the hexadecimal digest of hashlib; a
-- reading of the clock, in whole microseconds, and the identifier of `uuid4` are arguments.
use owasp_llm_lab_setup_guid.Base.{
  ℕ, ◌+◌, Bool, true, false, not, ◌&&◌, Option, none, some, String, [], ◌∷◌, ◌==◌, Table, lookup,
  append, update, codes, length, is_none, leb, ltb, Result, ok, ◌>>=◌, ◌>>◌, guard, or_raise,
  if◌then◌else◌,
}
use owasp_llm_lab_setup_guid.Json.{
  Json, Fields, null, bool, int, float, not_finite, str, arr, obj, as_str, get, has_exactly,
  canonical,
}
use owasp_llm_lab_setup_guid.Clock.{seconds}

-- An entry of the credentials, by subject.
pub record Credential : Type 0 where
  pub credential_sha256 : String
  pub role : String

-- The column `state`.
pub data State : Type 0 where
  pending approved denied consumed : State

-- A row of approvals; the key is id.
pub record Approval : Type 0 where
  pub requester : String
  pub payload : String
  pub expires : ℕ
  pub state : State
  pub reviewer : Option String

pub record Store : Type 0 where
  pub approvals : Table Approval
  -- The notices of effects, by approval_id.
  pub effects : Table String

abbrev pub empty : Store
empty = record { approvals = []; effects = [] }

-- `ApprovalDenied(reason)`, the errors of a dictionary and those of the database.
pub data Error : Type 0 where
  refused : String → Error
  integrity_error : Error

abbrev pub is_pending : State → Bool
is_pending pending = true
is_pending approved = false
is_pending denied = false
is_pending consumed = false

abbrev pub is_approved : State → Bool
is_approved pending = false
is_approved approved = true
is_approved denied = false
is_approved consumed = false

-- The first subject with the digest and its role.
unfoldable pub find_actor : String → Table Credential → Option (String × String)
find_actor digest [] = none
find_actor digest ((subject, c) ∷ t) =
    let rest = find_actor digest t in
    if digest == c.credential_sha256 then some (subject, c.role) else rest

-- `action["kind"] == "publish_training_notice"`
abbrev is_publication : Option Json → Bool
is_publication none = false
is_publication (some v) = elim (as_str v) [ none ↦ false | some s ↦ s == "publish_training_notice" ]

-- `action["notice"]`, a text of 1 to 120 characters.
unfoldable pub read_notice : Fields → Result Error String
unfolding get
read_notice action = do
  v ← or_raise (get "notice" action) (refused "action-not-allowed")
  notice ← or_raise (as_str v) (refused "invalid-notice")
  guard (leb 1 (length (codes notice)) && leb (length (codes notice)) 120)
      (refused "invalid-notice")
  ok notice

-- `payload`: the text of the action, and its notice.
unfoldable pub payload_of : Fields → Result Error (String × String)
unfolding read_notice has_exactly get canonical
payload_of action = do
  guard (has_exactly ("kind" ∷ "notice" ∷ []) action && is_publication (get "kind" action))
      (refused "action-not-allowed")
  notice ← read_notice action
  text ← or_raise (canonical (obj action)) (refused "action-not-allowed")
  ok (text, notice)

-- `type(approve) is bool`
abbrev pub as_bool : Json → Option Bool
as_bool (bool b) = some b
as_bool null = none
as_bool (int n) = none
as_bool (float n) = none
as_bool not_finite = none
as_bool (str s) = none
as_bool (arr xs) = none
as_bool (obj fs) = none

-- The columns that `review` writes.
abbrev pub reviewed : Bool → String → Approval → Approval
reviewed approve subject r = record r {
  state = if approve then approved else denied;
  reviewer = some subject;
}

module _ (sha256 : String → String) (credentials : Table Credential) where
  -- `actor`
  unfoldable pub actor : String → Result Error (String × String)
  unfolding find_actor
  actor token = or_raise (find_actor (sha256 token) credentials) (refused "authentication-required")

  -- `propose`
  unfoldable pub propose : String → Fields → String → ℕ → Store → Result Error (String × Store)
  unfolding actor payload_of
  propose token action identifier now s = do
    (subject, role) ← actor token
    guard (role == "requester") (refused "requester-role-required")
    (text, notice) ← payload_of action
    guard (is_none (lookup identifier s.approvals)) integrity_error
    ok (
      identifier,
      record s {
        approvals =
            append identifier
              (record {
                requester = subject;
                payload = text;
                expires = now + seconds 300;
                state = pending;
                reviewer = none;
              })
              s.approvals;
      },
    )

  -- `review`
  unfoldable pub review : String → String → Json → ℕ → Store → Result Error (Unit {0} × Store)
  unfolding actor
  review token identifier approve now s = do
    (subject, role) ← actor token
    guard (role == "reviewer") (refused "reviewer-role-required")
    decision ← or_raise (as_bool approve) (refused "reviewer-role-required")
    row ← or_raise (lookup identifier s.approvals) (refused "approval-not-reviewable")
    guard (not (row.requester == subject) && ltb now row.expires && is_pending row.state)
        (refused "approval-not-reviewable")
    ok (tt, record s { approvals = update identifier (reviewed decision subject) s.approvals })

  -- `execute`
  unfoldable pub execute : String → String → Fields → ℕ → Store → Result Error (Unit {0} × Store)
  unfolding actor payload_of
  execute token identifier action now s = do
    (subject, role) ← actor token
    (text, notice) ← payload_of action
    guard (role == "requester") (refused "requester-mismatch")
    row ← or_raise (lookup identifier s.approvals) (refused "requester-mismatch")
    guard (row.requester == subject) (refused "requester-mismatch")
    guard (row.payload == text && ltb now row.expires && is_approved row.state)
        (refused "approval-invalid-expired-or-consumed")
    guard (is_none (lookup identifier s.effects)) integrity_error
    ok (
      tt,
      record {
        approvals = update identifier (λ r. record r { state = consumed }) s.approvals;
        effects = append identifier notice s.effects;
      },
    )

-- `effect_count`
unfoldable pub effect_count : Store → ℕ
effect_count s = length s.effects
