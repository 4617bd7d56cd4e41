-- ===== src/Capability/Invariant.antt =====
-- The well-formed stores of P12: each grant belongs to a suite, has the columns of its state and a
-- lifetime of 180 seconds, and none can still be used in a closed suite.
use owasp_llm_lab_setup_guid.Base.{
  ℕ, ◌+◌, ◌≤◌, ◌<◌, ◌≡◌, Bool, true, false, Option, none, some, String, Table, lookup,
}
use owasp_llm_lab_setup_guid.Clock.{window}
use owasp_llm_lab_setup_guid.Json.{Json}
use owasp_llm_lab_setup_guid.Capability.Operations.{is_issued}
use owasp_llm_lab_setup_guid.Capability.Rows.{
  State, issued, reserved, completed, error, closed_unused, Suite, Grant, Store,
}

-- The time of a reservation lies in the lifetime of the grant.
abbrev pub ReservedFits : Grant → Type 0
ReservedFits g = (t : ℕ) × (g.reserved_at ≡ some t) × (g.issued_at ≤ t) × (t < g.expires)

abbrev pub StateFits : State → Grant → Type 0
StateFits issued g = (g.reserved_at ≡ none) × (g.finished ≡ none) × (g.evidence ≡ none)
StateFits reserved g = ReservedFits g × (g.finished ≡ none) × (g.evidence ≡ none)
StateFits completed g =
    ReservedFits g × ((t : ℕ) × (g.finished ≡ some t)) × ((v : Json) × (g.evidence ≡ some v))
StateFits error g = ReservedFits g × ((t : ℕ) × (g.finished ≡ some t)) × (g.evidence ≡ none)
StateFits closed_unused g = (g.reserved_at ≡ none) × (g.finished ≡ none) × (g.evidence ≡ none)

-- Whether a grant can still be used or is in use.
abbrev pub is_live : State → Bool
is_live issued = true
is_live reserved = true
is_live completed = false
is_live error = false
is_live closed_unused = false

abbrev pub SuiteFits : Option Suite → Grant → Type 0
SuiteFits none g = ⊥
SuiteFits (some s) g = elim s.closed [ none ↦ Unit | some t ↦ is_live g.state ≡ false ]

pub record GrantFits (suites : Table Suite) (g : Grant) : Type 0 where
  pub lifetime : g.expires ≡ g.issued_at + window
  pub columns : StateFits g.state g
  pub suite : SuiteFits (lookup g.suite_id suites) g

pub record IsValid (s : Store) : Type 0 where
  pub grants : (k : String) (g : Grant) → lookup k s.grants ≡ some g → GrantFits s.suites g

-- What a grant keeps through every step: its scope, its lifetime, and that it was used.
pub record Later (g h : Grant) : Type 0 where
  pub suite_id : h.suite_id ≡ g.suite_id
  pub execution_id : h.execution_id ≡ g.execution_id
  pub role : h.role ≡ g.role
  pub model : h.model ≡ g.model
  pub expires : h.expires ≡ g.expires
  pub spent : is_issued g.state ≡ false → is_issued h.state ≡ false
  pub final : is_live g.state ≡ false → h ≡ g

pub record Step (s s' : Store) : Type 0 where
  pub grants :
      (k : String) (g : Grant)
      → lookup k s.grants ≡ some g
      → (h : Grant) × (lookup k s'.grants ≡ some h) × Later g h
  pub closed :
      (k : String) (x : Suite) (t : ℕ)
      → lookup k s.suites ≡ some x
      → x.closed ≡ some t
      → lookup k s'.suites ≡ some x
