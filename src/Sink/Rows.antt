-- ===== src/Sink/Rows.antt =====
-- The tables of the sink, and its fixed cases.
use owasp_llm_lab_setup_guid.Base.{
  ℕ, Bool, true, false, ◌&&◌, ◌||◌, String, Option, none, some, List, [], ◌∷◌, ◌==◌, Table, nat_eq,
  if◌then◌else◌,
}

-- `CaseId`
pub data CaseId : Type 0 where
  clean input_email input_kr_rrn output_email : CaseId

abbrev pub case_text : CaseId → String
case_text clean = "clean"
case_text input_email = "input-email"
case_text input_kr_rrn = "input-kr-rrn"
case_text output_email = "output-email"

-- `CASE_ORDER`
abbrev pub case_order : List CaseId
case_order = clean ∷ input_email ∷ input_kr_rrn ∷ output_email ∷ []

-- `case_id in CASE_ORDER`
abbrev pub as_case : String → Option CaseId
as_case s =
    if s == "clean"
    then some clean
    else if s == "input-email"
    then some input_email
    else if s == "input-kr-rrn"
    then some input_kr_rrn
    else if s == "output-email"
    then some output_email
    else none

-- `CASE_ORDER[:CASE_ORDER.index(case_id)]`
abbrev pub earlier : CaseId → List CaseId
earlier clean = []
earlier input_email = clean ∷ []
earlier input_kr_rrn = clean ∷ input_email ∷ []
earlier output_email = clean ∷ input_email ∷ input_kr_rrn ∷ []

-- `RAW_MARKERS`
abbrev pub raw_marker : CaseId → Option String
raw_marker clean = none
raw_marker input_email = some "learner@example.com"
raw_marker input_kr_rrn = some "900101-1234568"
raw_marker output_email = some "security-team@example.com"

unfoldable pub is_prefix : List ℕ → List ℕ → Bool
is_prefix [] ys = true
is_prefix (x ∷ xs) [] = false
is_prefix (x ∷ xs) (y ∷ ys) = nat_eq x y && is_prefix xs ys

-- `part in text`, over code points.
unfoldable pub contains : List ℕ → List ℕ → Bool
unfolding is_prefix
contains xs [] = is_prefix xs []
contains xs (y ∷ ys) = is_prefix xs (y ∷ ys) || contains xs ys

-- A suite; the key is suite_id.
pub record Suite : Type 0 where
  pub started_at : String
  pub created_at : ℕ
  pub closed_at : Option ℕ

pub data Status : Type 0 where
  issued completed closed_unused : Status

abbrev pub is_issued : Status → Bool
is_issued issued = true
is_issued completed = false
is_issued closed_unused = false

pub record Capability : Type 0 where
  pub capability_digest : String
  pub suite_id : String
  pub execution_id : String
  pub case_id : CaseId
  pub nonce : String
  pub issued_at : ℕ
  pub expires_at : ℕ
  pub status : Status
  pub consumed_at : Option ℕ

pub record Delivery : Type 0 where
  pub delivery_id : String
  pub capability_digest : String
  pub suite_id : String
  pub execution_id : String
  pub case_id : CaseId
  pub delivered_digest : String
  pub delivered_bytes : ℕ
  pub raw_marker_observed : Bool
  pub observed_at : ℕ

-- A row of case_closures.
pub record Closure : Type 0 where
  pub suite_id : String
  pub case_id : CaseId
  pub closed_at : ℕ

pub record Database : Type 0 where
  pub suites : Table Suite
  pub capabilities : List Capability
  pub deliveries : List Delivery
  pub case_closures : List Closure

abbrev pub empty : Database
empty = record { suites = []; capabilities = []; deliveries = []; case_closures = [] }

-- Rows of a suite and a case.
abbrev pub same_case : CaseId → CaseId → Bool
same_case a b = case_text a == case_text b

abbrev pub is_closure : String → CaseId → Closure → Bool
is_closure suite_id case_id c = c.suite_id == suite_id && same_case c.case_id case_id

abbrev pub in_case : String → CaseId → Capability → Bool
in_case suite_id case_id c = c.suite_id == suite_id && same_case c.case_id case_id
