-- ===== src/Actions/Rows.antt =====
-- The tables of the provider, its fixed cases, and the rows of capabilities by their token digest.
use owasp_llm_lab_setup_guid.Base.{
  ℕ, suc, ◌+◌, ◌-◌, Bool, true, false, String, Option, none, some, List, [], ◌∷◌, ◌==◌, Table, leb,
  if◌then◌else◌,
}
use owasp_llm_lab_setup_guid.Json.{Integer, plus, minus}

-- `CaseId`
pub data CaseId : Type 0 where
  balance_read transfer_explicit transfer_prefixed unsupported : CaseId

-- `ActionId`
pub data ActionId : Type 0 where
  get_account_balance transfer_training_funds get_account_balance_and_transfer : ActionId

abbrev pub case_text : CaseId → String
case_text balance_read = "balance-read"
case_text transfer_explicit = "transfer-explicit"
case_text transfer_prefixed = "transfer-prefixed"
case_text unsupported = "unsupported"

abbrev pub action_text : ActionId → String
action_text get_account_balance = "get_account_balance"
action_text transfer_training_funds = "transfer_training_funds"
action_text get_account_balance_and_transfer = "get_account_balance_and_transfer"

-- `CASE_ACTIONS`
abbrev pub case_action : CaseId → Option ActionId
case_action balance_read = some get_account_balance
case_action transfer_explicit = some transfer_training_funds
case_action transfer_prefixed = some get_account_balance_and_transfer
case_action unsupported = none

-- `action_id in WRITE_ACTIONS`
abbrev pub is_write : ActionId → Bool
is_write get_account_balance = false
is_write transfer_training_funds = true
is_write get_account_balance_and_transfer = true

-- `CASE_ORDER`
abbrev pub case_order : List CaseId
case_order = balance_read ∷ transfer_explicit ∷ transfer_prefixed ∷ unsupported ∷ []

abbrev pub starting_balance : Integer
starting_balance = plus 10000

abbrev pub transfer_amount : ℕ
transfer_amount = 100

-- `balance -= TRANSFER_AMOUNT`, where `minus n` is the negative of `n + 1`.
abbrev pub take_amount : Integer → Integer
take_amount (plus n) =
    if leb transfer_amount n then plus (n - transfer_amount) else minus (transfer_amount - suc n)
take_amount (minus n) = minus (n + transfer_amount)

-- A row of suites; the key is suite_id.
pub record Suite : Type 0 where
  pub started_at : String
  pub created_at : ℕ
  pub balance : Integer

pub record Capability : Type 0 where
  pub suite_id : String
  pub execution_id : String
  pub case_id : CaseId
  pub action_id : Option ActionId
  pub token_digest : String
  pub expires_at : ℕ
  pub used_at : Option ℕ

pub record Call : Type 0 where
  pub provider_call_id : String
  pub suite_id : String
  pub execution_id : String
  pub case_id : CaseId
  pub action_id : ActionId
  pub balance_before : Integer
  pub balance_after : Integer
  pub observed_at : ℕ

pub record Effect : Type 0 where
  pub effect_id : String
  pub provider_call_id : String
  pub suite_id : String
  pub execution_id : String
  pub case_id : CaseId
  pub action_id : ActionId
  pub amount : ℕ
  pub observed_at : ℕ

pub record Database : Type 0 where
  pub suites : Table Suite
  pub capabilities : List Capability
  pub calls : List Call
  pub effects : List Effect

abbrev pub empty : Database
empty = record { suites = []; capabilities = []; calls = []; effects = [] }

-- `SELECT * FROM capabilities WHERE token_digest=?`
unfoldable pub find_capability : String → List Capability → Option Capability
find_capability digest [] = none
find_capability digest (c ∷ cs) =
    let rest = find_capability digest cs in if c.token_digest == digest then some c else rest

-- `UPDATE capabilities SET used_at=? WHERE token_digest=?`, of the one row with the digest.
unfoldable pub use_capability : ℕ → String → List Capability → List Capability
use_capability t digest [] = []
use_capability t digest (c ∷ cs) =
    let rest = use_capability t digest cs in
    if c.token_digest == digest then record c { used_at = some t } ∷ cs else c ∷ rest

-- `SELECT … WHERE suite_id=?` of the three tables.
unfoldable pub capabilities_of : String → List Capability → List Capability
capabilities_of id [] = []
capabilities_of id (c ∷ cs) =
    let rest = capabilities_of id cs in if c.suite_id == id then c ∷ rest else rest

unfoldable pub calls_of : String → List Call → List Call
calls_of id [] = []
calls_of id (c ∷ cs) = let rest = calls_of id cs in if c.suite_id == id then c ∷ rest else rest

unfoldable pub effects_of : String → List Effect → List Effect
effects_of id [] = []
effects_of id (e ∷ es) = let rest = effects_of id es in if e.suite_id == id then e ∷ rest else rest
