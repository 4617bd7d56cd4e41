-- ===== src/Quota/Policy.antt =====
-- The policy document of `GatewayOperations` and its tests, `_validate`. Every exception of the
-- constructor is `none`.
use owasp_llm_lab_setup_guid.Base.{
  ℕ, zero, suc, Bool, true, false, not, ◌&&◌, Option, none, some, String, List, [], ◌∷◌, Table,
  text_in, codes, length, is_sha256_hex, leb,
}
use owasp_llm_lab_setup_guid.Json.{
  plus, minus, Json, Items, Fields, null, bool, int, float, not_finite, str, arr, obj, nil, cons,
  end, field, as_str, as_dict, as_list, get,
}

-- An entry of `clients`.
pub record Client : Type 0 where
  pub credential_sha256 : String
  pub models : List String
  pub requests : ℕ
  pub output_tokens : ℕ
  pub max_output_tokens : ℕ
  pub max_input_bytes : ℕ

pub record Policy : Type 0 where
  pub clients : Table Client
  pub period : ℕ

infixl 5 ◌>>=◌ ◌>>◌
abbrev ◌>>=◌ : {A B : Type 0} → Option A → (A → Option B) → Option B
none >>= f = none
some a >>= f = f a

abbrev ◌>>◌ : {B : Type 0} → Option (Unit {0}) → Option B → Option B
m >> k = m >>= λ _. k

abbrev require : Bool → Option (Unit {0})
require true = some tt
require false = none

-- `type(value) is int and value >= 1`
abbrev pub as_positive : Json → Option ℕ
as_positive (int (plus zero)) = none
as_positive (int (plus (suc n))) = some (suc n)
as_positive (int (minus n)) = none
as_positive null = none
as_positive (bool b) = none
as_positive (float n) = none
as_positive not_finite = none
as_positive (str s) = none
as_positive (arr xs) = none
as_positive (obj fs) = none

-- A text that is not empty.
abbrev pub as_name : Json → Option String
as_name v = do s ← as_str v; require (leb 1 (length (codes s))); some s

-- The models of a client, each a text that is not empty.
unfoldable pub read_models : Items → Option (List String)
read_models nil = some []
read_models (cons v vs) = do s ← as_name v; rest ← read_models vs; some (s ∷ rest)

abbrev is_empty : Items → Bool
is_empty nil = true
is_empty (cons v vs) = false

-- The tests of one entry; `hashes` are the digests of the entries before it.
unfoldable pub read_client : List String → String → Json → Option Client
unfolding read_models get is_sha256_hex text_in
read_client hashes principal v = do
  require (leb 1 (length (codes principal)) && leb (length (codes principal)) 64)
  fs ← as_dict v
  credential ← get "credential_sha256" fs
  digest ← as_str credential
  require (is_sha256_hex digest && not (text_in digest hashes))
  listed ← get "models" fs
  items ← as_list listed
  require (not (is_empty items))
  models ← read_models items
  r ← get "requests" fs
  requests ← as_positive r
  o ← get "output_tokens" fs
  output ← as_positive o
  m ← get "max_output_tokens" fs
  most ← as_positive m
  b ← get "max_input_bytes" fs
  bytes ← as_positive b
  some (record {
    credential_sha256 = digest;
    models = models;
    requests = requests;
    output_tokens = output;
    max_output_tokens = most;
    max_input_bytes = bytes;
  })

-- The loop of `_validate` over the entries.
unfoldable pub read_clients : List String → Fields → Option (Table Client)
unfolding read_client
read_clients hashes end = some []
read_clients hashes (field principal v fs) = do
  client ← read_client hashes principal v
  rest ← read_clients (client.credential_sha256 ∷ hashes) fs
  some ((principal, client) ∷ rest)

abbrev no_fields : Fields → Bool
no_fields end = true
no_fields (field k v fs) = false

-- `_validate`, with the policy that it leaves.
unfoldable pub validate : Json → Json → Option Policy
unfolding read_clients
validate period_value clients_value = do
  period ← as_positive period_value
  fs ← as_dict clients_value
  require (not (no_fields fs))
  clients ← read_clients [] fs
  some (record { clients = clients; period = period })
