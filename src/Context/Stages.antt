-- ===== src/Context/Stages.antt =====
-- `execute`, in its two transactions: `begin_stage` records the call, `end_stage` performs it.
-- `words` is `re.findall(r"\w+", text)`; `search` gives the documents that match a query in the order
-- of rank and document_id, or none for an error of the database.
use Prim.Native.String.{◌++◌}
use owasp_llm_lab_setup_guid.Base.{
  ℕ, zero, suc, Bool, true, false, Option, none, some, String, List, [], ◌∷◌, ◌==◌, text_in, ◌>>=◌,
  if◌then◌else◌,
}
use owasp_llm_lab_setup_guid.Json.{Json}
use owasp_llm_lab_setup_guid.Context.Rows.{
  Checked, Stage, authenticate, authorize, retrieval, Evidence,
}
use owasp_llm_lab_setup_guid.Context.Register.{identifier, bounded}

-- A call whose first transaction is committed, and the second is not.
pub record Task : Type 0 where
  pub suite_id : String
  pub execution_id : String
  pub stage : Stage
  pub value : String

-- The test of the stage.
abbrev pub as_stage : String → Option Stage
as_stage s =
    if s == "authenticate"
    then some authenticate
    else if s == "authorize"
    then some authorize
    else if s == "retrieval"
    then some retrieval
    else none

abbrev pub maximum : Stage → ℕ
maximum authenticate = 256
maximum authorize = 16000
maximum retrieval = 16000

-- The tests of the value.
unfoldable pub read_value : Stage → Json → Checked String
unfolding bounded identifier
read_value authenticate v = bounded (maximum authenticate) v
read_value authorize v = do s ← bounded (maximum authorize) v; identifier v
read_value retrieval v = bounded (maximum retrieval) v

-- The outcome of a stage: what `_perform` returns.
pub data Reply : Type 0 where
  decided : Bool → Reply
  found : String → Reply

-- What `_perform` raises: an error with its evidence, if it has any.
pub record Failure : Type 0 where
  pub status : ℕ
  pub evidence : Option Evidence

-- The texts without those that came before.
unfoldable pub unique : List String → List String → List String
unfolding text_in
unique seen [] = []
unique seen (x ∷ xs) =
    let rest = unique (x ∷ seen) xs in
    let again = unique seen xs in if text_in x seen then again else x ∷ rest

unfoldable pub take {ℓ} : {A : Type ℓ} → ℕ → List A → List A
take zero xs = []
take (suc n) [] = []
take (suc n) (x ∷ xs) = x ∷ take n xs

-- `between.join(texts)`
unfoldable pub join : String → List String → String
join between [] = ""
join between (x ∷ []) = x
join between (x ∷ y ∷ xs) = x ++ between ++ join between (y ∷ xs)

unfoldable pub filter {ℓ} : {A : Type ℓ} → (A → Bool) → List A → List A
filter p [] = []
filter p (x ∷ xs) = let rest = filter p xs in if p x then x ∷ rest else rest

abbrev pub quoted : String → String
quoted s = "\"" ++ s ++ "\""

abbrev pub is_empty {ℓ} : {A : Type ℓ} → List A → Bool
is_empty [] = true
is_empty (x ∷ xs) = false
