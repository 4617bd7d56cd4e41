-- ===== src/Context/Steps.antt =====
-- The steps of `ContextStore`: one for each transaction that is committed. A call that is pending
-- stands for the thread that is between the two transactions of `execute`.
use owasp_llm_lab_setup_guid.Base.{ℕ, ◌≡◌, true, some, String, List, ok}
use owasp_llm_lab_setup_guid.Json.{Json}
use owasp_llm_lab_setup_guid.Base.Finds.{find}
use owasp_llm_lab_setup_guid.Context.Rows.{Call, Store, is_call}
use owasp_llm_lab_setup_guid.Context.Register.{register, close, is_pending}
use owasp_llm_lab_setup_guid.Context.Stages.{Task}
use owasp_llm_lab_setup_guid.Context.Perform.{Service, begin_stage, end_stage}

pub data Step (service : Service) (s : Store) : Store → Type 0 where
  registers :
      (suite : String) (executions : List String) (documents : Json) (reader visitor : String)
      (now : ℕ) (r : String × ℕ) {s' : Store}
      → register service.digest service.uuid service.source_digest suite executions documents reader
          visitor now s
        ≡ ok (r, s')
      → Step service s s'
  begins :
      (suite execution stage : String) (value : Json) (checked started : ℕ) (t : Task) {s' : Store}
      → begin_stage service suite execution stage value checked started s ≡ ok (t, s')
      → Step service s s'
  ends :
      (t : Task) (now : ℕ) (c : Call)
      → find (is_call t.suite_id t.execution_id t.stage) s.calls ≡ some c
      → is_pending c.state ≡ true
      → c.input_digest ≡ service.digest t.value
      → Step service s ((end_stage service t now s).1)
  closes :
      (suite : String) (now closed : ℕ) {s' : Store}
      → close service.uuid suite now s ≡ ok (closed, s')
      → Step service s s'

-- The stores that come after a store.
pub data Reach (service : Service) (s : Store) : Store → Type 0 where
  start : Reach service s s
  later : {t u : Store} → Reach service s t → Step service t u → Reach service s u
