-- ===== src/Capability/Runs.antt =====
-- Histories of P12: any sequence of requests to the store, and what it promises through it.
use owasp_llm_lab_setup_guid.Base.{
  ℕ, refl, ◌∙◌, Option, String, List, [], ◌∷◌, Result, ok, err, after,
}
use owasp_llm_lab_setup_guid.Base.Ensures.{Ensures}
use owasp_llm_lab_setup_guid.Json.{Json, Fields}
use owasp_llm_lab_setup_guid.Clock.{Error}
use owasp_llm_lab_setup_guid.Capability.Rows.{Grant, Store}
use owasp_llm_lab_setup_guid.Capability.Operations.{close, issue, reserve, fail}
use owasp_llm_lab_setup_guid.Capability.Completion.{complete}
use owasp_llm_lab_setup_guid.Capability.Invariant.{IsValid, Later, Step}
use owasp_llm_lab_setup_guid.Capability.Preserve.{
  Good, Later-refl, reserve-Good, fail-Good, complete-Good,
}
use owasp_llm_lab_setup_guid.Capability.Issue.{close-Good}
use owasp_llm_lab_setup_guid.Capability.Grants.{issue-Good}

-- One call of a method that writes, with the time and the drawn tokens.
pub data Request : Type 0 where
  issuing : Json → List Json → (ℕ → String) → ℕ → Request
  reserving : Json → (suite execution role model : String) → Json → ℕ → Request
  completing : String → Fields → ℕ → Request
  failing : String → ℕ → Request
  closing : String → ℕ → Request

Step-refl : (s : Store) → Step s s
Step-refl s = record { grants = λ k g h. (g, h, Later-refl g); closed = λ k x t h c. h }

Later-trans : {g h i : Grant} → Later g h → Later h i → Later g i
Later-trans a b = record {
  suite_id = b.suite_id ∙ a.suite_id;
  execution_id = b.execution_id ∙ a.execution_id;
  role = b.role ∙ a.role;
  model = b.model ∙ a.model;
  expires = b.expires ∙ a.expires;
  spent = λ h. b.spent (a.spent h);
  final = λ h. let e = a.final h in b.final (rw e h) ∙ e;
}

Step-trans : {s t u : Store} → Step s t → Step t u → Step s u
Step-trans a b = record {
  grants = λ k g h.
      let (g1, h1, l1) = a.grants k g h in
      let (g2, h2, l2) = b.grants k g1 h1 in (g2, h2, Later-trans l1 l2);
  closed = λ k x t h c. b.closed k x t (a.closed k x t h c) c;
}

-- What holds of the state that an operation returns holds of the state after it.
Good-after :
    {A : Type 0} (s : Store) (m : Result Error (A × Store))
    → IsValid s
    → Ensures (Good s) m
    → IsValid (after m s) × Step s (after m s)
Good-after s (ok r) v h = h.at r refl
Good-after s (err e) v h = (v, Step-refl s)

module _ (sha256 : String → String) (parse_uuid : Json → Option String) where
  unfoldable pub handle : Request → Store → Store
  handle (issuing suite_id ids draw created) s =
      after (issue sha256 parse_uuid suite_id ids draw created s) s
  handle (reserving token suite execution role model request current) s =
      after (reserve sha256 token suite execution role model request current s) s
  handle (completing token provider current) s = after (complete sha256 token provider current s) s
  handle (failing token current) s = after (fail sha256 token current s) s
  handle (closing suite current) s = after (close suite current s) s

  unfoldable pub run : List Request → Store → Store
  unfolding handle
  run [] s = s
  run (r ∷ rs) s = run rs (handle r s)

  handle-Good : (r : Request) (s : Store) → IsValid s → IsValid (handle r s) × Step s (handle r s)
  unfolding handle
  handle-Good (issuing suite_id ids draw created) s v =
      Good-after s _ v (issue-Good sha256 parse_uuid suite_id ids draw created s v)
  handle-Good (reserving token suite execution role model request current) s v =
      Good-after s _ v (reserve-Good sha256 s v token suite execution role model request current)
  handle-Good (completing token provider current) s v =
      Good-after s _ v (complete-Good sha256 s v token provider current)
  handle-Good (failing token current) s v = Good-after s _ v (fail-Good sha256 s v token current)
  handle-Good (closing suite current) s v = Good-after s _ v (close-Good suite current s v)

  -- Whatever requests come, a well-formed store stays well formed, every grant keeps its scope and
  -- its lifetime, a used grant stays used and a finished one stays as it is, and a closed suite
  -- stays closed at its time.
  pub run-Good :
      (rs : List Request) (s : Store) → IsValid s → IsValid (run rs s) × Step s (run rs s)
  unfolding run
  run-Good [] s v = (v, Step-refl s)
  run-Good (r ∷ rs) s v =
      let (v', a) = handle-Good r s v in
      let (v'', b) = run-Good rs (handle r s) v' in (v'', Step-trans a b)
