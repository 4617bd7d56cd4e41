-- ===== src/Guardrail/Admission.antt =====
-- Registration, reservation and the policy audits are steps of the execution that they name.
use owasp_llm_lab_setup_guid.Base.{
  append_at, append_elsewhere, ◌≡◌, refl, String, lookup, arith, text_in, ◌==◌, is_none, is_some,
  not, exists, [], ◌∷◌, leb, ◌&&◌,
}
use owasp_llm_lab_setup_guid.Base.Ensures.{
  Ensures, returns, raises, after_bind, after_or_raise, after_guard, after_if,
}
use owasp_llm_lab_setup_guid.Json.{Json, canonical, as_dict}
use owasp_llm_lab_setup_guid.Clock.{
  Reading, refused, stamp, checked_token, within_window, identifier, digest,
}
use owasp_llm_lab_setup_guid.Guardrail.Contract.{operations, expected_arguments}
use owasp_llm_lab_setup_guid.Guardrail.Rows.{Ledger, Phase, before, after}
use owasp_llm_lab_setup_guid.Guardrail.Operations.{
  find_execution, find_pending, encoded, reference_body, reserve, register, new_call, new_execution,
}
use owasp_llm_lab_setup_guid.Guardrail.Audit.{
  policy_audit, fits_phase, same_resources, insert_audit, insert_ids, read_receipt, read_phase,
}
use owasp_llm_lab_setup_guid.Guardrail.Effects.{same_rows}
use owasp_llm_lab_setup_guid.Guardrail.Lifecycle.{Effect, registers, reserves}

insert_audit-rows :
    (id : String) (phase : Phase) (raw : String) (l : Ledger)
    → Ensures
        (λ l'. (l'.executions ≡ l.executions) × (l'.calls ≡ l.calls))
        (insert_audit id phase raw l)
unfolding insert_audit
insert_audit-rows id before raw l =
    after_if (is_some (lookup id l.before_audits)) _ _ (λ h. raises _) (λ h. returns _ (refl, refl))
insert_audit-rows id after raw l =
    after_if (is_some (lookup id l.after_audits)) _ _ (λ h. raises _) (λ h. returns _ (refl, refl))

module _ (sha256 : String → String) where
  pub reserve-Effect :
      (token : Json) (suite id operation : String) (payload : Json) (now : Reading) (l : Ledger)
      → Ensures (λ r. Effect id l r.1) (reserve sha256 token suite id operation payload now l)
  unfolding reserve
  reserve-Effect token suite id operation payload now l =
      after_guard (text_in operation operations) (refused 422) _ λ known.
        after_bind (checked_token token) _ λ secret hs.
          after_bind (encoded payload 32768 422) _ λ raw hr.
            after_guard (is_some (as_dict payload)) _ _ λ dict.
              after_or_raise (lookup id l.executions) _ _ λ e he.
                after_guard (e.capability_hash == sha256 secret) _ _ λ holder.
                  after_guard (e.suite_id == suite) _ _ λ scope. after_bind (stamp now) _ λ t ht.
                    after_guard (is_none e.closed_at && within_window e.started_at t) _ _
                      λ open_now. after_guard (is_none (lookup id l.calls)) _ _ λ unused.
                        returns _ (record {
                          move =
                              reserves e (new_call sha256 operation raw t) he (ground arith)
                                (ground arith) (ground arith) (refl, refl, refl, refl, refl, refl)
                                refl (append_at id _ l.calls (ground arith));
                          other_executions = λ j ne. refl;
                          other_calls = λ j ne. append_elsewhere id j _ l.calls ne;
                        })

  -- `register` is a step of the execution that it names, where the identifier is accepted.
  pub register-Effect :
      (suite_id execution_id source runner resource : Json) (mode : String) (body guardrail : Json)
      (token : String) (now : Reading) (l : Ledger)
      → Ensures
          (λ r. Effect r.0.execution_id l r.1)
          (register sha256 suite_id execution_id source runner resource mode body guardrail token
            now l)
  unfolding register
  register-Effect suite_id execution_id source runner resource mode body guardrail token now l =
      after_bind (identifier suite_id) _ λ suite h1. after_bind (identifier execution_id) _ λ id h2.
        after_bind (digest source) _ λ source_digest h3.
          after_bind (digest runner) _ λ runner_digest h4.
            after_bind (digest resource) _ λ resource_digest h5.
              after_guard (text_in mode ("aws" ∷ "contract" ∷ [])) _ _ λ h6.
                after_guard (is_some (expected_arguments reference_body guardrail)) _ _ λ h7.
                  after_bind (encoded body 16384 422) _ λ encoded_body h8.
                    after_or_raise (canonical guardrail) _ _ λ encoded_guardrail h9.
                      after_bind (stamp now) _ λ t ht.
                        after_guard (is_none (lookup id l.executions)) _ _ λ unused.
                          after_guard
                            (not (exists (λ e. e.capability_hash == sha256 token) l.executions)) _ _
                            λ secret. returns _ (record {
                              move =
                                  registers
                                    (new_execution sha256 suite source_digest runner_digest
                                      resource_digest mode encoded_body encoded_guardrail token t)
                                    (ground arith) refl (append_at id _ l.executions (ground arith))
                                    refl;
                              other_executions = λ j ne. append_elsewhere id j _ l.executions ne;
                              other_calls = λ j ne. refl;
                            })

  pub policy_audit-Effect :
      (id phase_name : String) (receipt : Json) (now : Reading) (l : Ledger)
      → Ensures (λ r. Effect id l r.1) (policy_audit sha256 id phase_name receipt now l)
  unfolding policy_audit
  policy_audit-Effect id phase_name receipt now l =
      after_or_raise (read_phase phase_name) _ _ λ phase h1.
        after_bind (read_receipt receipt) _ λ r h2.
          after_bind (find_pending id now l) _ λ (c, t) h3.
            after_bind (find_execution id l) _ λ e h4.
              after_guard (e.provider_mode == "aws") _ _ λ h5.
                after_or_raise r.resources _ _ λ resources hr.
                  after_guard (same_resources sha256 resources e) _ _ λ h6.
                    after_guard
                      (leb c.started_at r.started && leb r.started r.observed && leb r.observed t) _
                      _
                      λ h7.
                        after_guard
                          (fits_phase phase c (is_some (lookup id l.before_audits)) r.started) _ _
                          λ h8. after_bind (insert_audit id phase r.raw l) _ λ l' h9.
                            after_bind (insert_ids r.ids _ l'.audit_requests) _ λ requests h10.
                              let (e', c') = (insert_audit-rows id phase r.raw l).at l' h9 in
                              returns _
                                (same_rows id l (record l' { audit_requests = requests }) e' c')
