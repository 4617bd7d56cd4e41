-- ===== src/Search/Order.antt =====
-- What the requests of P03 do to the sequence of the calls of an execution.
use owasp_llm_lab_setup_guid.Base.{
  ℕ, ◌≡◌, refl, sym, subst, true, false, not, ◌&&◌, Option, none, some, String, List, [], ◌∷◌, ◌==◌,
  lookup, len, any, text_in, is_none, leb, after, arith,
}
use owasp_llm_lab_setup_guid.Base.Ensures.{
  Ensures, Ensures-after, returns, after_bind, after_or_raise, after_guard,
}
use owasp_llm_lab_setup_guid.Json.{Json, as_dict, dumps}
use owasp_llm_lab_setup_guid.Clock.{
  Checked, refused, Reading, stamp, within_window, digest, checked_token,
}
use owasp_llm_lab_setup_guid.Guardrail.Operations.{is_pending}
use owasp_llm_lab_setup_guid.Search.Rows.{Call, Ledger, calls_of, find_call}
use owasp_llm_lab_setup_guid.Search.Operations.{
  operations, blocks, reserve, Answer, read_response, checked_text, checked_option, value_at,
  clashes, finished, finish,
}
use owasp_llm_lab_setup_guid.Search.Once.{
  Request, registering, reserving, claiming, finishing, closing, handle, run, register-same,
  claim-same, close-same,
}
use owasp_llm_lab_setup_guid.Search.Lanes.{
  in_sequence, times_fit, IsOrdered, append-ordered, update-ordered,
}

module _ (sha256 : String → String) where
  reserve-IsOrdered :
      (token : Json) (suite id operation : String) (request : Json) (now : Reading) (l : Ledger)
      → IsOrdered l
      → Ensures (λ r. IsOrdered r.1) (reserve sha256 token suite id operation request now l)
  unfolding reserve
  reserve-IsOrdered token suite id operation request now l v =
      after_guard (text_in operation operations) (refused 422) _ λ known.
        after_bind (digest request) _ λ d hd. after_bind (checked_token token) _ λ secret hs.
          after_or_raise (lookup id l.executions) _ _ λ e he.
            after_guard (e.capability_hash == sha256 secret) _ _ λ holder.
              after_guard (e.suite_id == suite) _ _ λ scope. after_bind (stamp now) _ λ t ht.
                after_guard (is_none e.closed_at && within_window e.started_at t) _ _ λ open_now.
                  after_guard (not (any (blocks operation) (calls_of id l.calls))) _ _ λ free.
                    returns _ (append-ordered operation _ l.calls v (ground arith) refl refl)

read_response-settled :
    (response : Option Json) → Ensures (λ a. is_pending a.state ≡ false) (read_response response)
unfolding read_response
read_response-settled none = returns _ refl
read_response-settled (some v) = after_or_raise (as_dict v) _ _ λ fs h1.
    after_bind (checked_text (value_at "observation_id" fs)) _ λ observation h2.
      after_bind (checked_option (value_at "provider_request_id" fs)) _ λ provider h3.
        after_or_raise (dumps v) _ _
          λ raw h4. after_guard (leb (len raw) 16384) _ _ λ small. returns _ refl

finish-IsOrdered :
    (id operation : String) (response : Option Json) (now : Reading) (l : Ledger)
    → IsOrdered l
    → Ensures (λ r. IsOrdered r.1) (finish id operation response now l)
unfolding finish
finish-IsOrdered id operation response now l v = after_bind (read_response response) _ λ a ha.
    after_or_raise (lookup id l.executions) _ _ λ e he. after_bind (stamp now) _ λ t ht.
      after_guard (is_none e.closed_at) _ _ λ open_now.
        after_or_raise (find_call id operation l.calls) _ _ λ c hc.
          after_guard (is_pending c.state && leb c.started_at t) _ _ λ waits.
            after_guard (not (any (clashes id operation a) l.calls)) _ _ λ fresh. returns _ (
              update-ordered id operation (finished t a) c l.calls v hc (ground arith) (λ d. refl)
                refl (settled a ((read_response-settled response).at a ha) c t (ground arith)))
  where
    settled :
        (a : Answer)
        → is_pending a.state ≡ false
        → (c : Call) (t : ℕ) → leb c.started_at t ≡ true
        → times_fit (finished t a c) ≡ true
    settled a done c t late = ground arith

kept_order :
    {A : Type 0} (l : Ledger) (m : Checked (A × Ledger))
    → IsOrdered l
    → Ensures (λ r. (r.1).calls ≡ l.calls) m
    → IsOrdered (after m l)
kept_order l m v h id =
    subst (λ cs. in_sequence 0 (calls_of id cs) ≡ true)
      (sym (Ensures-after (λ k. k.calls ≡ l.calls) m refl h)) (v id)

module _ (sha256 : String → String) where
  handle-IsOrdered : (r : Request) (l : Ledger) → IsOrdered l → IsOrdered (handle sha256 r l)
  unfolding handle
  handle-IsOrdered (registering suite_id execution_id source runner job token now) l v =
      kept_order l _ v (register-same sha256 suite_id execution_id source runner job token now l)
  handle-IsOrdered (reserving token suite id operation request now) l v =
      Ensures-after IsOrdered (reserve sha256 token suite id operation request now l) v
        (reserve-IsOrdered sha256 token suite id operation request now l v)
  handle-IsOrdered (claiming id) l v = kept_order l _ v (claim-same id l)
  handle-IsOrdered (finishing id operation response now) l v =
      Ensures-after IsOrdered (finish id operation response now l) v
        (finish-IsOrdered id operation response now l v)
  handle-IsOrdered (closing id now) l v = kept_order l _ v (close-same id now l)

  -- Whatever requests come, with whatever clock readings, the calls of every execution stay in
  -- sequence: numbered from one, all but the last complete, each with the times of its state.
  pub run-IsOrdered : (rs : List Request) (l : Ledger) → IsOrdered l → IsOrdered (run sha256 rs l)
  unfolding run
  run-IsOrdered [] l v = v
  run-IsOrdered (r ∷ rs) l v = run-IsOrdered rs (handle sha256 r l) (handle-IsOrdered r l v)
