-- ===== src/Search/Once.antt =====
-- Histories of P03: what each request does to the calls that are there and to those that failed.
use owasp_llm_lab_setup_guid.Base.{
  sym, subst, ◌≡◌, refl, Bool, true, false, not, ◌&&◌, Option, some, String, List, [], ◌∷◌, ◌++◌,
  ◌==◌, lookup, exists, any, text_in, is_none, leb, after, arith, Option-cases, inl, inr,
}
use owasp_llm_lab_setup_guid.Base.Ensures.{
  Ensures, Ensures-after, returns, after_bind, after_or_raise, after_guard,
}
use owasp_llm_lab_setup_guid.Base.Finds.{any-append}
use owasp_llm_lab_setup_guid.Json.{Json, as_str}
use owasp_llm_lab_setup_guid.Clock.{
  Checked, refused, Reading, stamp, within_window, identifier, digest, checked_token,
}
use owasp_llm_lab_setup_guid.Guardrail.Rows.{State, pending, complete, error}
use owasp_llm_lab_setup_guid.Guardrail.Operations.{is_pending}
use owasp_llm_lab_setup_guid.Search.Rows.{Call, Ledger, has_key, calls_of, find_call, update_call}
use owasp_llm_lab_setup_guid.Search.Operations.{
  operations, is_job_id, blocks, register, reserve, claim_native_grant, read_response, clashes,
  finished, finish, allow_close, close_open, close,
}

-- One call of a method that writes.
pub data Request : Type 0 where
  registering : (suite_id execution_id source runner job : Json) → String → Reading → Request
  reserving : Json → (suite id operation : String) → Json → Reading → Request
  claiming : String → Request
  finishing : (id operation : String) → Option Json → Reading → Request
  closing : String → Reading → Request

module _ (sha256 : String → String) where
  unfoldable pub handle : Request → Ledger → Ledger
  unfolding register reserve claim_native_grant finish close
  handle (registering suite_id execution_id source runner job token now) l =
      after (register sha256 suite_id execution_id source runner job token now l) l
  handle (reserving token suite id operation request now) l =
      after (reserve sha256 token suite id operation request now l) l
  handle (claiming id) l = after (claim_native_grant id l) l
  handle (finishing id operation response now) l = after (finish id operation response now l) l
  handle (closing id now) l = after (close id now l) l

  unfoldable pub run : List Request → Ledger → Ledger
  unfolding handle
  run [] l = l
  run (r ∷ rs) l = run rs (handle r l)

-- Whether the execution has a call of the operation.
unfoldable pub has_call : String → String → List Call → Bool
unfolding any
has_call id operation cs = any (has_key id operation) cs

abbrev pub is_error : State → Bool
is_error pending = false
is_error complete = false
is_error error = true

abbrev pub failed_in : String → Call → Bool
failed_in id c = c.execution_id == id && is_error c.state

-- Whether a call of the execution ended in an error.
unfoldable pub has_failed : String → List Call → Bool
unfolding any
has_failed id cs = any (failed_in id) cs

-- What a request takes from no execution: a call, and that one has failed.
pub record Keeps (old new : List Call) : Type 0 where
  pub calls :
      (id operation : String) → has_call id operation old ≡ true → has_call id operation new ≡ true
  pub failed : (id : String) → has_failed id old ≡ true → has_failed id new ≡ true

pub Keeps-refl : (cs : List Call) → Keeps cs cs
Keeps-refl cs = record { calls = λ i o h. h; failed = λ i h. h }

any_update :
    (p : Call → Bool) (id operation : String) (f : Call → Call) (cs : List Call) (c : Call)
    → find_call id operation cs ≡ some c
    → (p c ≡ true → p (f c) ≡ true)
    → any p cs ≡ true
    → any p (update_call id operation f cs) ≡ true
unfolding any find_call update_call
any_update p id operation f [] c found keeps h = cc
any_update p id operation f (d ∷ cs) c found keeps h =
    ground (arith, any_update p id operation f cs c)

append-Keeps : (c : Call) (cs : List Call) → Keeps cs (cs ++ c ∷ [])
unfolding has_call has_failed
append-Keeps c cs = record {
  calls = λ i o h. any-append (has_key i o) c cs h;
  failed = λ i h. any-append (failed_in i) c cs h;
}

module _ (sha256 : String → String) where
  reserve-Keeps :
      (token : Json) (suite id operation : String) (request : Json) (now : Reading) (l : Ledger)
      → Ensures
          (λ r. Keeps l.calls (r.1).calls)
          (reserve sha256 token suite id operation request now l)
  unfolding reserve
  reserve-Keeps token suite id operation request now l =
      after_guard (text_in operation operations) (refused 422) _ λ known.
        after_bind (digest request) _ λ d hd. after_bind (checked_token token) _ λ secret hs.
          after_or_raise (lookup id l.executions) _ _ λ e he.
            after_guard (e.capability_hash == sha256 secret) _ _ λ holder.
              after_guard (e.suite_id == suite) _ _ λ scope. after_bind (stamp now) _ λ t ht.
                after_guard (is_none e.closed_at && within_window e.started_at t) _ _ λ open_now.
                  after_guard (not (any (blocks operation) (calls_of id l.calls))) _ _
                    λ free. returns _ (append-Keeps _ l.calls)

  pub register-same :
      (suite_id execution_id source runner job : Json) (token : String) (now : Reading) (l : Ledger)
      → Ensures
          (λ r. (r.1).calls ≡ l.calls)
          (register sha256 suite_id execution_id source runner job token now l)
  unfolding register
  register-same suite_id execution_id source runner job token now l =
      after_bind (identifier suite_id) _ λ suite h1. after_bind (identifier execution_id) _ λ id h2.
        after_bind (digest source) _ λ s h3. after_bind (digest runner) _ λ r h4.
          after_or_raise (as_str job) _ _ λ j h5. after_guard (is_job_id j) _ _ λ h6.
            after_bind (stamp now) _ λ t ht.
              after_guard (is_none (lookup id l.executions)) _ _ λ absent.
                after_guard (not (exists (λ e. e.capability_hash == sha256 token) l.executions)) _ _
                  λ fresh. returns _ refl

finish-Keeps :
    (id operation : String) (response : Option Json) (now : Reading) (l : Ledger)
    → Ensures (λ r. Keeps l.calls (r.1).calls) (finish id operation response now l)
unfolding finish has_call has_failed
finish-Keeps id operation response now l = after_bind (read_response response) _ λ a ha.
    after_or_raise (lookup id l.executions) _ _ λ e he. after_bind (stamp now) _ λ t ht.
      after_guard (is_none e.closed_at) _ _ λ open_now.
        after_or_raise (find_call id operation l.calls) _ _ λ c hc.
          after_guard (is_pending c.state && leb c.started_at t) _ _ λ waits.
            after_guard (not (any (clashes id operation a) l.calls)) _ _ λ fresh.
              returns _ (record {
                calls = λ i o h.
                    any_update (has_key i o) id operation (finished t a) l.calls c hc (λ k. k) h;
                failed = λ i h.
                    any_update (failed_in i) id operation (finished t a) l.calls c hc
                      (λ k. absurd (ground arith)) h;
              })

pub close-same :
    (id : String) (now : Reading) (l : Ledger)
    → Ensures (λ r. (r.1).calls ≡ l.calls) (close id now l)
unfolding close close_open
close-same id now l = after_or_raise (lookup id l.executions) _ _ λ e he.
    elim (Option-cases e.closed_at) [
      | inr (t, ht) ↦ rw ht (returns (t, l) refl)
      | inl still ↦ rw still (
          after_bind (stamp now) _ λ t ht.
            after_guard (leb e.started_at t) _ _
              λ late. after_bind (allow_close t (calls_of id l.calls)) _ λ u hu. returns _ refl)
    ]

pub claim-same :
    (id : String) (l : Ledger) → Ensures (λ r. (r.1).calls ≡ l.calls) (claim_native_grant id l)
unfolding claim_native_grant
claim-same id l = after_guard (not (text_in id l.native_grants)) _ _ λ fresh. returns _ refl

unchanged :
    {A : Type 0} (l : Ledger) (m : Checked (A × Ledger))
    → Ensures (λ r. (r.1).calls ≡ l.calls) m
    → Keeps l.calls (after m l).calls
unchanged l m h =
    subst (Keeps l.calls) (sym (Ensures-after (λ k. k.calls ≡ l.calls) m refl h))
      (Keeps-refl l.calls)

module _ (sha256 : String → String) where
  handle-Keeps : (r : Request) (l : Ledger) → Keeps l.calls (handle sha256 r l).calls
  unfolding handle
  handle-Keeps (registering suite_id execution_id source runner job token now) l =
      unchanged l _ (register-same sha256 suite_id execution_id source runner job token now l)
  handle-Keeps (reserving token suite id operation request now) l =
      Ensures-after (λ k. Keeps l.calls k.calls)
        (reserve sha256 token suite id operation request now l) (Keeps-refl l.calls)
        (reserve-Keeps sha256 token suite id operation request now l)
  handle-Keeps (claiming id) l = unchanged l _ (claim-same id l)
  handle-Keeps (finishing id operation response now) l =
      Ensures-after (λ k. Keeps l.calls k.calls) (finish id operation response now l)
        (Keeps-refl l.calls) (finish-Keeps id operation response now l)
  handle-Keeps (closing id now) l = unchanged l _ (close-same id now l)

  pub run-Keeps : (rs : List Request) (l : Ledger) → Keeps l.calls (run sha256 rs l).calls
  unfolding run
  run-Keeps [] l = Keeps-refl l.calls
  run-Keeps (r ∷ rs) l =
      let a = handle-Keeps r l in
      let b = run-Keeps rs (handle sha256 r l) in
      record {
        calls = λ i o h. b.calls i o (a.calls i o h);
        failed = λ i h. b.failed i (a.failed i h);
      }
