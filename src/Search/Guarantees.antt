-- ===== src/Search/Guarantees.antt =====
-- What P03 promises of repeated operations, and of executions whose call failed.
use owasp_llm_lab_setup_guid.Base.{
  ℕ, ◌≡◌, true, false, not, ◌&&◌, none, some, String, List, [], ◌∷◌, ◌==◌, lookup, any, text_in,
  is_none, leb, ok, is_ok, arith, eq_refl,
}
use owasp_llm_lab_setup_guid.Base.Ensures.{
  Ensures, returns, refuses, after_bind, after_or_raise, after_guard,
}
use owasp_llm_lab_setup_guid.Base.Finds.{any_last}
use owasp_llm_lab_setup_guid.Json.{Json}
use owasp_llm_lab_setup_guid.Clock.{refused, Reading, stamp, within_window, digest, checked_token}
use owasp_llm_lab_setup_guid.Guardrail.Operations.{is_pending}
use owasp_llm_lab_setup_guid.Search.Rows.{Call, Ledger, has_key, calls_of, find_call, update_call}
use owasp_llm_lab_setup_guid.Search.Operations.{
  operations, blocks, reserve, read_response, no_answer, clashes, finished, finish,
}
use owasp_llm_lab_setup_guid.Search.Once.{Request, run, has_call, has_failed, failed_in, run-Keeps}

blocked_call :
    (id operation : String) (cs : List Call)
    → any (has_key id operation) cs ≡ true
    → any (blocks operation) (calls_of id cs) ≡ true
unfolding any calls_of
blocked_call id operation [] h = cc
blocked_call id operation (c ∷ cs) h = ground (arith, blocked_call id operation cs)

blocked_failure :
    (id operation : String) (cs : List Call)
    → any (failed_in id) cs ≡ true
    → any (blocks operation) (calls_of id cs) ≡ true
unfolding any calls_of
blocked_failure id operation [] h = cc
blocked_failure id operation (c ∷ cs) h = ground (arith, blocked_failure id operation cs)

error_stored :
    (id operation : String) (f : Call → Call) (cs : List Call) (c : Call)
    → find_call id operation cs ≡ some c
    → failed_in id (f c) ≡ true
    → any (failed_in id) (update_call id operation f cs) ≡ true
unfolding any find_call update_call
error_stored id operation f [] c found h = cc
error_stored id operation f (d ∷ cs) c found h = ground (arith, error_stored id operation f cs c)

find_call-key :
    (id operation : String) (cs : List Call) (c : Call)
    → find_call id operation cs ≡ some c
    → has_key id operation c ≡ true
unfolding find_call
find_call-key id operation [] c h = cc
find_call-key id operation (d ∷ cs) c h = ground (arith, find_call-key id operation cs c)

finish-failed :
    (id operation : String) (now : Reading) (l : Ledger)
    → Ensures (λ r. has_failed id (r.1).calls ≡ true) (finish id operation none now l)
unfolding finish has_failed read_response
finish-failed id operation now l = after_or_raise (lookup id l.executions) _ _ λ e he.
    after_bind (stamp now) _ λ t ht. after_guard (is_none e.closed_at) _ _ λ open_now.
      after_or_raise (find_call id operation l.calls) _ _ λ c hc.
        after_guard (is_pending c.state && leb c.started_at t) _ _ λ waits.
          after_guard (not (any (clashes id operation no_answer) l.calls)) _ _ λ fresh. returns _ (
            error_stored id operation (finished t no_answer) l.calls c hc
              (ground (arith, find_call-key id operation l.calls c hc)))

module _ (sha256 : String → String) where
  reserve-free :
      (token : Json) (suite id operation : String) (request : Json) (now : Reading) (l : Ledger)
      → Ensures
          (λ r.
            (any (blocks operation) (calls_of id l.calls) ≡ false)
            × (has_call id operation (r.1).calls ≡ true))
          (reserve sha256 token suite id operation request now l)
  unfolding reserve has_call
  reserve-free token suite id operation request now l =
      after_guard (text_in operation operations) (refused 422) _ λ known.
        after_bind (digest request) _ λ d hd. after_bind (checked_token token) _ λ secret hs.
          after_or_raise (lookup id l.executions) _ _ λ e he.
            after_guard (e.capability_hash == sha256 secret) _ _ λ holder.
              after_guard (e.suite_id == suite) _ _ λ scope. after_bind (stamp now) _ λ t ht.
                after_guard (is_none e.closed_at && within_window e.started_at t) _ _ λ open_now.
                  after_guard (not (any (blocks operation) (calls_of id l.calls))) _ _ λ free.
                    returns _ (
                      ground arith,
                      any_last _ _ l.calls (ground (arith, eq_refl id, eq_refl operation)),
                    )

  blocked-reserve :
      (token : Json) (suite id operation : String) (request : Json) (now : Reading) (l : Ledger)
      → any (blocks operation) (calls_of id l.calls) ≡ true
      → is_ok (reserve sha256 token suite id operation request now l) ≡ false
  blocked-reserve token suite id operation request now l h = refuses _ (record {
    at = λ r again.
        let (free, _) = (reserve-free token suite id operation request now l).at r again in
        ground arith;
  })

  -- An operation of an execution is called once: after a reservation that returns, no reservation of
  -- the same execution and operation returns, whatever requests come between.
  pub call_once :
      (token : Json) (suite id operation : String) (request : Json) (now : Reading) (l : Ledger)
      (n : ℕ) (l' : Ledger)
      → reserve sha256 token suite id operation request now l ≡ ok (n, l')
      → (rs : List Request) (token' : Json) (suite' : String) (request' : Json) (later : Reading)
      → is_ok (reserve sha256 token' suite' id operation request' later (run sha256 rs l')) ≡ false
  unfolding has_call
  call_once token suite id operation request now l n l' h rs token' suite' request' later =
      let (_, there) = (reserve-free token suite id operation request now l).at (n, l') h in
      blocked-reserve token' suite' id operation request' later (run sha256 rs l') (
        blocked_call id operation (run sha256 rs l').calls
          ((run-Keeps sha256 rs l').calls id operation there))

  -- An execution whose call failed makes no other: after a `finish` without a response that returns,
  -- no reservation of the execution returns, for any operation, whatever requests come between.
  pub failed_final :
      (id operation : String) (now : Reading) (l l' : Ledger)
      → finish id operation none now l ≡ ok (tt, l')
      → (rs : List Request) (token : Json) (suite operation' : String) (request : Json)
        (later : Reading)
      → is_ok (reserve sha256 token suite id operation' request later (run sha256 rs l')) ≡ false
  unfolding has_failed
  failed_final id operation now l l' h rs token suite operation' request later =
      blocked-reserve token suite id operation' request later (run sha256 rs l') (
        blocked_failure id operation' (run sha256 rs l').calls
          ((run-Keeps sha256 rs l').failed id ((finish-failed id operation now l).at (tt, l') h)))
