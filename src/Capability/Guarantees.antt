-- ===== src/Capability/Guarantees.antt =====
-- What P12 promises of capabilities that were used, and of suites that were closed.
use owasp_llm_lab_setup_guid.Base.{
  codes, length, is_sha256_hex, ℕ, ◌≡◌, refl, true, false, ◌&&◌, not, Option, none, some, String,
  List, lookup, exists, ok, arith, eq_iff, is_none, is_ok, ltb, leb, update_at,
}
use owasp_llm_lab_setup_guid.Base.Ensures.{
  Ensures, refuses, returns, after_bind, after_or_raise, after_guard,
}
use owasp_llm_lab_setup_guid.Json.{Json, as_str}
use owasp_llm_lab_setup_guid.Capability.Rows.{Suite, Grant, Store}
use owasp_llm_lab_setup_guid.Capability.Operations.{
  is_issued, close, reserve, checked_binding, in_scope, busy_in, Binding,
}
use owasp_llm_lab_setup_guid.Capability.Invariant.{IsValid}
use owasp_llm_lab_setup_guid.Capability.Preserve.{reserve-Good}
use owasp_llm_lab_setup_guid.Capability.Issue.{close-Good}
use owasp_llm_lab_setup_guid.Capability.Runs.{Request, run, run-Good}

in_scope-suite :
    (g : Grant) (suite execution role model : String)
    → in_scope g suite execution role model ≡ true
    → g.suite_id ≡ suite
unfolding in_scope
in_scope-suite g suite execution role model h = ground (arith, eq_iff g.suite_id suite)

checked_binding-text :
    (token request : Json) → Ensures (λ p. as_str token ≡ some p.0) (checked_binding token request)
unfolding checked_binding
checked_binding-text token request = after_or_raise (as_str token) _ _ λ secret hs.
    after_guard (leb 40 (length (codes secret)) && leb (length (codes secret)) 256) _ _ λ h1.
      after_or_raise (as_str request) _ _
        λ d hd. after_guard (is_sha256_hex d) _ _ λ h2. returns (secret, d) hs

-- A close that returns leaves its suite closed at the time that it returns.
close-closed :
    (suite : String) (current : ℕ) (s : Store)
    → Ensures
        (λ r. (x : Suite) × (lookup suite (r.1).suites ≡ some x) × (x.closed ≡ some r.0))
        (close suite current s)
unfolding close
close-closed suite current s = after_or_raise (lookup suite s.suites) _ _ λ parent hp.
    after_guard (not (exists (busy_in suite) s.grants)) _ _
      λ idle. returns _ (_, update_at suite _ s.suites hp, refl)

module _ (sha256 : String → String) where
  -- A reservation that returns leaves its grant used.
  reserve-spent :
      (token : Json) (suite execution role model : String) (request : Json) (current : ℕ)
      (s : Store)
      → Ensures
          (λ r.
            (g : Grant) × (lookup (r.0.token_digest) (r.1).grants ≡ some g)
            × (is_issued g.state ≡ false))
          (reserve sha256 token suite execution role model request current s)
  unfolding reserve
  reserve-spent token suite execution role model request current s =
      after_bind (checked_binding token request) _ λ (secret, d) hb.
        after_or_raise (lookup (sha256 secret) s.grants) _ _ λ g hg.
          after_or_raise (lookup g.suite_id s.suites) _ _ λ parent hp.
            after_guard (in_scope g suite execution role model) _ _ λ scope.
              after_guard (is_none parent.closed && is_issued g.state) _ _ λ fresh.
                after_guard (leb g.issued_at current && ltb current g.expires) _ _
                  λ alive. returns _ (_, update_at (sha256 secret) _ s.grants hg, refl)

  -- What a reservation that returns has found.
  reserve-found :
      (token : Json) (suite execution role model : String) (request : Json) (current : ℕ)
      (s : Store)
      → Ensures
          (λ r.
            (g : Grant) × (parent : Suite) × (lookup (r.0.token_digest) s.grants ≡ some g)
            × (lookup suite s.suites ≡ some parent)
            × (is_issued g.state ≡ true)
            × (parent.closed ≡ none)
            × ((secret : String) × (as_str token ≡ some secret)
                × (r.0.token_digest ≡ sha256 secret)))
          (reserve sha256 token suite execution role model request current s)
  unfolding reserve
  reserve-found token suite execution role model request current s =
      after_bind (checked_binding token request) _ λ (secret, d) hb.
        after_or_raise (lookup (sha256 secret) s.grants) _ _ λ g hg.
          after_or_raise (lookup g.suite_id s.suites) _ _ λ parent hp.
            after_guard (in_scope g suite execution role model) _ _ λ scope.
              after_guard (is_none parent.closed && is_issued g.state) _ _ λ fresh.
                after_guard (leb g.issued_at current && ltb current g.expires) _ _ λ alive.
                  returns _ (
                    g,
                    parent,
                    hg,
                    rw (← in_scope-suite g suite execution role model scope) hp,
                    ground arith,
                    ground arith,
                    (secret, (checked_binding-text token request).at (secret, d) hb, refl),
                  )

  -- A capability serves once: after a reservation that returns, no reservation with the same token
  -- returns, whatever requests come between.
  pub capability_once :
      (parse_uuid : Json → Option String) (token : Json) (suite execution role model : String)
      (request : Json) (current : ℕ) (s s' : Store) (b : Binding)
      → IsValid s
      → reserve sha256 token suite execution role model request current s ≡ ok (b, s')
      → (rs : List Request) (suite' execution' role' model' : String) (request' : Json) (later : ℕ)
      → is_ok (
          reserve sha256 token suite' execution' role' model' request' later
            (run sha256 parse_uuid rs s'))
        ≡ false
  capability_once parse_uuid token suite execution role model request current s s' b v h rs suite'
        execution' role' model' request' later =
      refuses _ (record {
        at = λ r again.
            let (v', _) =
              (reserve-Good sha256 s v token suite execution role model request current).at (b, s')
                h in
            let (_, step) = run-Good sha256 parse_uuid rs s' v' in
            let (g, hg, used) =
              (reserve-spent token suite execution role model request current s).at (b, s') h in
            let (g2, h2, later_g) = step.grants b.token_digest g hg in
            let (_, _, _, _, _, _, (secret, hs, hd)) =
              (reserve-found token suite execution role model request current s).at (b, s') h in
            let (g3, _, h3, _, unused, _, (secret', hs', hd')) =
              (reserve-found token suite' execution' role' model' request' later
                  (run sha256 parse_uuid rs s')).at
                r again in
            let spent = later_g.spent used in ground arith;
      })

  -- After a suite has closed, no capability of it can be reserved, whatever requests come between.
  pub reserve_after_close :
      (parse_uuid : Json → Option String) (suite : String) (current t : ℕ) (s s' : Store)
      → IsValid s
      → close suite current s ≡ ok (t, s')
      → (rs : List Request) (token : Json) (execution role model : String) (request : Json)
        (later : ℕ)
      → is_ok (
          reserve sha256 token suite execution role model request later
            (run sha256 parse_uuid rs s'))
        ≡ false
  reserve_after_close parse_uuid suite current t s s' v h rs token execution role model request
        later =
      refuses _ (record {
        at = λ r again.
            let (v', _) = (close-Good suite current s v).at (t, s') h in
            let (_, step) = run-Good sha256 parse_uuid rs s' v' in
            let (x, hx, hc) = (close-closed suite current s).at (t, s') h in
            let found = step.closed suite x t hx hc in
            let (_, parent, _, hp, _, open_now, _) =
              (reserve-found token suite execution role model request later
                  (run sha256 parse_uuid rs s')).at
                r again in
            ground arith;
      })
