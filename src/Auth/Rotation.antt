-- ===== src/Auth/Rotation.antt =====
-- Histories of `AuthService`: what a revocation or a rotation means for every later request.
use owasp_llm_lab_setup_guid.Base.{
  ℕ, ◌≡◌, refl, ap, sym, ◌∙◌, Bool, true, false, ◌&&◌, not, Option, some, String, List, [], ◌∷◌, ok,
  err, is_ok, ◌==◌, lookup, arith, update_at, Bool-cases, Result-cases, inl, inr,
}
use owasp_llm_lab_setup_guid.Base.Ensures.{Ensures, refuses, after_or_raise, after_guard}
use owasp_llm_lab_setup_guid.Auth.Rows.{Claims, Token, Error, Jwt, Service, valid}
use owasp_llm_lab_setup_guid.Auth.Operations.{
  Tokens, decode_claims, decode, issue_pair, authenticate_password, mark_revoked, is_unrevoked,
  rotate, refresh, revoke,
}
use owasp_llm_lab_setup_guid.Auth.Revocation.{
  RevokedAt, Keeps, Keeps-refl, Keeps-trans, authenticate_password-Keeps, refresh-Keeps,
  revoke-Keeps, decode-unrevoked, issue_pair-Keeps, mark_replaced-Keeps,
}

-- One call of a method that writes, with the drawn identifiers and the time.
pub data Request : Type 0 where
  logging_in : (username password access_jti refresh_jti : String) → ℕ → Request
  refreshing : (token access_jti refresh_jti : String) → ℕ → Request
  revoking : (token type : String) → ℕ → Request

-- A token that PyJWT accepts at two times has the same claims at both.
abbrev pub IsSteady : Jwt → Type 0
IsSteady jwt =
    (token kid : String) (t u : ℕ) (c d : Claims)
    → jwt.decode token kid t ≡ valid c
    → jwt.decode token kid u ≡ valid d
    → c ≡ d

module _ (service : Service) (jwt : Jwt) (verify : String → String → Bool) where
  unfoldable pub handle : Request → Tokens → Tokens
  handle (logging_in username password aj rj now) t =
      (authenticate_password service jwt verify username password aj rj now t).1
  handle (refreshing token aj rj now) t = (refresh service jwt token aj rj now t).1
  handle (revoking token type now) t = (revoke service jwt token type now t).1

  unfoldable pub run : List Request → Tokens → Tokens
  unfolding handle
  run [] t = t
  run (r ∷ rs) t = run rs (handle r t)

  handle-Keeps : (r : Request) (t : Tokens) → Keeps t (handle r t)
  unfolding handle
  handle-Keeps (logging_in username password aj rj now) t =
      authenticate_password-Keeps service jwt verify username password aj rj now t
  handle-Keeps (refreshing token aj rj now) t = refresh-Keeps service jwt token aj rj now t
  handle-Keeps (revoking token type now) t = revoke-Keeps service jwt token type now t

  run-Keeps : (rs : List Request) (t : Tokens) → Keeps t (run rs t)
  unfolding run
  run-Keeps [] t = Keeps-refl t
  run-Keeps (r ∷ rs) t = Keeps-trans (handle-Keeps r t) (run-Keeps rs (handle r t))

  -- Once a token's row is revoked, no later check of a token with that identifier passes, whatever
  -- logins, refreshes and revocations come between.
  pub revoked_refused :
      (jti : String) (x : ℕ) (t : Tokens)
      → RevokedAt jti x t
      → (rs : List Request) (token type : String) (later : ℕ) (c : Claims)
      → decode_claims jwt token later ≡ ok c
      → c.jti ≡ jti
      → is_ok (decode service jwt token type later (run rs t)) ≡ false
  revoked_refused jti x t h rs token type later c hc same = refuses _ (record {
    at = λ d accepted.
        let (r, hr, revoked) = (run-Keeps rs t).revoked jti x h in
        let (free, hd) = (decode-unrevoked service jwt token type later (run rs t)).at d accepted in
        ground arith;
  })

  -- What `refresh` leaves where it returns a pair.
  rotate-RevokedAt :
      (c : Claims) (aj rj : String) (now : ℕ) (t : Tokens)
      → is_ok (rotate service jwt c aj rj now t).0 ≡ true
      → RevokedAt c.jti now (rotate service jwt c aj rj now t).1
  unfolding rotate
  rotate-RevokedAt c aj rj now t h = elim (Bool-cases (is_unrevoked (lookup c.jti t))) [
    | inl free ↦
        rw (free, rotate)
          ((Keeps-trans (issue_pair-Keeps service jwt c.sub aj rj now (mark_revoked c.jti now t)) (
              mark_replaced-Keeps service jwt c.jti
                (issue_pair service jwt c.sub aj rj now (mark_revoked c.jti now t)))).revoked
            c.jti now (marked free))
    | inr spent ↦ absurd (refused_rotation spent)
  ]
    where
      marked : is_unrevoked (lookup c.jti t) ≡ true → RevokedAt c.jti now (mark_revoked c.jti now t)
      marked free =
          let (r, hr) = row free in
          (record r { revoked_at = some now }, update_at c.jti _ t hr, refl)
        where
          row : is_unrevoked (lookup c.jti t) ≡ true → (r : Token) × (lookup c.jti t ≡ some r)
          row free = ground arith

      refused_rotation : is_unrevoked (lookup c.jti t) ≡ false → ⊥
      refused_rotation spent = ground arith

  -- The key by which a token's claims were accepted.
  decode_claims-valid :
      (token : String) (now : ℕ)
      → Ensures
          (λ c.
            (alg : Option String) × (kid : String) × (jwt.header token ≡ some (alg, some kid))
            × (jwt.decode token kid now ≡ valid c))
          (decode_claims jwt token now)
  unfolding decode_claims
  decode_claims-valid token now = after_or_raise (jwt.header token) _ _ λ (alg, kid) hh.
      after_or_raise alg _ _ λ a ha. after_or_raise kid _ _ λ k hk.
        after_guard (a == "RS256" && not (k == "")) _ _ λ h1.
          after_guard (jwt.has_key k) _ _
            λ h2. record { at = λ c hc. (alg, k, hh ∙ ap (λ z. some (alg, z)) hk, ground arith) }

  same_claims :
      IsSteady jwt
      → (token : String) (t u : ℕ) (c d : Claims) → decode_claims jwt token t ≡ ok c
      → decode_claims jwt token u ≡ ok d
      → c ≡ d
  same_claims steady token t u c d hc hd =
      let (_, k, hk, vc) = (decode_claims-valid token t).at c hc in
      let (_, k', hk', vd) = (decode_claims-valid token u).at d hd in
      let same : k' ≡ k = ground arith in
      steady token k t u c d vc (ap (λ z. jwt.decode token z u) (sym same) ∙ vd)

  unrevoked_clash :
      (i j : String) (x : ℕ) (t : Tokens)
      → i ≡ j
      → RevokedAt i x t
      → is_unrevoked (lookup j t) ≡ true
      → ⊥
  unrevoked_clash i j x t same (r, hr, hx) free = ground arith

  refresh-of_ok :
      (token aj rj : String) (now : ℕ) (t : Tokens) (c : Claims)
      → decode service jwt token "refresh" now t ≡ ok c
      → refresh service jwt token aj rj now t ≡ rotate service jwt c aj rj now t
  unfolding refresh
  refresh-of_ok token aj rj now t c accepted = rw (accepted, refresh)

  refresh-of_err :
      (token aj rj : String) (now : ℕ) (t : Tokens) (e : Error)
      → decode service jwt token "refresh" now t ≡ err e
      → refresh service jwt token aj rj now t ≡ (err e, t)
  unfolding refresh
  refresh-of_err token aj rj now t e failed = rw (failed, refresh)

  refresh-RevokedAt :
      (token aj rj : String) (now : ℕ) (t : Tokens)
      → is_ok (refresh service jwt token aj rj now t).0 ≡ true
      → (c : Claims) × (decode_claims jwt token now ≡ ok c)
        × RevokedAt c.jti now (refresh service jwt token aj rj now t).1
  refresh-RevokedAt token aj rj now t h =
      elim (Result-cases (decode service jwt token "refresh" now t)) [
        | inl (e, failed) ↦ cc (rw (refresh-of_err token aj rj now t e failed) at h)
        | inr (c, accepted) ↦
            let same = refresh-of_ok token aj rj now t c accepted in
            (
              c,
              ((decode-unrevoked service jwt token "refresh" now t).at c accepted).1,
              rw same (rotate-RevokedAt c aj rj now t (rw same at h)),
            )
      ]

  refused_refresh :
      (token aj rj : String) (now : ℕ) (t : Tokens)
      → is_ok (decode service jwt token "refresh" now t) ≡ false
      → (is_ok (refresh service jwt token aj rj now t).0 ≡ false)
        × ((refresh service jwt token aj rj now t).1 ≡ t)
  refused_refresh token aj rj now t h =
      elim (Result-cases (decode service jwt token "refresh" now t)) [
        | inl (e, failed) ↦ rw (refresh-of_err token aj rj now t e failed) (refl, refl)
        | inr (c, accepted) ↦ cc (rw accepted at h)
      ]

  -- A refresh token is used at most once: after a refresh that returned, every later refresh with
  -- the same token fails and changes nothing, whatever requests come between, provided that PyJWT
  -- reads the same claims from a token at all times.
  pub refresh_once :
      IsSteady jwt
      → (token aj rj : String) (now : ℕ) (t : Tokens)
      → is_ok (refresh service jwt token aj rj now t).0 ≡ true
      → (rs : List Request) (aj' rj' : String) (later : ℕ)
      → let t' = run rs (refresh service jwt token aj rj now t).1 in
        (is_ok (refresh service jwt token aj' rj' later t').0 ≡ false)
        × ((refresh service jwt token aj' rj' later t').1 ≡ t')
  refresh_once steady token aj rj now t h rs aj' rj' later =
      let (c, hc, revoked) = refresh-RevokedAt token aj rj now t h in
      let u = (refresh service jwt token aj rj now t).1 in
      refused_refresh token aj' rj' later (run rs u) (
        refuses _ (record {
          at = λ d accepted.
              let (free, hd) =
                (decode-unrevoked service jwt token "refresh" later (run rs u)).at d accepted in
              let (r, hr, x) = (run-Keeps rs u).revoked c.jti now revoked in
              let same = same_claims steady token now later c d hc hd in
              unrevoked_clash c.jti d.jti now (run rs u) (ap (λ (x : Claims). x.jti) same)
                (r, hr, x) free;
        }))
