-- ===== src/Auth/Revocation.antt =====
-- Revocation in `AuthService`: what each operation does to the rows that are revoked.
use owasp_llm_lab_setup_guid.Base.{
  ℕ, ◌≡◌, refl, ap, sym, ◌∙◌, Bool, true, false, some, String, Result, ok, err, is_none, ◌==◌,
  lookup, append, update, arith, eq_iff, lookup-append, update_at, update_elsewhere, Option-cases,
  Bool-cases, Result-cases, inl, inr, ◌⊎◌,
}
use owasp_llm_lab_setup_guid.Base.Ensures.{
  Ensures, returns, after_bind, after_or_raise, after_guard,
}
use owasp_llm_lab_setup_guid.Auth.Rows.{Claims, Token, Error, Jwt, Service, Pair}
use owasp_llm_lab_setup_guid.Auth.Operations.{
  Tokens, decode_claims, find_token, same_roles, decode, row_of, store, store_pair, pair_of,
  issue_pair, authenticate_password, mark_revoked, mark_replaced, is_unrevoked, rotate, refresh,
  revoke,
}

-- The token `jti` was revoked at the time `x`.
abbrev pub RevokedAt : String → ℕ → Tokens → Type 0
RevokedAt jti x tokens = (r : Token) × (lookup jti tokens ≡ some r) × (r.revoked_at ≡ some x)

-- Every revoked token of `old` is revoked in `new`, at its time.
pub record Keeps (old new : Tokens) : Type 0 where
  pub revoked : (j : String) (x : ℕ) → RevokedAt j x old → RevokedAt j x new

pub Keeps-refl : (t : Tokens) → Keeps t t
Keeps-refl t = record { revoked = λ j x h. h }

pub Keeps-trans : {a b c : Tokens} → Keeps a b → Keeps b c → Keeps a c
Keeps-trans p q = record { revoked = λ j x h. q.revoked j x (p.revoked j x h) }

Keeps-append : (k : String) (r : Token) (t : Tokens) → Keeps t (append k r t)
Keeps-append k r t = record {
  revoked = λ j x (w, h, e). (w, lookup-append k j r t ∙ ground arith, e);
}

-- An update that leaves revocations alone where there is one.
Keeps-update :
    (k : String) (f : Token → Token) (t : Tokens)
    → ((r : Token) (x : ℕ)
        → lookup k t ≡ some r
        → r.revoked_at ≡ some x
        → (f r).revoked_at ≡ some x)
    → Keeps t (update k f t)
Keeps-update k f t same = record { revoked = λ j x (r, h, e). row j x r h e (Bool-cases (k == j)) }
  where
    row :
        (j : String) (x : ℕ) (r : Token)
        → lookup j t ≡ some r
        → r.revoked_at ≡ some x
        → ((k == j) ≡ true) ⊎ ((k == j) ≡ false)
        → RevokedAt j x (update k f t)
    row j x r h e (inl eq) =
        let p : k ≡ j = (eq_iff k j).0 eq in
        let h' : lookup k t ≡ some r = ap (λ z. lookup z t) p ∙ h in
        (f r, ap (λ z. lookup z (update k f t)) (sym p) ∙ update_at k f t h', same r x h' e)
    row j x r h e (inr ne) = (r, update_elsewhere k j f t (ground (arith, eq_iff k j)) ∙ h, e)

store-Keeps : (c : Claims) (t : Tokens) → Ensures (Keeps t) (store c t)
unfolding store
store-Keeps c t =
    after_guard (is_none (lookup c.jti t)) _ _ λ fresh. returns _ (Keeps-append c.jti (row_of c) t)

module _ (service : Service) (jwt : Jwt) where
  store_pair-Keeps : (a r : Claims) (t : Tokens) → Keeps t (store_pair service jwt a r t).1
  unfolding store_pair
  store_pair-Keeps a r t = first (store a t) refl
    where
      second :
          (u : Tokens) (m : Result Error Tokens)
          → store r u ≡ m
          → Keeps u (
              let out : Result Error Pair × Tokens = elim m [
                | err e ↦ (err e, u)
                | ok v ↦ (ok (pair_of service jwt a r), v)
              ] in
              out.1)
      second u (ok v) h = (store-Keeps r u).at v h
      second u (err e) h = Keeps-refl u

      first :
          (m : Result Error Tokens)
          → store a t ≡ m
          → Keeps t (
              let out : Result Error Pair × Tokens = elim m [
                | err e ↦ (err e, t)
                | ok u ↦ elim (store r u) [
                  | err e ↦ (err e, u)
                  | ok v ↦ (ok (pair_of service jwt a r), v)
                ]
              ] in
              out.1)
      first (ok u) h = Keeps-trans ((store-Keeps a t).at u h) (second u (store r u) refl)
      first (err e) h = Keeps-refl t

  pub issue_pair-Keeps :
      (subject aj rj : String) (now : ℕ) (t : Tokens)
      → Keeps t (issue_pair service jwt subject aj rj now t).1
  unfolding issue_pair
  issue_pair-Keeps subject aj rj now t = elim (Option-cases (lookup subject service.users)) [
    | inl absent ↦ rw (absent, issue_pair) (Keeps-refl t)
    | inr (user, found) ↦ rw (found, issue_pair) (store_pair-Keeps _ _ t)
  ]

  pub authenticate_password-Keeps :
      (verify : String → String → Bool) (name password aj rj : String) (now : ℕ) (t : Tokens)
      → Keeps t (authenticate_password service jwt verify name password aj rj now t).1
  unfolding authenticate_password
  authenticate_password-Keeps verify name password aj rj now t =
      elim (Option-cases (lookup name service.users)) [
        | inl absent ↦ rw (absent, authenticate_password) (Keeps-refl t)
        | inr (user, found) ↦
            rw (found, authenticate_password)
              (elim (Bool-cases (verify user.password_hash password)) [
                | inl good ↦ rw good (issue_pair-Keeps name aj rj now t)
                | inr bad ↦ rw bad (Keeps-refl t)
              ])
      ]

  pub mark_replaced-Keeps :
      (jti : String) (m : Result Error Pair × Tokens) → Keeps m.1 (mark_replaced jti m).1
  mark_replaced-Keeps jti (ok pair, t) = Keeps-update jti _ t (λ r x h e. e)
  mark_replaced-Keeps jti (err e, t) = Keeps-refl t

  -- Marking a token that is not revoked takes nothing away.
  mark_revoked-Keeps :
      (jti : String) (now : ℕ) (t : Tokens)
      → is_unrevoked (lookup jti t) ≡ true
      → Keeps t (mark_revoked jti now t)
  mark_revoked-Keeps jti now t free = Keeps-update jti _ t (λ r x h e. ground arith)

  rotate-Keeps :
      (c : Claims) (aj rj : String) (now : ℕ) (t : Tokens)
      → Keeps t (rotate service jwt c aj rj now t).1
  unfolding rotate
  rotate-Keeps c aj rj now t = elim (Bool-cases (is_unrevoked (lookup c.jti t))) [
    | inl free ↦ rw free (
        Keeps-trans (mark_revoked-Keeps c.jti now t free) (
          Keeps-trans (issue_pair-Keeps c.sub aj rj now (mark_revoked c.jti now t))
            (mark_replaced-Keeps c.jti _)))
    | inr spent ↦ rw spent (Keeps-refl t)
  ]

  -- A token that `_decode` accepts has a row that is not revoked.
  pub decode-unrevoked :
      (token type : String) (now : ℕ) (t : Tokens)
      → Ensures
          (λ c. (is_unrevoked (lookup c.jti t) ≡ true) × (decode_claims jwt token now ≡ ok c))
          (decode service jwt token type now t)
  unfolding decode
  decode-unrevoked token type now t = after_bind (decode_claims jwt token now) _ λ c hc.
      after_guard (c.typ == type) _ _ λ h1.
        after_or_raise (lookup c.sub service.users) _ _ λ user h2.
          after_guard (same_roles c.roles user.roles) _ _ λ h3.
            after_or_raise (find_token c.jti type t) _ _ λ row h4.
              after_guard (is_none row.revoked_at) _ _
                λ h5. returns c (unfold find_token in ground arith, hc)

  pub refresh-Keeps :
      (token aj rj : String) (now : ℕ) (t : Tokens)
      → Keeps t (refresh service jwt token aj rj now t).1
  unfolding refresh
  refresh-Keeps token aj rj now t = elim (Result-cases (decode service jwt token "refresh" now t)) [
    | inl (e, failed) ↦ rw (failed, refresh) (Keeps-refl t)
    | inr (c, accepted) ↦ rw (accepted, refresh) (rotate-Keeps c aj rj now t)
  ]

  pub revoke-Keeps :
      (token type : String) (now : ℕ) (t : Tokens) → Keeps t (revoke service jwt token type now t).1
  unfolding revoke
  revoke-Keeps token type now t = elim (Result-cases (decode service jwt token type now t)) [
    | inl (e, failed) ↦ rw (failed, revoke) (Keeps-refl t)
    | inr (c, accepted) ↦
        rw (accepted, revoke)
          (mark_revoked-Keeps c.jti now t ((decode-unrevoked token type now t).at c accepted).0)
  ]
