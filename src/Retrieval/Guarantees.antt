-- ===== src/Retrieval/Guarantees.antt =====
-- What the application gateway grants: retrievals by the policy, and requests by their token.
use owasp_llm_lab_setup_guid.Base.{
  ℕ, ◌≡◌, refl, Bool, true, false, Option, none, some, String, List, ◌==◌, Table, lookup, subst,
  text_in, any, Bool-cases, eq_refl, inl, inr, [], ◌∷◌, Result, ok, err, is_ok, ◌>>=◌,
  if◌then◌else◌, arith, eq_iff,
}
use owasp_llm_lab_setup_guid.Base.Ensures.{Ensures, returns, after_or_raise, after_guard}
use owasp_llm_lab_setup_guid.Auth.Rows.{Claims, Jwt, Service}
use owasp_llm_lab_setup_guid.Auth.Operations.{Tokens, decode_claims, verify_access}
use owasp_llm_lab_setup_guid.Auth.Revocation.{RevokedAt}
use owasp_llm_lab_setup_guid.Auth.Rotation.{Request, run, revoked_refused}
use owasp_llm_lab_setup_guid.Retrieval.Policy.{
  Principal, principals, RagStore, rag_stores, after_space, header_text, resolve, authenticate,
  Classification, Refusal, Selection, shares, select_store, authorize_retrieval,
}

-- What the policy, the roles of the principal and the store of the classification permit.
pub record IsPermitted (policy : Table Classification) (principal : Principal)
    (classification purpose : String) (s : Selection) : Type 0 where
  pub entry : Classification
  pub store : RagStore
  pub listed : lookup classification policy ≡ some entry
  pub stored : lookup classification rag_stores ≡ some store
  pub required : List String
  pub purposes : List String
  pub requires : entry.required_roles ≡ some required
  pub allows : entry.allowed_purposes ≡ some purposes
  pub role : shares principal.roles required ≡ true
  pub allowed : text_in purpose purposes ≡ true
  pub matching : purpose ≡ store.purpose
  pub suffixes : s.allowed_source_suffixes ≡ store.allowed_source_suffixes
  pub exact : s.exact_value_required ≡ store.exact_value_required

select_store-IsPermitted :
    (policy : Table Classification) (principal : Principal) (classification purpose : String)
    → Ensures
        (IsPermitted policy principal classification purpose)
        (select_store policy principal classification purpose)
unfolding select_store
select_store-IsPermitted policy principal classification purpose =
    after_or_raise (lookup classification policy) _ _ λ entry he.
      after_or_raise entry.required_roles _ _ λ required hr.
        after_guard (shares principal.roles required) _ _ λ role.
          after_or_raise entry.allowed_purposes _ _ λ purposes hp.
            after_guard (text_in purpose purposes) _ _ λ allowed.
              after_or_raise (lookup classification rag_stores) _ _ λ store hs.
                after_guard (purpose == store.purpose) _ _ λ same. returns _ (record {
                  entry = entry;
                  store = store;
                  listed = he;
                  stored = hs;
                  required = required;
                  purposes = purposes;
                  requires = hr;
                  allows = hp;
                  role = role;
                  allowed = allowed;
                  matching = (eq_iff purpose store.purpose).0 same;
                  suffixes = refl;
                  exact = refl;
                })

selected :
    (s : Selection) (b : Bool) (m : Result Refusal Selection)
    → (if b then ok none else (m >>= λ r. ok (some r))) ≡ ok (some s)
    → m ≡ ok s
selected s true m h = absurd (ground arith)
selected s false (ok r) h = ground arith
selected s false (err e) h = absurd (ground arith)

-- A retrieval that is authorized is permitted: the classification is listed, the principal has one of
-- its roles, the purpose is allowed for it and is that of its store, and the sources are the store's.
pub authorize_retrieval-IsPermitted :
    (policy : Table Classification) (principal : Principal) (classification purpose : String)
    (s : Selection)
    → authorize_retrieval policy principal classification purpose ≡ ok (some s)
    → IsPermitted policy principal classification purpose s
unfolding authorize_retrieval
authorize_retrieval-IsPermitted policy principal classification purpose s h =
    (select_store-IsPermitted policy principal classification purpose).at s (
      selected s (classification == "none") (select_store policy principal classification purpose)
        h)

-- Every entry of the first list, where there is one, is an entry of the second.
abbrev pub Within : Option (List String) → Option (List String) → Type 0
Within none ys = Unit
Within (some xs) none = ⊥
Within (some xs) (some ys) = (x : String) → text_in x xs ≡ true → text_in x ys ≡ true

-- An entry of the first policy for the classification has one in the second which accepts all its
-- roles and allows all its purposes.
abbrev pub Widens : String → Table Classification → Table Classification → Type 0
Widens classification policy policy' =
    (entry : Classification)
    → lookup classification policy ≡ some entry
    → (entry' : Classification) × (lookup classification policy' ≡ some entry')
      × Within entry.required_roles entry'.required_roles
      × Within entry.allowed_purposes entry'.allowed_purposes

-- A role that two lists share, as a member of both.
abbrev Common : List String → List String → Type 0
Common xs ys = (r : String) × (text_in r xs ≡ true) × (text_in r ys ≡ true)

shares-Common : (xs ys : List String) → shares xs ys ≡ true → Common xs ys
unfolding shares any text_in
shares-Common [] ys h = absurd (ground arith)
shares-Common (x ∷ xs) ys h = elim (Bool-cases (text_in x ys)) [
  | inl here ↦ (x, ground (arith, eq_refl x), here)
  | inr other ↦ let (r, a, b) = shares-Common xs ys (ground arith) in (r, ground arith, b)
]

Common-shares :
    (r : String) (xs ys : List String)
    → text_in r xs ≡ true
    → text_in r ys ≡ true
    → shares xs ys ≡ true
unfolding shares any text_in
Common-shares r [] ys a b = absurd (ground arith)
Common-shares r (x ∷ xs) ys a b = ground (arith, eq_iff r x, eq_iff x r, Common-shares r xs ys)

within :
    (xs : List String) (o : Option (List String))
    → Within (some xs) o
    → (ys : List String) × (o ≡ some ys)
      × ((x : String) → text_in x xs ≡ true → text_in x ys ≡ true)
within xs none w = absurd w
within xs (some ys) w = (ys, refl, w)

-- What the store gives for the classification.
abbrev of_store : String → String → RagStore → Selection
of_store classification purpose store = record {
  classification = classification;
  purpose = purpose;
  allowed_source_suffixes = store.allowed_source_suffixes;
  exact_value_required = store.exact_value_required;
}

-- What is permitted is selected.
select_permitted :
    (policy : Table Classification) (principal : Principal) (classification purpose : String)
    (s : Selection) (p : IsPermitted policy principal classification purpose s)
    → select_store policy principal classification purpose
      ≡ ok (of_store classification purpose p.store)
unfolding select_store
select_permitted policy principal classification purpose s p = ground (
  arith,
  p.listed,
  p.stored,
  p.requires,
  p.allows,
  p.role,
  p.allowed,
  p.matching,
  eq_iff purpose p.store.purpose,
)

-- What is permitted stays so with more roles and under a wider policy.
widened :
    (policy policy' : Table Classification) (principal principal' : Principal)
    (classification purpose : String) (s : Selection)
    → ((r : String) → text_in r principal.roles ≡ true → text_in r principal'.roles ≡ true)
    → Widens classification policy policy'
    → IsPermitted policy principal classification purpose s
    → IsPermitted policy' principal' classification purpose s
widened policy policy' principal principal' classification purpose s more wide p =
    let (entry, listed, roles, purposes) = wide p.entry p.listed in
    let (required, requires, in_required) =
      within p.required entry.required_roles
        (subst (λ o. Within o entry.required_roles) p.requires roles) in
    let (allowed, allows, in_allowed) =
      within p.purposes entry.allowed_purposes
        (subst (λ o. Within o entry.allowed_purposes) p.allows purposes) in
    let (r, held, wanted) = shares-Common principal.roles p.required p.role in
    record {
      entry = entry;
      store = p.store;
      listed = listed;
      stored = p.stored;
      required = required;
      purposes = allowed;
      requires = requires;
      allows = allows;
      role = Common-shares r principal'.roles required (more r held) (in_required r wanted);
      allowed = in_allowed purpose p.allowed;
      matching = p.matching;
      suffixes = p.suffixes;
      exact = p.exact;
    }

-- More rights never take a retrieval away: what is authorized for a principal under a policy is
-- authorized, with the same selection, for a principal who has all its roles and maybe more, under a
-- policy which for the classification accepts at least the same roles and allows at least the same
-- purposes.
pub authorize_wider :
    (policy policy' : Table Classification) (principal principal' : Principal)
    (classification purpose : String) (s : Selection)
    → authorize_retrieval policy principal classification purpose ≡ ok (some s)
    → ((r : String) → text_in r principal.roles ≡ true → text_in r principal'.roles ≡ true)
    → Widens classification policy policy'
    → authorize_retrieval policy' principal' classification purpose ≡ ok (some s)
unfolding authorize_retrieval
authorize_wider policy policy' principal principal' classification purpose s h more wide =
    let p = authorize_retrieval-IsPermitted policy principal classification purpose s h in
    let q = widened policy policy' principal principal' classification purpose s more wide p in
    ground (
      arith,
      select_permitted policy principal classification purpose s p,
      select_permitted policy' principal' classification purpose s q,
    )

-- A revoked token is refused at the gateway: once the row of a token is revoked, no request with the
-- token is authenticated, whatever logins, refreshes and revocations come between, where the token is
-- none of the static ones.
pub authenticate_revoked :
    (service : Service) (jwt : Jwt) (verify : String → String → Bool) (jti : String) (x : ℕ)
    (t : Tokens)
    → RevokedAt jti x t
    → (rs : List Request) (legacy : Bool) (header : Option String) (later : ℕ) (c : Claims)
    → decode_claims jwt (after_space (header_text header)) later ≡ ok c
    → c.jti ≡ jti
    → lookup (after_space (header_text header)) principals ≡ none
    → is_ok (authenticate service jwt legacy header later (run service jwt verify rs t)) ≡ false
unfolding authenticate resolve verify_access
authenticate_revoked service jwt verify jti x t h rs legacy header later c hc same unknown =
    let refused =
      revoked_refused service jwt verify jti x t h rs (after_space (header_text header)) "access"
        later c hc same in
    ground arith
