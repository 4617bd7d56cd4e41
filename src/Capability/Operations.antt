-- ===== src/Capability/Operations.antt =====
-- The operations of `CapabilityStore` but `complete`. `sha256` is the hexadecimal digest of
-- `hashlib`, and `parse_uuid` is `str(UUID(value))`, which is none where that raises. The drawn
-- tokens are an argument: the n-th grant of an `issue` gets `draw n`.
use Prim.Native.String.{◌++◌}
use owasp_llm_lab_setup_guid.Base.{
  ℕ, ◌+◌, Bool, true, false, ◌&&◌, not, Option, none, some, String, ◌==◌, List, [], ◌∷◌, ok, guard,
  or_raise, ◌>>=◌, ◌>>◌, ltb, leb, if◌then◌else◌, is_none, lookup, append, update, update_where,
  exists, text_in, codes, length, is_sha256_hex, Table,
}
use owasp_llm_lab_setup_guid.Json.{Json, as_str}
use owasp_llm_lab_setup_guid.Clock.{Checked, refused, window}
use owasp_llm_lab_setup_guid.Capability.Rows.{
  State, issued, reserved, completed, error, closed_unused, Suite, Grant, Store, roles,
}

abbrev pub model_id : String
model_id = "us.amazon.nova-lite-v1:0"

-- `MARKERS[role]`
abbrev pub marker : String → String
marker role = model_id ++ "#p12-" ++ role

abbrev pub is_issued : State → Bool
is_issued issued = true
is_issued reserved = false
is_issued completed = false
is_issued error = false
is_issued closed_unused = false

abbrev pub is_reserved : State → Bool
is_reserved issued = false
is_reserved reserved = true
is_reserved completed = false
is_reserved error = false
is_reserved closed_unused = false

-- One entry of the list that `issue` returns.
pub record Handout : Type 0 where
  pub execution_id : String
  pub role : String
  pub model : String
  pub capability : String
  pub expires_at : ℕ

unfoldable pub distinct : List String → Bool
unfolding text_in
distinct [] = true
distinct (x ∷ xs) = not (text_in x xs) && distinct xs

-- `[(execution, role) for execution in ids for role in ROLES]`
unfoldable pub with_roles : String → List String → List (String × String) → List (String × String)
with_roles execution [] rest = rest
with_roles execution (r ∷ rs) rest = (execution, r) ∷ with_roles execution rs rest

unfoldable pub slots : List String → List (String × String)
unfolding with_roles
slots [] = []
slots (e ∷ es) = with_roles e roles (slots es)

module _ (sha256 : String → String) (parse_uuid : Json → Option String) where
  unfoldable pub parse_ids : List Json → Checked (List String)
  parse_ids [] = ok []
  parse_ids (v ∷ vs) = do
    id ← or_raise (parse_uuid v) (refused 422)
    rest ← parse_ids vs
    ok (id ∷ rest)

  abbrev pub new_grant : String → String → String → ℕ → Grant
  new_grant suite execution role created = record {
    suite_id = suite;
    execution_id = execution;
    role = role;
    model = marker role;
    issued_at = created;
    expires = created + window;
    state = issued;
    reserved_at = none;
    finished = none;
    request_digest = none;
    evidence = none;
  }

  -- The `UNIQUE(suite_id, execution_id, role)` of p12_grants.
  abbrev pub same_slot : String → String → String → Grant → Bool
  same_slot suite execution role g =
      g.suite_id == suite && g.execution_id == execution && g.role == role

  -- The inserts of `issue`, one for each slot; a repeated key is an IntegrityError.
  unfoldable pub insert_grants :
      (ℕ → String)
      → ℕ
      → String
      → ℕ
      → List (String × String)
      → Table Grant
      → Checked (List Handout × Table Grant)
  insert_grants draw n suite created [] t = ok ([], t)
  insert_grants draw n suite created ((execution, role) ∷ rest) t = do
    let key = sha256 (draw n)
    guard (is_none (lookup key t)) (refused 409)
    guard (not (exists (same_slot suite execution role) t)) (refused 409)
    (more, t') ←
        insert_grants draw (n + 1) suite created rest
          (append key (new_grant suite execution role created) t)
    ok (
      record {
        execution_id = execution;
        role = role;
        model = marker role;
        capability = draw n;
        expires_at = created + window;
      }
          ∷ more,
      t',
    )

  -- `issue`
  unfoldable pub issue :
      Json → List Json → (ℕ → String) → ℕ → Store → Checked ((ℕ × List Handout) × Store)
  unfolding parse_ids insert_grants slots distinct
  issue suite_id execution_ids draw created s = do
    suite ← or_raise (parse_uuid suite_id) (refused 422)
    ids ← parse_ids execution_ids
    guard (leb 1 (length ids) && leb (length ids) 32 && distinct ids) (refused 422)
    guard (is_none (lookup suite s.suites)) (refused 409)
    (handouts, grants) ← insert_grants draw 0 suite created (slots ids) s.grants
    ok (
      (created, handouts),
      record s {
        suites = append suite (record { created = created; closed = none }) s.suites;
        grants = grants;
      },
    )

-- The tests of the token and of the request's digest.
unfoldable pub checked_binding : Json → Json → Checked (String × String)
checked_binding token request = do
  secret ← or_raise (as_str token) (refused 401)
  guard (leb 40 (length (codes secret)) && leb (length (codes secret)) 256) (refused 401)
  d ← or_raise (as_str request) (refused 401)
  guard (is_sha256_hex d) (refused 401)
  ok (secret, d)

-- The four columns that a capability is bound to.
unfoldable pub in_scope : Grant → String → String → String → String → Bool
in_scope g suite execution role model =
    g.suite_id == suite && g.execution_id == execution && g.role == role && g.model == model

-- What `reserve` returns.
pub record Binding : Type 0 where
  pub token_digest : String
  pub bound_request : String

module _ (sha256 : String → String) where
  -- `reserve`; the inner join wants the grant and its suite.
  unfoldable pub reserve :
      Json → (suite execution role model : String) → Json → ℕ → Store → Checked (Binding × Store)
  unfolding checked_binding in_scope
  reserve token suite execution role model request current s = do
    (secret, d) ← checked_binding token request
    g ← or_raise (lookup (sha256 secret) s.grants) (refused 401)
    parent ← or_raise (lookup g.suite_id s.suites) (refused 401)
    guard (in_scope g suite execution role model) (refused 403)
    guard (is_none parent.closed && is_issued g.state) (refused 409)
    guard (leb g.issued_at current && ltb current g.expires) (refused 403)
    ok (
      record { token_digest = sha256 secret; bound_request = d },
      record s {
        grants =
            update (sha256 secret)
              (λ r. record r {
                state = reserved;
                reserved_at = some current;
                request_digest = some d;
              })
              s.grants;
      },
    )

  -- `fail`
  unfoldable pub fail : String → ℕ → Store → Checked (Unit {0} × Store)
  fail token current s = do
    g ← or_raise (lookup (sha256 token) s.grants) (refused 409)
    guard (is_reserved g.state) (refused 409)
    ok (
      tt,
      record s {
        grants =
            update (sha256 token) (λ r. record r { state = error; finished = some current })
              s.grants;
      },
    )

abbrev pub unused_in : String → Grant → Bool
unused_in suite g = g.suite_id == suite && is_issued g.state

abbrev pub busy_in : String → Grant → Bool
busy_in suite g = g.suite_id == suite && is_reserved g.state

abbrev pub retire : Grant → Grant
retire g = record g { state = closed_unused }

-- `suite["closed"] if suite["closed"] is not None else self.now()`
abbrev pub close_time : Option ℕ → ℕ → ℕ
close_time none current = current
close_time (some t) current = t

-- `close`
unfoldable pub close : String → ℕ → Store → Checked (ℕ × Store)
close suite current s = do
  parent ← or_raise (lookup suite s.suites) (refused 404)
  guard (not (exists (busy_in suite) s.grants)) (refused 409)
  ok (
    close_time parent.closed current,
    record s {
      suites =
          update suite (λ r. record r { closed = some (close_time parent.closed current) })
            s.suites;
      grants = update_where (unused_in suite) retire s.grants;
    },
  )

-- The grants of a suite, as `ledger` lists them, in the order of their insertion.
unfoldable pub grants_of : String → Table Grant → List (String × Grant)
grants_of suite [] = []
grants_of suite ((k, g) ∷ t) =
    let rest = grants_of suite t in if g.suite_id == suite then (k, g) ∷ rest else rest

-- `ledger`
unfoldable pub ledger : String → Store → Checked (Suite × List (String × Grant))
unfolding grants_of
ledger suite s = do
  parent ← or_raise (lookup suite s.suites) (refused 404)
  ok (parent, grants_of suite s.grants)
