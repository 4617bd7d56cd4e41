-- ===== src/Context/Granted.antt =====
-- Which executions are authorized, through the steps of the store.
use owasp_llm_lab_setup_guid.Base.{
  ◌≡◌, ◌∙◌, refl, Bool, true, false, not, Option, none, some, String, List, [], ◌∷◌, ◌++◌, ◌==◌,
  all, map, if◌then◌else◌, arith, Bool-cases, inl, inr,
}
use owasp_llm_lab_setup_guid.Base.Finds.{find}
use owasp_llm_lab_setup_guid.Context.Rows.{
  authenticate, Execution, Identity, Call, Store, is_execution, is_identity, is_call,
}
use owasp_llm_lab_setup_guid.Context.Register.{is_pending, new_execution, new_identity}

-- Only the reader may read.
abbrev pub is_honest : Identity → Bool
is_honest i = if i.can_read then i.subject == "reader" else not (i.subject == "reader")

-- The identity with the subject, whose token the execution presented in a call that is settled.
pub record Known (s : Store) (e : Execution) (subject : String) : Type 0 where
  pub identity : Identity
  pub call : Call
  pub found : find (is_identity e.suite_id identity.token_digest) s.identities ≡ some identity
  pub named : identity.subject ≡ subject
  pub tenant : e.tenant ≡ some identity.tenant
  pub called : find (is_call e.suite_id e.execution_id authenticate) s.calls ≡ some call
  pub presented : call.input_digest ≡ identity.token_digest
  pub settled : is_pending call.state ≡ false

pub record Fits (s : Store) (e : Execution) : Type 0 where
  pub known : (x : String) → e.subject ≡ some x → Known s e x
  pub granted : e.authorized ≡ true → e.subject ≡ some "reader"

-- Every subject of an execution is one whose token it presented, and every execution that is
-- authorized is the reader's.
pub record IsGranted (s : Store) : Type 0 where
  pub honest : all is_honest s.identities ≡ true
  pub executions :
      (suite_id id : String) (e : Execution)
      → find (is_execution suite_id id) s.executions ≡ some e
      → Fits s e

-- The call that comes from another: its input is the same, and it is settled where that is.
pub record Follows (c : Call) (o : Option Call) : Type 0 where
  pub next : Call
  pub found : o ≡ some next
  pub input : next.input_digest ≡ c.input_digest
  pub settled : is_pending c.state ≡ false → is_pending next.state ≡ false

-- What a step takes from no execution: an identity, and a call of authentication.
pub record Grows (s s' : Store) : Type 0 where
  pub identities :
      (suite_id d : String) (i : Identity)
      → find (is_identity suite_id d) s.identities ≡ some i
      → find (is_identity suite_id d) s'.identities ≡ some i
  pub calls :
      (suite_id id : String) (c : Call)
      → find (is_call suite_id id authenticate) s.calls ≡ some c
      → Follows c (find (is_call suite_id id authenticate) s'.calls)

pub grown-Fits : (s s' : Store) (e : Execution) → Grows s s' → Fits s e → Fits s' e
grown-Fits s s' e g v = record {
  known = λ x h.
      let k = v.known x h in
      let n = g.calls e.suite_id e.execution_id k.call k.called in
      record {
        identity = k.identity;
        call = n.next;
        found = g.identities e.suite_id k.identity.token_digest k.identity k.found;
        named = k.named;
        tenant = k.tenant;
        called = n.found;
        presented = n.input ∙ k.presented;
        settled = n.settled k.settled;
      };
  granted = v.granted;
}

pub same_calls : (c : Call) (o : Option Call) → o ≡ some c → Follows c o
same_calls c o h = record { next = c; found = h; input = refl; settled = λ k. k }

-- An execution that `register` stores.
pub new_executions :
    (p : Execution → Bool) (suite_id : String) (ids : List String) (e : Execution)
    → find p (map (new_execution suite_id) ids) ≡ some e
    → (e.subject ≡ none) × (e.authorized ≡ false)
unfolding find
new_executions p suite_id [] e h = absurd (ground arith)
new_executions p suite_id (x ∷ xs) e h = elim (Bool-cases (p (new_execution suite_id x))) [
  | inl here ↦ ground arith
  | inr later ↦ new_executions p suite_id xs e (ground arith)
]

pub blank-Fits : (s : Store) (e : Execution) → e.subject ≡ none → e.authorized ≡ false → Fits s e
blank-Fits s e h k = record {
  known = λ x j. absurd (ground arith);
  granted = λ j. absurd (ground arith);
}

pub honest_more :
    (suite_id a b : String) (xs : List Identity)
    → all is_honest xs ≡ true
    → all is_honest
        (xs ++ (new_identity suite_id "reader" a ∷ new_identity suite_id "visitor" b ∷ []))
      ≡ true
unfolding all
honest_more suite_id a b [] h = refl
honest_more suite_id a b (x ∷ xs) h = ground (arith, honest_more suite_id a b xs)
