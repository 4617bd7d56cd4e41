-- ===== src/Guardrail/Audit.antt =====
-- `policy_audit` and `read` of `GuardrailLedger` in p04_ledger.py.
use owasp_llm_lab_setup_guid.Base.{
  ℕ, ◌+◌, Bool, true, false, ◌&&◌, not, Option, none, some, String, ◌==◌, List, [], ◌∷◌, ok, err,
  guard, or_raise, ◌>>=◌, ◌>>◌, ltb, leb, nat_eq, if◌then◌else◌, is_some, is_none, lookup, append,
  text_in, codes, length, is_ascii, Table,
}
use owasp_llm_lab_setup_guid.Json.{
  Json, as_str, as_dict, as_list, as_micros, get, to_list, canonical,
}
use owasp_llm_lab_setup_guid.Clock.{Checked, refused, Reading, seconds}
use owasp_llm_lab_setup_guid.Guardrail.Rows.{
  Execution, Call, Ledger, Phase, before, after, AuditRequest,
}
use owasp_llm_lab_setup_guid.Guardrail.Operations.{
  find_execution, find_pending, encoded, same_text?,
}

-- Every failure of `policy_audit` but an unknown execution has one status.
abbrev reject {ℓ} : {A : Type ℓ} → Option A → Checked A
reject o = or_raise o (refused 409)

-- `phase not in ('before', 'after')`
abbrev pub read_phase : String → Option Phase
read_phase s = if s == "before" then some before else if s == "after" then some after else none

-- One of the identifiers of the receipt: an ASCII text of 1 to 256 characters.
unfoldable pub checked_id : Json → Checked String
checked_id v = do
  s ← reject (as_str v)
  guard (is_ascii s && leb 1 (length (codes s)) && leb (length (codes s)) 256) (refused 409)
  ok s

unfoldable pub checked_ids : List Json → Checked (List String)
unfolding checked_id
checked_ids [] = ok []
checked_ids (v ∷ vs) = do s ← checked_id v; rest ← checked_ids vs; ok (s ∷ rest)

-- `len(set(ids)) == len(ids)`
unfoldable pub distinct : List String → Bool
unfolding text_in
distinct [] = true
distinct (x ∷ xs) = not (text_in x xs) && distinct xs

-- What the tests of the receipt alone leave for those of the ledger. `resources` is looked up by those.
pub record Evidence : Type 0 where
  pub raw : String
  pub ids : List String
  pub started : ℕ
  pub observed : ℕ
  pub resources : Option Json

-- The tests of the receipt alone. The texts of `scope` and of the times are looked up in turn.
unfoldable pub read_receipt : Json → Checked Evidence
unfolding checked_ids distinct encoded to_list
read_receipt receipt = do
  fs ← reject (as_dict receipt)
  raw ← encoded receipt 16384 409
  listed ← reject (get "aws_request_ids" fs)
  started_value ← reject (get "started_at" fs)
  observed_value ← reject (get "observed_at" fs)
  scope ← reject (get "scope" fs)
  guard (same_text? "aws-policy-audit" (as_str scope)) (refused 409)
  started ← reject (as_micros started_value)
  observed ← reject (as_micros observed_value)
  guard (ltb 0 started && leb started observed && ltb observed (started + seconds 12)) (refused 409)
  items ← reject (as_list listed)
  guard (nat_eq (length (to_list items)) 3) (refused 409)
  ids ← checked_ids (to_list items)
  guard (distinct ids) (refused 409)
  ok (record {
    raw = raw;
    ids = ids;
    started = started;
    observed = observed;
    resources = get "resources" fs;
  })

-- `value > dispatched_at`, where NULL was ruled out before.
abbrev dispatched_by : ℕ → Option ℕ → Bool
dispatched_by t none = false
dispatched_by t (some d) = leb d t

-- The order of the two audits around the dispatch of the call.
unfoldable pub fits_phase : Phase → Call → Bool → ℕ → Bool
fits_phase before c seen started = is_none c.dispatched_at
fits_phase after c seen started = seen && dispatched_by started c.dispatched_at

-- `INSERT INTO p04_policy_audit_requests` for each identifier; a known one is an IntegrityError.
unfoldable pub insert_ids :
    List String → AuditRequest → Table AuditRequest → Checked (Table AuditRequest)
insert_ids [] r t = ok t
insert_ids (id ∷ ids) r t =
    let rest = insert_ids ids r (append id r t) in
    if is_some (lookup id t) then err (refused 409) else rest

-- `INSERT INTO p04_policy_audits`
unfoldable pub insert_audit : String → Phase → String → Ledger → Checked Ledger
insert_audit id before raw l =
    if is_some (lookup id l.before_audits)
    then err (refused 409)
    else ok (record l { before_audits = append id raw l.before_audits })
insert_audit id after raw l =
    if is_some (lookup id l.after_audits)
    then err (refused 409)
    else ok (record l { after_audits = append id raw l.after_audits })

module _ (sha256 : String → String) where
  -- `hashlib.sha256(canonical(receipt['resources'])).hexdigest() == resource_digest`
  unfoldable pub same_resources : Json → Execution → Bool
  same_resources resources e = elim (canonical resources) [
    | none ↦ false
    | some raw ↦ sha256 raw == e.resource_digest
  ]

  unfoldable pub policy_audit :
      String → String → Json → Reading → Ledger → Checked (Unit {0} × Ledger)
  unfolding read_receipt find_pending find_execution same_resources fits_phase insert_audit
      insert_ids
  policy_audit id phase_name receipt now l = do
    phase ← reject (read_phase phase_name)
    r ← read_receipt receipt
    (c, t) ← find_pending id now l
    e ← find_execution id l
    guard (e.provider_mode == "aws") (refused 409)
    resources ← reject r.resources
    guard (same_resources resources e) (refused 409)
    guard (leb c.started_at r.started && leb r.started r.observed && leb r.observed t) (refused 409)
    guard (fits_phase phase c (is_some (lookup id l.before_audits)) r.started) (refused 409)
    l' ← insert_audit id phase r.raw l
    requests ← insert_ids r.ids (record { execution_id = id; phase = phase }) l'.audit_requests
    ok (tt, record l' { audit_requests = requests })

-- What `read` returns, with the texts of the stored documents as they are. A call and its
-- receipts are those of this execution; the capability's digest is taken out.
pub record View : Type 0 where
  pub suite_id : String
  pub source_digest : String
  pub runner_digest : String
  pub resource_digest : String
  pub provider_mode : String
  pub body_json : String
  pub guardrail_json : String
  pub started_at : ℕ
  pub closed_at : Option ℕ
  pub closed : Bool
  pub call : Option Call
  pub before_audit : Option String
  pub after_audit : Option String

unfoldable pub read : String → Ledger → Checked View
unfolding find_execution
read id l = do
  e ← find_execution id l
  ok (record {
    suite_id = e.suite_id;
    source_digest = e.source_digest;
    runner_digest = e.runner_digest;
    resource_digest = e.resource_digest;
    provider_mode = e.provider_mode;
    body_json = e.body_json;
    guardrail_json = e.guardrail_json;
    started_at = e.started_at;
    closed_at = e.closed_at;
    closed = is_some e.closed_at;
    call = lookup id l.calls;
    before_audit = lookup id l.before_audits;
    after_audit = lookup id l.after_audits;
  })
