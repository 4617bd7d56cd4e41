-- ===== src/Context/Register.antt =====
-- `register` and `close`. `digest` is the hexadecimal SHA-256 of a text, `uuid` is `str(UUID(text))`
-- where the text is a UUID; tokens and readings of the clock in microseconds are arguments.
use owasp_llm_lab_setup_guid.Base.{
  ℕ, Bool, true, false, not, ◌&&◌, ◌||◌, Option, none, some, String, List, [], ◌∷◌, ◌++◌, ◌==◌,
  lookup, append, update, any, all, map, text_in, codes, length, is_blank, is_none, leb, nat_eq, ok,
  ◌>>=◌, ◌>>◌, guard, or_raise,
}
use owasp_llm_lab_setup_guid.Json.{Json, as_str, as_dict, as_list, get, has_exactly, to_list}
use owasp_llm_lab_setup_guid.Context.Rows.{
  Checked, refused, value_error, Execution, Identity, Document, State, Store, is_execution,
  is_identity,
}

-- `[a-zA-Z0-9_-]`
abbrev is_name_char : ℕ → Bool
is_name_char c =
    (leb b'a' c && leb c b'z')
    || (leb b'A' c && leb c b'Z')
    || (leb b'0' c && leb c b'9')
    || nat_eq c b'_'
    || nat_eq c b'-'

-- `identifier`
unfoldable pub identifier : Json → Checked String
unfolding all
identifier v = do
  s ← or_raise (as_str v) (refused 422)
  guard (all is_name_char (codes s) && leb 1 (length (codes s)) && leb (length (codes s)) 64)
      (refused 422)
  ok s

-- `bounded`
unfoldable pub bounded : ℕ → Json → Checked String
unfolding is_blank
bounded maximum v = do
  s ← or_raise (as_str v) (refused 422)
  guard (not (is_blank s) && leb (length (codes s)) maximum) (refused 422)
  ok s

-- A document without its suite, in the order of its columns.
unfoldable pub read_document : String → Json → Checked Document
unfolding has_exactly get identifier bounded
read_document suite_id v = do
  fs ← or_raise (as_dict v) (refused 422)
  guard (has_exactly ("document_id" ∷ "tenant" ∷ "text" ∷ []) fs) (refused 422)
  d ← or_raise (get "document_id" fs) (refused 422)
  t ← or_raise (get "tenant" fs) (refused 422)
  x ← or_raise (get "text" fs) (refused 422)
  document_id ← identifier d
  tenant ← identifier t
  text ← bounded 4000 x
  ok (record { suite_id = suite_id; document_id = document_id; tenant = tenant; text = text })

-- The loop of `register` over the documents, where `seen` has the identifiers before.
unfoldable pub read_documents : String → List String → List Json → Checked (List Document)
unfolding read_document text_in
read_documents suite_id seen [] = ok []
read_documents suite_id seen (v ∷ vs) = do
  document ← read_document suite_id v
  guard (not (text_in document.document_id seen)) (refused 422)
  rest ← read_documents suite_id (document.document_id ∷ seen) vs
  ok (document ∷ rest)

unfoldable pub distinct : List String → Bool
unfolding text_in
distinct [] = true
distinct (x ∷ xs) = not (text_in x xs) && distinct xs

-- `[str(UUID(value)) for value in values]`
unfoldable pub read_ids : (String → Option String) → List String → Checked (List String)
read_ids uuid [] = ok []
read_ids uuid (x ∷ xs) = do
  id ← or_raise (uuid x) value_error
  rest ← read_ids uuid xs
  ok (id ∷ rest)

-- The rows that `register` inserts.
abbrev pub new_execution : String → String → Execution
new_execution suite_id id = record {
  suite_id = suite_id;
  execution_id = id;
  subject = none;
  tenant = none;
  authorized = false;
}

abbrev pub new_identity : String → String → String → Identity
new_identity suite_id role token_digest = record {
  suite_id = suite_id;
  token_digest = token_digest;
  subject = role;
  tenant = "team-a";
  can_read = role == "reader";
}

module _ (digest : String → String) (uuid : String → Option String) (source_digest : String) where
  -- `register`: the suite and its time, with the tokens of the reader and of the visitor.
  unfoldable pub register :
      String
      → List String
      → Json
      → (reader visitor : String) → ℕ
      → Store
      → Checked ((String × ℕ) × Store)
  unfolding read_ids distinct read_documents any to_list
  register suite_text execution_texts documents reader visitor now s = do
    suite_id ← or_raise (uuid suite_text) value_error
    ids ← read_ids uuid execution_texts
    guard (leb 1 (length ids) && leb (length ids) 32 && distinct ids) (refused 422)
    items ← or_raise (as_list documents) (refused 422)
    let values = to_list items
    guard (leb 1 (length values) && leb (length values) 8) (refused 422)
    rows ← read_documents suite_id [] values
    guard (is_none (lookup suite_id s.suites)) (refused 409)
    guard (not (any (λ id. any (is_execution suite_id id) s.executions) ids)) (refused 409)
    guard
        (not (digest reader == digest visitor)
          && not (any (is_identity suite_id (digest reader)) s.identities)
          && not (any (is_identity suite_id (digest visitor)) s.identities))
        (refused 409)
    ok (
      (suite_id, now),
      record s {
        suites =
            append suite_id (record { created = now; closed = none; source_digest = source_digest })
              s.suites;
        executions = s.executions ++ map (new_execution suite_id) ids;
        identities =
            s.identities
            ++ (new_identity suite_id "reader" (digest reader)
                ∷ new_identity suite_id "visitor" (digest visitor)
                ∷ []);
        documents = s.documents ++ rows;
      },
    )

abbrev pub is_pending : State → Bool
is_pending x = elim x [ State.pending ↦ true | _ ↦ false ]

-- The time that an open suite closes at, or that it closed at.
abbrev pub closed_time : ℕ → Option ℕ → ℕ
closed_time now none = now
closed_time now (some t) = t

-- `close`
unfoldable pub close : (String → Option String) → String → ℕ → Store → Checked (ℕ × Store)
unfolding any
close uuid suite_text now s = do
  suite_id ← or_raise (uuid suite_text) value_error
  suite ← or_raise (lookup suite_id s.suites) (refused 404)
  guard (not (any (λ c. c.suite_id == suite_id && is_pending c.state) s.calls)) (refused 409)
  let closed = closed_time now suite.closed
  ok (
    closed,
    record s { suites = update suite_id (λ r. record r { closed = some closed }) s.suites },
  )
