-- ===== src/Approval/Evidence.antt =====
-- The requests that `ApprovalStore` answers, and those that its rows are evidence of.
use owasp_llm_lab_setup_guid.Base.{
  ℕ, ◌+◌, ◌<◌, ◌≡◌, ◌≢◌, ◌⊎◌, refl, subst, Bool, true, false, Option, none, some, String, List, [],
  ◌∷◌, ◌==◌, Table, lookup, ok, arith, eq_iff, Bool-cases, inl, inr,
}
use owasp_llm_lab_setup_guid.Json.{Json, Fields, null, bool, int, float, not_finite, str, arr, obj}
use owasp_llm_lab_setup_guid.Approval.Store.{
  Credential, State, pending, approved, denied, consumed, Approval, Store, is_pending, is_approved,
  payload_of, as_bool, actor,
}

-- One call of a method that writes.
pub data Request : Type 0 where
  proposing : String → Fields → String → ℕ → Request
  reviewing : String → String → Json → ℕ → Request
  executing : String → String → Fields → ℕ → Request

-- One of the requests is as told.
abbrev pub Among : (Request → Type 0) → List Request → Type 0
Among P [] = ⊥
Among P (q ∷ log) = P q ⊎ Among P log

-- The requests so far, the last one first, after the new ones.
unfoldable pub past : List Request → List Request → List Request
past [] log = log
past (r ∷ rs) log = past rs (r ∷ log)

module _ (sha256 : String → String) (credentials : Table Credential) where
  -- The request proposed the approval: its requester, with that role, gave an action with the text,
  -- five minutes before it expires.
  abbrev pub Proposes : String → Approval → Request → Type 0
  Proposes id r (proposing token action identifier now) =
      (identifier ≡ id)
      × (actor sha256 credentials token ≡ ok (r.requester, "requester"))
      × ((notice : String) × (payload_of action ≡ ok (r.payload, notice)))
      × (r.expires ≡ now + 300000000)
  Proposes id r (reviewing token identifier approve now) = ⊥
  Proposes id r (executing token identifier action now) = ⊥

  -- The request decided on the approval: its reviewer, with that role and another person than its
  -- requester, gave the answer before it expired.
  abbrev pub Decides : Bool → String → Approval → Request → Type 0
  Decides answer id r (proposing token action identifier now) = ⊥
  Decides answer id r (reviewing token identifier approve now) =
      (identifier ≡ id)
      × (approve ≡ bool answer)
      × ((subject : String) × (actor sha256 credentials token ≡ ok (subject, "reviewer"))
          × (r.reviewer ≡ some subject)
          × (subject ≢ r.requester))
      × (now < r.expires)
  Decides answer id r (executing token identifier action now) = ⊥

  -- The request executed the approval: its requester, with that role, gave an action with its text
  -- and the notice before it expired.
  abbrev pub Executes : String → Approval → String → Request → Type 0
  Executes id r notice (proposing token action identifier now) = ⊥
  Executes id r notice (reviewing token identifier approve now) = ⊥
  Executes id r notice (executing token identifier action now) =
      (identifier ≡ id)
      × (actor sha256 credentials token ≡ ok (r.requester, "requester"))
      × (payload_of action ≡ ok (r.payload, notice))
      × (now < r.expires)

  -- What goes with each state of an approval, where `e` is the effect of its execution.
  abbrev pub StateFits : List Request → String → State → Approval → Option String → Type 0
  StateFits log id pending r e = e ≡ none
  StateFits log id approved r e = (e ≡ none) × Among (Decides true id r) log
  StateFits log id denied r e = (e ≡ none) × Among (Decides false id r) log
  StateFits log id consumed r e =
      ((notice : String) × (e ≡ some notice) × Among (Executes id r notice) log)
      × Among (Decides true id r) log

  abbrev pub RowsFit : List Request → String → Option Approval → Option String → Type 0
  RowsFit log id none none = Unit
  RowsFit log id none (some n) = ⊥
  RowsFit log id (some r) e = StateFits log id r.state r e × Among (Proposes id r) log

  -- The requests so far account for every row: each approval was proposed, each decided one was
  -- approved or denied by another person as its state says, and every effect is that of an approval
  -- which was approved, and which its requester executed.
  pub record IsReviewed (log : List Request) (s : Store) : Type 0 where
    pub rows : (id : String) → RowsFit log id (lookup id s.approvals) (lookup id s.effects)

  state_later :
      (q : Request) (log : List Request) (id : String) (x : State) (r : Approval)
      (e : Option String)
      → StateFits log id x r e
      → StateFits (q ∷ log) id x r e
  state_later q log id pending r e h = h
  state_later q log id approved r e (h, a) = (h, inr a)
  state_later q log id denied r e (h, a) = (h, inr a)
  state_later q log id consumed r e ((n, h, x), a) = ((n, h, inr x), inr a)

  -- What fits the requests so far fits with one more.
  pub fits_later :
      (q : Request) (log : List Request) (id : String) (o : Option Approval) (e : Option String)
      → RowsFit log id o e
      → RowsFit (q ∷ log) id o e
  fits_later q log id none none h = tt
  fits_later q log id none (some n) h = h
  fits_later q log id (some r) e (h, p) = (state_later q log id r.state r e h, inr p)

  pub IsReviewed-later :
      (q : Request) (log : List Request) (s : Store) → IsReviewed log s → IsReviewed (q ∷ log) s
  IsReviewed-later q log s v = record {
    rows = λ id. fits_later q log id (lookup id s.approvals) (lookup id s.effects) (v.rows id);
  }

  -- A store that differs from another in the rows of one identifier, which fit.
  pub changed :
      (q : Request) (log : List Request) (id : String) (s s' : Store)
      → IsReviewed log s
      → RowsFit (q ∷ log) id (lookup id s'.approvals) (lookup id s'.effects)
      → ((j : String)
          → id ≢ j
          → (lookup j s'.approvals ≡ lookup j s.approvals)
            × (lookup j s'.effects ≡ lookup j s.effects))
      → IsReviewed (q ∷ log) s'
  changed q log id s s' v fits same = record { rows = λ j. decided j (Bool-cases (id == j)) }
    where
      decided :
          (j : String)
          → ((id == j) ≡ true) ⊎ ((id == j) ≡ false)
          → RowsFit (q ∷ log) j (lookup j s'.approvals) (lookup j s'.effects)
      decided j (inl here) =
          subst (λ x. RowsFit (q ∷ log) x (lookup x s'.approvals) (lookup x s'.effects))
            ((eq_iff id j).0 here) fits
      decided j (inr other) =
          let (a, e) = same j (ground (arith, eq_iff id j)) in
          rw (a, e) ((IsReviewed-later q log s v).rows j)

  pub pending_alone :
      (log : List Request) (id : String) (r : Approval) (e : Option String)
      → RowsFit log id (some r) e
      → is_pending r.state ≡ true
      → e ≡ none
  pending_alone log id r e h p = alone r.state h.0 p
    where
      alone : (x : State) → StateFits log id x r e → is_pending x ≡ true → e ≡ none
      alone pending h p = h
      alone approved h p = h.0
      alone denied h p = h.0
      alone consumed h p = absurd (ground arith)

  pub no_approval :
      (log : List Request) (id : String) (e : Option String) → RowsFit log id none e → e ≡ none
  no_approval log id none h = refl
  no_approval log id (some n) h = absurd h

  -- An approved row was approved by another person.
  pub approved_by :
      (log : List Request) (id : String) (r : Approval) (e : Option String)
      → RowsFit log id (some r) e
      → is_approved r.state ≡ true
      → Among (Decides true id r) log
  approved_by log id r e h p = by_state r.state h.0 p
    where
      by_state :
          (x : State)
          → StateFits log id x r e
          → is_approved x ≡ true
          → Among (Decides true id r) log
      by_state approved h p = h.1
      by_state pending h p = absurd (ground arith)
      by_state denied h p = absurd (ground arith)
      by_state consumed h p = absurd (ground arith)

-- `type(approve) is bool` leaves the two values.
pub as_bool-some : (v : Json) (b : Bool) → as_bool v ≡ some b → v ≡ bool b
as_bool-some (bool x) b h = ground arith
as_bool-some null b h = absurd (ground arith)
as_bool-some (int n) b h = absurd (ground arith)
as_bool-some (float n) b h = absurd (ground arith)
as_bool-some not_finite b h = absurd (ground arith)
as_bool-some (str s) b h = absurd (ground arith)
as_bool-some (arr xs) b h = absurd (ground arith)
as_bool-some (obj fs) b h = absurd (ground arith)
