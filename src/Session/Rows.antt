-- ===== src/Session/Rows.antt =====
-- Rows by key: `db.get`, an assignment to a column, and their laws.
use mathlib.Core.Path.{subst}
use agentdesk_ai.Base.{
  ℕ, ◌<◌, ◌≡◌, refl, ◌≢◌, Option, inl, inr, none, some, List, [], ◌∷◌, ◌++◌, arith, ◌==◌,
  if◌then◌else◌, Bool-cases, ==_iff, All,
}
use agentdesk_ai.Models.Ticket.{Ticket}
use agentdesk_ai.Models.Records.{AgentRun, Webhook, WebhookDelivery, User, Document}

pub record Row (R : Type 0) : Type 0 where
  pub key : R → ℕ

instance abbrev pub ticket_row : Row Ticket
ticket_row = record { key = λ t. t.id }

instance abbrev pub user_row : Row User
user_row = record { key = λ u. u.id }

instance abbrev pub webhook_row : Row Webhook
webhook_row = record { key = λ w. w.id }

instance abbrev pub delivery_row : {F : Type 0} → Row (WebhookDelivery F)
delivery_row = record { key = λ d. d.id }

instance abbrev pub document_row : Row Document
document_row = record { key = λ d. d.id }

instance abbrev pub run_row : {F : Type 0} → Row (AgentRun F)
run_row = record { key = λ r. r.id }

module _ {R : Type 0} ⦃r : Row R⦄ where
  -- `db.get(R, k)`
  abbrev pub get : ℕ → List R → Option R
  get k [] = none
  get k (x ∷ xs) = if r.key x == k then some x else get k xs

  -- The UPDATE of the row with key `k`.
  abbrev pub update : ℕ → (R → R) → List R → List R
  update k f [] = []
  update k f (x ∷ xs) = let rest = update k f xs in if r.key x == k then f x ∷ rest else x ∷ rest

  -- A change keeps the key.
  abbrev pub KeepsKey : (R → R) → Type 0
  KeepsKey f = (x : R) → r.key (f x) ≡ r.key x

  pub get-key : (k : ℕ) (t : List R) {x : R} → get k t ≡ some x → r.key x ≡ k
  get-key k [] e = cc
  get-key k (x ∷ xs) {x = y} e = ground (arith, get-key k xs {x = y})

  pub get-update_self :
      (k : ℕ) (f : R → R) (t : List R) {x : R}
      → KeepsKey f
      → get k t ≡ some x
      → get k (update k f t) ≡ some (f x)
  get-update_self k f [] h e = cc
  get-update_self k f (x ∷ xs) {x = y} h e = ground (arith, h x, get-update_self k f xs {x = y} h)

  pub get-update_ne :
      (j k : ℕ) (f : R → R) (t : List R) → KeepsKey f → j ≢ k → get j (update k f t) ≡ get j t
  get-update_ne j k f [] h ne = refl
  get-update_ne j k f (x ∷ xs) h ne = ground (arith, h x, get-update_ne j k f xs h ne)

  -- A property of the rows after an UPDATE, from one of the rows before.
  pub All-update :
      (P Q : R → Type 0) (k : ℕ) (f : R → R) (t : List R)
      → ((x : R) → r.key x ≡ k → P x → Q (f x))
      → ((x : R) → r.key x ≢ k → P x → Q x)
      → All P t
      → All Q (update k f t)
  All-update P Q k f [] hit miss h = tt
  All-update P Q k f (x ∷ xs) hit miss h = elim (Bool-cases (r.key x == k)) [
    | inl e ↦ rw e (hit x ((==_iff _ _).0 e) h.0, All-update P Q k f xs hit miss h.1)
    | inr e ↦ rw e (miss x (λ p. ground (arith, p)) h.0, All-update P Q k f xs hit miss h.1)
  ]

  pub All-get : (P : R → Type 0) (k : ℕ) (t : List R) {x : R} → All P t → get k t ≡ some x → P x
  All-get P k [] h e = cc
  All-get P k (x ∷ xs) {x = y} h e = elim (Bool-cases (r.key x == k)) [
    | inl p ↦ subst P (ground arith) h.0
    | inr p ↦ All-get P k xs {x = y} h.1 (ground arith)
  ]

  -- A row with a new key is found behind the others.
  pub get-append_new :
      (t : List R) (x : R) → All (λ y. r.key y < r.key x) t → get (r.key x) (t ++ (x ∷ [])) ≡ some x
  get-append_new [] x h = ground arith
  get-append_new (y ∷ ys) x h = ground (arith, get-append_new ys x h.1)

  -- A row that is found is found behind no new one.
  pub get-append_old :
      (k : ℕ) (t : List R) (x : R) {y : R} → get k t ≡ some y → get k (t ++ (x ∷ [])) ≡ some y
  get-append_old k [] x e = cc
  get-append_old k (z ∷ zs) x {y} e = ground (arith, get-append_old k zs x {y = y})
