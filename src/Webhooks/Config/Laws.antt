-- ===== src/Webhooks/Config/Laws.antt =====
-- webhook_service.upsert_config: the webhooks of an organization.
use agentdesk_ai.Base.{
  ℕ, suc, ◌+◌, ◌≡◌, ◌≤◌, refl, Bool, Bool-cases, Option-cases, inl, inr, Option, none, some, List,
  [], ◌∷◌, ◌++◌, String, arith, first, ◌==◌, if◌then◌else◌, ==_iff,
}
use agentdesk_ai.Models.Records.{Webhook}
use agentdesk_ai.Session.{Session}
use agentdesk_ai.Session.Rows.{get, update, webhook_row}
use agentdesk_ai.Webhooks.Config.{get_config, store_config, upsert_config}

-- How many webhooks an organization has.
unfoldable pub count_of : ℕ → List Webhook → ℕ
count_of organization_id [] = 0
count_of organization_id (w ∷ ws) =
    let rest = count_of organization_id ws in
    if w.organization_id == organization_id then suc rest else rest

count_of-append :
    (o : ℕ) (ws : List Webhook) (w : Webhook)
    → count_of o (ws ++ (w ∷ [])) ≡ count_of o ws + (if w.organization_id == o then 1 else 0)
unfolding count_of
count_of-append o [] w = ground arith
count_of-append o (x ∷ ws) w = ground (arith, count_of-append o ws w)

count_of-update :
    (o key : ℕ) (f : Webhook → Webhook) (ws : List Webhook)
    → ((w : Webhook) → (f w).organization_id ≡ w.organization_id)
    → count_of o (update key f ws) ≡ count_of o ws
unfolding count_of
count_of-update o key f [] h = refl
count_of-update o key f (w ∷ ws) h = ground (arith, h w, count_of-update o key f ws h)

no_first :
    (o : ℕ) (ws : List Webhook) → first (λ w. w.organization_id == o) ws ≡ none → count_of o ws ≡ 0
unfolding count_of
no_first o [] e = refl
no_first o (w ∷ ws) e = ground (arith, no_first o ws)

stored-count :
    {F : Type 0} (organization_id : ℕ) (url secret : String) (is_active : Bool) (o : ℕ)
    (found : Option Webhook) (s : Session F)
    → first (λ w. w.organization_id == organization_id) s.working.webhooks ≡ found
    → count_of o s.working.webhooks ≤ 1
    → count_of o (store_config organization_id url secret is_active found s).1.committed.webhooks
      ≤ 1
unfolding store_config
stored-count organization_id url secret is_active o none s e h =
    let webhook : Webhook = record {
      id = s.next_id;
      organization_id = organization_id;
      url = url;
      secret = secret;
      is_active = is_active;
      created_at = s.now;
    } in
    let added : count_of o (s.working.webhooks ++ (webhook ∷ [])) ≤ 1 =
      elim (Bool-cases (organization_id == o)) [
        | inl p ↦
            let same = (==_iff organization_id o).0 p in
            let fresh = no_first organization_id s.working.webhooks e in
            ground (arith, count_of-append o s.working.webhooks webhook, fresh, same)
        | inr p ↦ ground (arith, count_of-append o s.working.webhooks webhook, p)
      ] in
    elim (Option-cases (get s.next_id (s.working.webhooks ++ (webhook ∷ [])))) [
      | inl q ↦ rw q added
      | inr (w, q) ↦ rw q added
    ]
stored-count organization_id url secret is_active o (some w) s e h =
    let change = λ (x : Webhook). record x { url = url; secret = secret; is_active = is_active } in
    let kept : count_of o (update w.id change s.working.webhooks) ≤ 1 =
      rw (count_of-update o w.id change s.working.webhooks (λ x. refl)) h in
    elim (Option-cases (get w.id (update w.id change s.working.webhooks))) [
      | inl q ↦ rw q kept
      | inr (x, q) ↦ rw q kept
    ]

-- An organization with at most one webhook before `upsert_config`, for itself or for another
-- organization, has at most one committed after it.
pub upsert_config-one :
    {F : Type 0} (organization_id : ℕ) (url secret : String) (is_active : Bool) (s : Session F)
    (o : ℕ)
    → count_of o s.working.webhooks ≤ 1
    → count_of o (upsert_config organization_id url secret is_active s).1.committed.webhooks ≤ 1
unfolding upsert_config get_config
upsert_config-one organization_id url secret is_active s o h =
    stored-count organization_id url secret is_active o _ s refl h
