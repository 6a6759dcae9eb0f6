-- ===== src/Providers/Laws.antt =====
-- What the settings promise of the providers.
use agentdesk_ai.Base.{
  ℕ, ◌≡◌, ◌≢◌, refl, List, String, none, some, true, false, Bool-cases, inl, inr, str_eq, eq_iff,
  Bool, Option, if◌then◌else◌,
}
use agentdesk_ai.Session.{Settings, Floats, Answer, answer, failure}
use agentdesk_ai.Words.{Word}
use agentdesk_ai.Providers.Vendors.{
  Sdk, text_or, then_answer, anthropic_client, openai_client, key_or_fail,
}
use agentdesk_ai.Providers.{Vendor, mock, anthropic, openai, complete_with, embed_with}

abbrev pub Fails : {A : Type 0} → Answer A → Type 0
Fails (answer a) = ⊥
Fails (failure e) = Unit

-- Missing or empty.
abbrev pub NoKey : Option String → Type 0
NoKey key = text_or key "" ≡ ""

key_or_fail-Fails :
    (key : Option String) (message : String) → NoKey key → Fails (key_or_fail key message)
unfolding key_or_fail
key_or_fail-Fails none message h = tt
key_or_fail-Fails (some key) message h = elim (Bool-cases (str_eq key "")) [
  | inl e ↦ rw e tt
  | inr e ↦ absurd (cc ((eq_iff key "").1 (rw e at h)))
]

client-Fails :
    (installed : Bool) (key : Option String) (unset missing : String)
    → NoKey key
    → Fails (if installed then key_or_fail key unset else failure missing)
client-Fails true key unset missing h = key_or_fail-Fails key unset h
client-Fails false key unset missing h = tt

then_answer-Fails :
    {A B : Type 0} (a : Answer A) (f : A → Answer B) → Fails a → Fails (then_answer a f)
then_answer-Fails (answer a) f h = absurd h
then_answer-Fails (failure e) f h = tt

module _ {F : Type 0} (settings : Settings F) (floats : Floats F) (sdk : Sdk F)
    (word_hash : Word → ℕ) where
  -- Without an API key, missing or empty, a vendor is never called: every completion and every
  -- embedding of a vendor fails, whether its package is installed or not.
  pub NoKey-Fails :
      NoKey settings.anthropic_api_key
      → NoKey settings.openai_api_key
      → (v : Vendor) → v ≢ mock
      → ((prompt system context : String)
          → Fails (complete_with settings floats sdk word_hash v prompt system context))
        × ((texts : List String) → Fails (embed_with settings floats sdk word_hash v texts))
  unfolding complete_with embed_with anthropic_client openai_client
  NoKey-Fails a o mock h = absurd (h refl)
  NoKey-Fails a o anthropic h = (
    λ prompt system context.
        then_answer-Fails (anthropic_client settings sdk) _
          (client-Fails sdk.anthropic_installed settings.anthropic_api_key _ _ a),
    λ texts. tt,
  )
  NoKey-Fails a o openai h = (
    λ prompt system context.
        then_answer-Fails (openai_client settings sdk) _
          (client-Fails sdk.openai_installed settings.openai_api_key _ _ o),
    λ texts.
        then_answer-Fails (openai_client settings sdk) _
          (client-Fails sdk.openai_installed settings.openai_api_key _ _ o),
  )
