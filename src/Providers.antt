-- ===== src/Providers.antt =====
-- providers/factory.py: which provider the settings choose.
pub mod Mock
pub mod Vendors
pub mod Laws
use agentdesk_ai.Base.{ℕ, some, List, String, str_eq, if◌then◌else◌}
use agentdesk_ai.Session.{Settings, Floats, LlmResult, Answer, Providers}
use agentdesk_ai.Words.{Word}
use agentdesk_ai.Providers.Mock
use agentdesk_ai.Providers.Vendors.{
  Sdk, anthropic_complete, anthropic_embed, openai_complete, openai_embed,
}

pub data Vendor : Type 0 where
  mock anthropic openai : Vendor

-- The name in the settings; any other name is the mock.
unfoldable pub vendor_of : String → Vendor
vendor_of name =
    if str_eq name "anthropic" then anthropic else if str_eq name "openai" then openai else mock

module _ {F : Type 0} (settings : Settings F) (floats : Floats F) (sdk : Sdk F)
    (word_hash : Word → ℕ) where
  unfoldable pub complete_with : Vendor → String → String → String → Answer LlmResult
  unfolding Mock.complete anthropic_complete openai_complete
  complete_with mock prompt system context = Mock.complete prompt system context
  complete_with anthropic prompt system context =
      anthropic_complete settings sdk "claude-haiku-4-5-20251001" (some system) prompt
  complete_with openai prompt system context =
      openai_complete settings sdk "gpt-4o-mini" (some system) prompt

  unfoldable pub embed_with : Vendor → List String → Answer (List (List F))
  unfolding Mock.embed anthropic_embed openai_embed
  embed_with mock texts = Mock.embed floats word_hash settings.embedding_dim texts
  embed_with anthropic texts = anthropic_embed settings sdk texts
  embed_with openai texts =
      openai_embed settings sdk "text-embedding-3-small" settings.embedding_dim texts

  -- `get_llm_provider` and `get_embedding_provider`, each through the interface of base.py;
  -- `lower` is Python's `str.lower`.
  unfoldable pub configured : (String → String) → Providers F
  unfolding vendor_of complete_with embed_with
  configured lower = record {
    complete = complete_with (vendor_of (lower settings.llm_provider));
    embed = embed_with (vendor_of (lower settings.embedding_provider));
  }
