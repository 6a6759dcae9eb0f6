-- ===== src/Providers/Vendors.antt =====
-- providers/anthropic.py and providers/openai.py: what stands between the interfaces and the SDKs.
use agentdesk_ai.Base.{
  ℕ, Bool, Option, none, some, or_default, List, [], ◌∷◌, map, select, String, str_eq,
  if◌then◌else◌,
}
use agentdesk_ai.Session.{LlmResult, Settings, Answer, answer, failure}
use agentdesk_ai.Agent.Nodes.{join}

pub record Block : Type 0 where
  pub type : String
  pub text : String

-- The answer of `messages.create`.
pub record Message : Type 0 where
  pub content : List Block
  pub input_tokens : ℕ
  pub output_tokens : ℕ

pub record Usage : Type 0 where
  pub prompt_tokens : ℕ
  pub completion_tokens : ℕ

-- The answer of `chat.completions.create`, the content of each choice, and the usage.
pub record Completion : Type 0 where
  pub choices : List (Option String)
  pub usage : Option Usage

-- The vendors' packages, if they are installed. The first argument of a call is the API key.
pub record Sdk (F : Type 0) : Type 0 where
  pub anthropic_installed : Bool
  pub messages_create : String → String → ℕ → String → String → Answer Message
  pub openai_installed : Bool
  pub chat_create : String → String → String → String → Answer Completion
  pub embeddings_create : String → String → List String → ℕ → Answer (List (List F))

abbrev pub then_answer : {A B : Type 0} → Answer A → (A → Answer B) → Answer B
then_answer (answer a) f = f a
then_answer (failure e) f = failure e

-- `value or default` of a text that may be missing.
abbrev pub text_or : Option String → String → String
text_or none default = default
text_or (some text) default = if str_eq text "" then default else text

-- The key, if there is one that is not empty.
unfoldable pub key_or_fail : Option String → String → Answer String
key_or_fail none message = failure message
key_or_fail (some key) message = if str_eq key "" then failure message else answer key

module _ {F : Type 0} (settings : Settings F) (sdk : Sdk F) where
  -- `_client`, as the key that it holds
  unfoldable pub anthropic_client : Answer String
  unfolding key_or_fail
  anthropic_client =
      if sdk.anthropic_installed
      then key_or_fail settings.anthropic_api_key "ANTHROPIC_API_KEY is not configured."
      else failure
          "The 'anthropic' package is required for LLM_PROVIDER=anthropic. Install it or use LLM_PROVIDER=mock."

  unfoldable pub anthropic_complete : String → Option String → String → Answer LlmResult
  unfolding anthropic_client join
  anthropic_complete model system prompt = then_answer anthropic_client (λ key.
      then_answer
        (sdk.messages_create key model 1024 (text_or system "You are a helpful support assistant.")
          prompt)
        (λ msg. answer (record {
          text = join "" (map (λ b. b.text) (select (λ b. str_eq b.type "text") msg.content));
          prompt_tokens = msg.input_tokens;
          completion_tokens = msg.output_tokens;
          model = model;
        })))

  unfoldable pub anthropic_embed : List String → Answer (List (List F))
  anthropic_embed texts =
      failure "Anthropic has no embeddings API; use EMBEDDING_PROVIDER=openai or mock."

  unfoldable pub openai_client : Answer String
  unfolding key_or_fail
  openai_client =
      if sdk.openai_installed
      then key_or_fail settings.openai_api_key "OPENAI_API_KEY is not configured."
      else failure
          "The 'openai' package is required for the OpenAI provider. Install it or use the mock provider."

  abbrev prompt_tokens_of : Option Usage → ℕ
  prompt_tokens_of none = 0
  prompt_tokens_of (some u) = u.prompt_tokens

  abbrev completion_tokens_of : Option Usage → ℕ
  completion_tokens_of none = 0
  completion_tokens_of (some u) = u.completion_tokens

  -- `resp.choices[0]`, and the result made of it.
  unfoldable pub result_of : String → List (Option String) → Option Usage → Answer LlmResult
  result_of model [] usage = failure "list index out of range"
  result_of model (content ∷ more) usage = answer (record {
    text = or_default content "";
    prompt_tokens = prompt_tokens_of usage;
    completion_tokens = completion_tokens_of usage;
    model = model;
  })

  unfoldable pub openai_complete : String → Option String → String → Answer LlmResult
  unfolding openai_client result_of
  openai_complete model system prompt = then_answer openai_client (λ key.
      then_answer
        (sdk.chat_create key model (text_or system "You are a helpful support assistant.") prompt)
        (λ resp. result_of model resp.choices resp.usage))

  unfoldable pub openai_embed : String → ℕ → List String → Answer (List (List F))
  unfolding openai_client
  openai_embed model dim texts =
      then_answer openai_client (λ key. sdk.embeddings_create key model texts dim)
