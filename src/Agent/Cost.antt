-- ===== src/Agent/Cost.antt =====
-- agent/cost.py: prices in USD for a thousand tokens in and out.
use agentdesk_ai.Base.{ℕ, String, str_eq, if◌then◌else◌}
use agentdesk_ai.Session.{Floats}

module _ {F : Type 0} (floats : Floats F) where
  -- `_PRICES.get(model, _DEFAULT)`
  prices : String → F × F
  prices model =
      if str_eq model "mock-1"
      then (floats.literal 5 4, floats.literal 15 4)
      else if str_eq model "claude-haiku-4-5-20251001"
      then (floats.literal 1 3, floats.literal 5 3)
      else if str_eq model "gpt-4o-mini"
      then (floats.literal 15 5, floats.literal 6 4)
      else (floats.literal 5 4, floats.literal 15 4)

  unfoldable pub estimate_cost : String → ℕ → ℕ → F
  unfolding prices
  estimate_cost model prompt_tokens completion_tokens =
      let (in_price, out_price) = prices model in
      let thousand = floats.literal 1000 0 in
      floats.round
        (floats.add (floats.mul (floats.div (floats.of_int prompt_tokens) thousand) in_price)
          (floats.mul (floats.div (floats.of_int completion_tokens) thousand) out_price))
        8
