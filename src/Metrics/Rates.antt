-- ===== src/Metrics/Rates.antt =====
-- The rates of services/metrics_service.py.
use agentdesk_ai.Base.{
  ℕ, ◌≡◌, ◌≢◌, ◌≤◌, true, ◌==◌, arith, length, length-select-le, Bool-cases, inl, inr,
}
use agentdesk_ai.Session.{Db, Env}
use agentdesk_ai.Metrics.{rate, completed_runs, metrics_of}

module _ {F : Type 0} (env : Env F) where
  -- Between 0 and 1.
  abbrev pub IsRate : F → Type 0
  IsRate x =
      (env.floats.le (env.floats.literal 0 0) x ≡ true)
      × (env.floats.le x (env.floats.literal 1 0) ≡ true)

  -- The rounded quotient of a number by one that is not less lies between 0 and 1, and so does 0.
  pub record DividesSoundly : Type 0 where
    pub zero_rate : IsRate (env.floats.literal 0 0)
    pub quotient_rate :
        (n d : ℕ)
        → n ≤ d
        → d ≢ 0
        → IsRate (env.floats.round (env.floats.div (env.floats.of_int n) (env.floats.of_int d)) 4)

  module _ (sound : DividesSoundly) where
    rate-IsRate : (d n : ℕ) → n ≤ d → IsRate (rate env d n)
    unfolding rate
    rate-IsRate d n h = elim (Bool-cases (d == 0)) [
      | inl e ↦ rw e sound.zero_rate
      | inr e ↦ rw e (sound.quotient_rate n d h (λ p. ground arith))
    ]

    -- If a rounded quotient of two numbers, the first at most the second, lies between 0 and 1,
    -- then so do the three rates of the metrics, also when no run is completed.
    pub metrics_of-rates :
        (organization_id : ℕ) (db : Db F)
        → IsRate (metrics_of env organization_id db).approval_rate
          × IsRate (metrics_of env organization_id db).escalation_rate
          × IsRate (metrics_of env organization_id db).retrieval_hit_rate
    unfolding metrics_of
    metrics_of-rates organization_id db =
        let runs = completed_runs env organization_id db in
        (
          rate-IsRate (length runs) _ (length-select-le _ runs),
          rate-IsRate (length runs) _ (length-select-le _ runs),
          rate-IsRate (length runs) _ (length-select-le _ runs),
        )
