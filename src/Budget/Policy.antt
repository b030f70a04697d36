-- ===== src/Budget/Policy.antt =====
-- `RunBudgetPolicy` and `ModelPricing` of src/axiom/runtime/budget.py: what they accept, the limit
-- of a dimension, and the cost of a call.
use axiom_agent.Prelude.{
  ℕ, ◌+◌, ◌-◌, ◌*◌, Bool, true, ◌&&◌, not, Option, none, some, min, ltb, if◌then◌else◌,
}
use axiom_agent.Prelude.Int.{ℤ, pos_part, is_nonpositive}
use axiom_agent.Budget.Types.{Dimension, Ratio, RunBudgetPolicy, ModelPricing}

-- The arguments of the constructor, before `__post_init__`.
pub record Limits : Type 0 where
  pub max_steps : Option ℤ
  pub max_model_calls : Option ℤ
  pub max_tool_calls : Option ℤ
  pub max_input_tokens : Option ℤ
  pub max_output_tokens : Option ℤ
  pub max_total_tokens : Option ℤ
  pub max_wall_time_seconds : Option ℤ
  pub max_cost_usd : Option ℤ
  pub soft_limit_ratio : Ratio

-- `value is not None and value <= 0` is an error.
abbrev is_positive_or_none : Option ℤ → Bool
is_positive_or_none none = true
is_positive_or_none (some n) = not (is_nonpositive n)

abbrev size_of : Option ℤ → Option ℕ
size_of none = none
size_of (some n) = some (pos_part n)

-- `none` is the `ValueError`.
unfoldable pub make_policy : Limits → Option RunBudgetPolicy
make_policy l =
    if is_positive_or_none l.max_steps
      && is_positive_or_none l.max_model_calls
      && is_positive_or_none l.max_tool_calls
      && is_positive_or_none l.max_input_tokens
      && is_positive_or_none l.max_output_tokens
      && is_positive_or_none l.max_total_tokens
      && is_positive_or_none l.max_wall_time_seconds
      && is_positive_or_none l.max_cost_usd
      && ltb 0 l.soft_limit_ratio.numerator
      && ltb l.soft_limit_ratio.numerator l.soft_limit_ratio.denominator
    then some (record {
      max_steps = size_of l.max_steps;
      max_model_calls = size_of l.max_model_calls;
      max_tool_calls = size_of l.max_tool_calls;
      max_input_tokens = size_of l.max_input_tokens;
      max_output_tokens = size_of l.max_output_tokens;
      max_total_tokens = size_of l.max_total_tokens;
      max_wall_time_seconds = size_of l.max_wall_time_seconds;
      max_cost_usd = size_of l.max_cost_usd;
      soft_limit_ratio = l.soft_limit_ratio;
    })
    else none

-- `getattr(policy, _DIMENSION_LIMIT[dimension][0])`
unfoldable pub limit_of : RunBudgetPolicy → Dimension → Option ℕ
limit_of p Dimension.steps = p.max_steps
limit_of p Dimension.model_calls = p.max_model_calls
limit_of p Dimension.tool_calls = p.max_tool_calls
limit_of p Dimension.input_tokens = p.max_input_tokens
limit_of p Dimension.output_tokens = p.max_output_tokens
limit_of p Dimension.total_tokens = p.max_total_tokens
limit_of p Dimension.elapsed_seconds = p.max_wall_time_seconds
limit_of p Dimension.cost_usd = p.max_cost_usd

-- `ModelPricing.cost`; the counts are `int`s, and each is taken as zero if it is negative.
unfoldable pub cost : ModelPricing → ℤ → ℤ → ℤ → ℕ
cost p input output cached_input =
    let cached = min (pos_part cached_input) (pos_part input) in
    let regular = pos_part input - cached in
    let cached_rate : ℕ = elim p.cached_input_per_million_usd [
      | none ↦ p.input_per_million_usd
      | some r ↦ r
    ] in
    regular * p.input_per_million_usd
    + cached * cached_rate
    + pos_part output * p.output_per_million_usd
