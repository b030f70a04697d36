-- ===== src/Budget/Types.antt =====
-- The records of the budget ledger, and the errors that its code raises. The ledger is a JSON
-- document in the source; here its objects are records. Money is exact: a price is a whole number
-- of units for a million tokens, and a cost a whole number of millionths of that unit. Decimal's
-- rounding to 28 digits is not modelled. A time is a whole number of ticks.
use axiom_agent.Prelude.{ℕ, String, Bool, Option, List, ◌≡◌, refl}
use axiom_agent.Dict.{Dict}

-- The keys of `_DIMENSION_LIMIT`.
pub data Dimension : Type 0 where
  steps model_calls tool_calls input_tokens output_tokens total_tokens : Dimension
  elapsed_seconds cost_usd : Dimension

-- `soft_limit_ratio` as a fraction.
pub record Ratio : Type 0 where
  pub numerator : ℕ
  pub denominator : ℕ

pub record RunBudgetPolicy : Type 0 where
  pub max_steps : Option ℕ
  pub max_model_calls : Option ℕ
  pub max_tool_calls : Option ℕ
  pub max_input_tokens : Option ℕ
  pub max_output_tokens : Option ℕ
  pub max_total_tokens : Option ℕ
  pub max_wall_time_seconds : Option ℕ
  pub max_cost_usd : Option ℕ
  pub soft_limit_ratio : Ratio

pub record ModelPricing : Type 0 where
  pub provider : String
  pub model : String
  pub input_per_million_usd : ℕ
  pub output_per_million_usd : ℕ
  pub cached_input_per_million_usd : Option ℕ

-- The object under "usage", which `_empty_usage` makes.
pub record RawUsage : Type 0 where
  pub steps : ℕ
  pub model_calls : ℕ
  pub tool_calls : ℕ
  pub input_tokens : ℕ
  pub output_tokens : ℕ
  pub cached_input_tokens : ℕ
  pub reasoning_tokens : ℕ
  pub cost_usd : Option ℕ
  pub cost_known : Bool

pub record RunBudgetUsage : Type 0 where
  pub steps : ℕ
  pub model_calls : ℕ
  pub tool_calls : ℕ
  pub input_tokens : ℕ
  pub output_tokens : ℕ
  pub cached_input_tokens : ℕ
  pub reasoning_tokens : ℕ
  pub cost_usd : Option ℕ
  pub cost_known : Bool
  pub elapsed_seconds : ℕ

pub data OperationKind : Type 0 where
  step tool_call model : OperationKind

pub data OperationStatus : Type 0 where
  reserved completed : OperationStatus

-- An entry of "operations"; the four counts stand in it once it is completed.
pub record Operation : Type 0 where
  pub run_id : String
  pub kind : OperationKind
  pub status : OperationStatus
  pub reserved_input_tokens : ℕ
  pub reserved_cost_usd : Option ℕ
  pub input_tokens : ℕ
  pub output_tokens : ℕ
  pub cached_input_tokens : ℕ
  pub reasoning_tokens : ℕ

pub record RunEntry : Type 0 where
  pub policy : RunBudgetPolicy
  pub pricing : Option ModelPricing
  pub usage : RawUsage
  pub soft_dimensions : List Dimension
  pub hard_dimension : Option Dimension

pub record Ledger : Type 0 where
  pub owner_run_id : String
  pub runs : Dict RunEntry
  pub operations : Dict Operation

-- The readings of the clocks in one check: `_elapsed_for` and `_elapsed`, by run.
pub record Clock : Type 0 where
  pub elapsed_for : String → ℕ
  pub elapsed : String → ℕ

-- `BudgetExceededError`
pub record Exceeded : Type 0 where
  pub dimension : Dimension
  pub limit : ℕ
  pub used : ℕ
  pub run_id : String

-- The exceptions: `BudgetExceededError`, the two `RuntimeError`s, `BudgetLedgerConflictError`.
pub data BudgetError : Type 0 where
  exceeded : Exceeded → BudgetError
  no_run_entry : String → BudgetError
  no_reservation : String → BudgetError
  conflict : String → BudgetError

-- What a method returns, or the exception that it raises.
pub data Result {ℓ} (A : Type ℓ) : Type ℓ where
  err : BudgetError → Result A
  ok : A → Result A

module _ {ℓ κ} {A : Type ℓ} {B : Type κ} where
  infixl 5 ◌>>=◌ ◌>>◌
  abbrev pub ◌>>=◌ : Result A → (A → Result B) → Result B
  err raised >>= next = err raised
  ok value >>= next = next value

  abbrev pub ◌>>◌ : Result A → Result B → Result B
  first >> second = first >>= λ _. second

  -- A sequence that returns has returned from both its parts.
  pub >>=-eq-ok :
      (first : Result A) (next : A → Result B) {final : B}
      → (first >>= next) ≡ ok final
      → (value : A) × (first ≡ ok value) × (next value ≡ ok final)
  >>=-eq-ok (err raised) next returned = cc
  >>=-eq-ok (ok value) next returned = (value, refl, returned)
