-- ===== src/Dependency/Category.antt =====
-- `RetryClassifier` of src/axiom/runtime/dependency.py, on texts, on status codes and on the
-- dictionary form of an error. `str.casefold` is Python's, so it is an argument here.
pub mod Status
use text.Mathlib.Text.{find?}
use axiom_agent.Prelude.{
  ℕ, zero, suc, ◌+◌, String, Bool, true, false, ◌&&◌, ◌||◌, Option, none, some, List, [], ◌∷◌, any,
  leb, ◌==◌, str_eq, is_some, if◌then◌else◌,
}
use axiom_agent.Prelude.Int.{ℤ, pos, negsuc}
use axiom_agent.Dependency.{FailureCategory}

-- `needle in text`
unfoldable pub occurs_in : String → String → Bool
occurs_in needle text = is_some (find? text needle)

-- `status in {…}`
abbrev pub is_one_of : ℕ → List ℕ → Bool
is_one_of n = any (λ m. n == m)

unfoldable pub classify_status : ℕ → FailureCategory
classify_status status =
    if status == 429
    then FailureCategory.rate_limited
    else if is_one_of status (408 ∷ 504 ∷ [])
    then FailureCategory.timeout
    else if is_one_of status (500 ∷ 502 ∷ 503 ∷ [])
    then FailureCategory.transient_server_error
    else if is_one_of status (401 ∷ 403 ∷ [])
    then FailureCategory.auth_error
    else if is_one_of status (400 ∷ 404 ∷ 409 ∷ 413 ∷ 422 ∷ [])
    then FailureCategory.validation_error
    else FailureCategory.permanent_error

-- `_optional_status`, of what `int` has read.
unfoldable pub optional_status : Option ℤ → Option ℕ
optional_status none = none
optional_status (some (negsuc n)) = none
optional_status (some (pos n)) = if leb 100 n && leb n 599 then some n else none

-- `DependencyFailureCategory(value)`; `none` is its `ValueError`.
unfoldable pub parse_category : String → Option FailureCategory
parse_category value =
    if str_eq value "timeout"
    then some FailureCategory.timeout
    else if str_eq value "rate_limited"
    then some FailureCategory.rate_limited
    else if str_eq value "transient_server_error"
    then some FailureCategory.transient_server_error
    else if str_eq value "connection_error"
    then some FailureCategory.connection_error
    else if str_eq value "validation_error"
    then some FailureCategory.validation_error
    else if str_eq value "auth_error"
    then some FailureCategory.auth_error
    else if str_eq value "policy_denied"
    then some FailureCategory.policy_denied
    else if str_eq value "permanent_error"
    then some FailureCategory.permanent_error
    else if str_eq value "unknown"
    then some FailureCategory.unknown
    else none

-- `category.value`
unfoldable pub category_value : FailureCategory → String
category_value FailureCategory.timeout = "timeout"
category_value FailureCategory.rate_limited = "rate_limited"
category_value FailureCategory.transient_server_error = "transient_server_error"
category_value FailureCategory.connection_error = "connection_error"
category_value FailureCategory.validation_error = "validation_error"
category_value FailureCategory.auth_error = "auth_error"
category_value FailureCategory.policy_denied = "policy_denied"
category_value FailureCategory.permanent_error = "permanent_error"
category_value FailureCategory.unknown = "unknown"

-- The dictionary form of an error: `none` is a missing key or None.
pub record ErrorFields : Type 0 where
  pub failure_category : Option String
  pub category : Option String
  pub status_code : Option ℤ
  pub error_type : Option String
  pub error : Option String

-- `a or b`: the empty text counts as nothing.
unfoldable pub or_text : Option String → Option String → Option String
or_text none b = b
or_text (some a) b = if str_eq a "" then b else some a

-- `str(a or b or "")`
abbrev pub text_or_empty : Option String → String
text_or_empty none = ""
text_or_empty (some a) = a

-- `if explicit: try … except ValueError: pass`
unfoldable pub explicit_category : Option String → Option FailureCategory
explicit_category none = none
explicit_category (some text) = if str_eq text "" then none else parse_category text

module _ (casefold : String → String) where
  unfoldable pub classify_text : String → FailureCategory
  unfolding occurs_in
  classify_text message =
      let has = λ (needle : String). occurs_in needle (casefold message) in
      if has "timed out" || has "timeout"
      then FailureCategory.timeout
      else if has "rate limit" || has "too many requests"
      then FailureCategory.rate_limited
      else if has "connectionerror" || has "connection reset" || has "connection refused"
      then FailureCategory.connection_error
      else if has "unauthorized" || has "authentication" || has "invalid api key"
      then FailureCategory.auth_error
      else if has "policy" && (has "denied" || has "rejected")
      then FailureCategory.policy_denied
      else if has "validation"
          || has "invalid request"
          || has "context too large"
          || has "unsupported model"
      then FailureCategory.validation_error
      else FailureCategory.unknown

  unfoldable pub classify_fields : ErrorFields → FailureCategory
  unfolding explicit_category or_text optional_status
  classify_fields e = elim (explicit_category (or_text e.failure_category e.category)) [
    | some category ↦ category
    | none ↦ elim (optional_status e.status_code) [
      | some status ↦ classify_status status
      | none ↦ classify_text (text_or_empty (or_text e.error_type e.error))
    ]
  ]
