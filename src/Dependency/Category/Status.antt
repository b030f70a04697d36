-- ===== src/Dependency/Category/Status.antt =====
-- Which failures can be retried, by their status code or their own word.
use axiom_agent.Prelude.{ℕ, ◌≤◌, ◌≡◌, refl, String, none, some, [], ◌∷◌, arith, Option}
use axiom_agent.Prelude.Int.{pos}
use axiom_agent.Dependency.{FailureCategory, is_retryable}
use axiom_agent.Dependency.Category.{
  is_one_of, classify_status, parse_category, category_value, ErrorFields, classify_fields,
  explicit_category, or_text,
}

-- A status code can be retried exactly when it is one of these six.
is_retryable-classify_status :
    (status : ℕ)
    → is_retryable (classify_status status)
      ≡ is_one_of status (429 ∷ 408 ∷ 504 ∷ 500 ∷ 502 ∷ 503 ∷ [])
unfolding classify_status is_retryable
is_retryable-classify_status status = ground arith

-- The word of a category is read back as that category.
pub parse_category-category_value :
    (c : FailureCategory) → parse_category (category_value c) ≡ some c
unfolding parse_category category_value
parse_category-category_value FailureCategory.timeout = refl
parse_category-category_value FailureCategory.rate_limited = refl
parse_category-category_value _ = refl

explicit_category-category_value :
    (c : FailureCategory) (b : Option String)
    → explicit_category (or_text (some (category_value c)) b) ≡ some c
unfolding explicit_category or_text parse_category category_value
explicit_category-category_value FailureCategory.timeout b = refl
explicit_category-category_value FailureCategory.rate_limited b = refl
explicit_category-category_value _ b = refl

-- An error whose field `failure_category` is the word of a category is in that category, whatever
-- else it says.
pub classify_fields-word :
    (casefold : String → String) (e : ErrorFields) (c : FailureCategory)
    → e.failure_category ≡ some (category_value c)
    → classify_fields casefold e ≡ c
unfolding classify_fields
classify_fields-word casefold e c h =
    let found : explicit_category (or_text e.failure_category e.category) ≡ some c =
      rw h (explicit_category-category_value c e.category) in
    ground (arith, found)

-- An error with no word that can be read and a status code from 100 to 599 can be retried exactly
-- when the code is one of the six.
pub is_retryable-classify_fields :
    (casefold : String → String) (e : ErrorFields) (n : ℕ)
    → explicit_category (or_text e.failure_category e.category) ≡ none
    → e.status_code ≡ some (pos n)
    → 100 ≤ n
    → n ≤ 599
    → is_retryable (classify_fields casefold e)
      ≡ is_one_of n (429 ∷ 408 ∷ 504 ∷ 500 ∷ 502 ∷ 503 ∷ [])
unfolding classify_fields
is_retryable-classify_fields casefold e n h at_code low high =
    ground (arith, h, at_code, is_retryable-classify_status n)
