-- ===== src/Completion/Contract.antt =====
-- The contracts and results of src/axiom/runtime/completion.py. The texts of reasons are not modelled.
use axiom_agent.Prelude.{
  ℕ, String, ◌≡◌, refl, ◌⊎◌, inl, inr, Bool, true, false, ◌&&◌, not, Option, none, some, List, map,
  keep,
}
use axiom_agent.Dict.{Dict}

-- A JSON value of a check's configuration: a list of which every item is a text is `texts`, and what is
-- neither null nor a Boolean nor a text nor such a list is `other`.
pub data Value (Other : Type 0) : Type 0 where
  null : Value Other
  flag : Bool → Value Other
  text : String → Value Other
  texts : List String → Value Other
  other : Other → Value Other

pub data CompletionVerificationStatus : Type 0 where
  verified not_verified not_applicable error : CompletionVerificationStatus

-- What an exception in a check comes from: a `ValueError` of the verifier, the store, a stored plan, or
-- the file system.
pub data CheckError : Type 0 where
  not_strings empty_setting unknown_check store_failed unreadable_plan bad_path : CheckError

pub data Checked {ℓ} (A : Type ℓ) : Type ℓ where
  returned : A → Checked A
  raised : CheckError → Checked A

infixl 10 ◌>>=◌
abbrev pub ◌>>=◌ {ℓ κ} : {A : Type ℓ} {B : Type κ} → Checked A → (A → Checked B) → Checked B
returned a >>= f = f a
raised e >>= f = raised e

pub Checked-cases {ℓ} :
    {A : Type ℓ} (r : Checked A)
    → ((a : A) × (r ≡ returned a)) ⊎ ((e : CheckError) × (r ≡ raised e))
Checked-cases (returned a) = inl (a, refl)
Checked-cases (raised e) = inr (e, refl)

pub record CompletionCheck (Other : Type 0) : Type 0 where
  pub id : String
  pub type : String
  pub required : Bool
  pub config : Dict (Value Other)

pub record CompletionCheckResult : Type 0 where
  pub check_id : String
  pub check_type : String
  pub passed : Bool
  pub required : Bool

pub record CompletionVerificationResult : Type 0 where
  pub status : CompletionVerificationStatus
  pub attempt : ℕ
  pub checks : List CompletionCheckResult
  pub error : Option CheckError

-- The property `verified`; `none` is None.
unfoldable pub is_verified : CompletionVerificationResult → Option Bool
is_verified r = elim r.status [
  | CompletionVerificationStatus.verified ↦ some true
  | CompletionVerificationStatus.not_applicable ↦ none
  | _ ↦ some false
]

abbrev pub is_failed_check : CompletionCheckResult → Bool
is_failed_check r = r.required && not r.passed

unfoldable pub failed_check_ids : CompletionVerificationResult → List String
failed_check_ids r = map (λ (x : CompletionCheckResult). x.check_id) (keep is_failed_check r.checks)
