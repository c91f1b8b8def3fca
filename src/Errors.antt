-- ===== src/Errors.antt =====
-- pkg/scimerrors: SCIM errors by status and keyword. The detail text is not modelled.
use scim_go.Prelude.{ℕ, Bool, Eq, ◌==◌, nat_eq, ◌&&◌, ◌≡◌, refl, ◌⊎◌, inl, inr}

-- ErrorType; `no_type` is the empty one
pub data ErrorType : Type 0 where
  no_type invalid_filter invalid_path invalid_syntax invalid_value invalid_version : ErrorType
  mutability no_target sensitive too_many uniqueness : ErrorType

ErrorType-discrete : Discrete ErrorType
ErrorType-discrete = hlevel

instance unfoldable pub error_type_eq : Eq ErrorType
unfolding ErrorType-discrete
error_type_eq = record { dec = ErrorType-discrete }

-- Error. The status is a number here and its decimal digits in Go.
pub record Error : Type 0 where
  pub status : ℕ
  pub scim_type : ErrorType

-- NewError
abbrev pub new_error : ℕ → ErrorType → Error
new_error status t = record { status = status; scim_type = t }

-- Error.Is: the detail does not count.
unfoldable pub error_is : Error → Error → Bool
error_is e target = target.status == e.status && target.scim_type == e.scim_type

abbrev pub err_invalid_filter : Error
err_invalid_filter = new_error 400 invalid_filter

abbrev pub err_too_many : Error
err_too_many = new_error 400 too_many

abbrev pub err_invalid_syntax : Error
err_invalid_syntax = new_error 400 invalid_syntax

abbrev pub err_invalid_path : Error
err_invalid_path = new_error 400 invalid_path

abbrev pub err_no_target : Error
err_no_target = new_error 400 no_target

abbrev pub err_invalid_value : Error
err_invalid_value = new_error 400 invalid_value

abbrev pub err_mutability : Error
err_mutability = new_error 400 mutability

abbrev pub err_uniqueness : Error
err_uniqueness = new_error 409 uniqueness

abbrev pub err_sensitive : Error
err_sensitive = new_error 403 sensitive

abbrev pub err_not_found : Error
err_not_found = new_error 404 no_type

abbrev pub err_unauthorized : Error
err_unauthorized = new_error 401 no_type

abbrev pub err_forbidden : Error
err_forbidden = new_error 403 no_type

abbrev pub err_too_large : Error
err_too_large = new_error 413 no_type

abbrev pub err_not_implemented : Error
err_not_implemented = new_error 501 no_type

abbrev pub err_internal : Error
err_internal = new_error 500 no_type

abbrev pub err_precondition_failed : Error
err_precondition_failed = new_error 412 no_type

abbrev pub err_changed : Error
err_changed = new_error 409 no_type

-- What a fallible function returns: a value, or an error.
pub data Result {ℓ} (A : Type ℓ) : Type ℓ where
  err : Error → Result A
  ok : A → Result A

pub Result-cases {ℓ} :
    {A : Type ℓ} (r : Result A) → ((e : Error) × (r ≡ err e)) ⊎ ((a : A) × (r ≡ ok a))
Result-cases (err e) = inl (e, refl)
Result-cases (ok a) = inr (a, refl)

module _ {ℓ κ} {A : Type ℓ} {B : Type κ} where
  -- `if err != nil { return err }`, and the rest of the function
  infixl 5 ◌>>=◌
  abbrev pub ◌>>=◌ : Result A → (A → Result B) → Result B
  err failure >>= rest = err failure
  ok value >>= rest = rest value

module _ {ℓ} {B : Type ℓ} where
  infixl 5 ◌>>◌
  abbrev pub ◌>>◌ : Result (Unit {0}) → Result B → Result B
  check >> rest = check >>= λ _. rest
