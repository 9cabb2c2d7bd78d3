-- ===== src/Errors.antt =====
-- The error values of the root package and of input/error.go, and the walks over their causes.
-- A BindingError is a pointer: its record carries the address that `owner != e` compares.
pub mod Status
use bindly.Prelude.{
  ℕ, String, Bool, true, false, Option, none, some, List, ◌||◌, ◌≡◌, refl, ◌⊎◌, inl, inr, str_eq,
  nat_eq, is_some, if◌then◌else◌,
}
use bindly.Prelude.Int.{ℤ, is_zero}

-- scope.go's BindingError without its cause.
pub record BindingSite : Type 0 where
  pub address : ℕ
  pub path : String
  pub name : String
  pub kind : String
  pub in_path : String
  pub code : ℤ
  pub message : String

pub data Error : Type 0 where
  -- fmt.Errorf with no wrapped error: its format and the texts that it prints
  message : String → List String → Error
  -- fmt.Errorf with %w, and any other error that only wraps another
  wrapped : String → Error → Error
  -- *input.Error: its code and cause
  input : ℤ → Error → Error
  -- *BindingError
  binding : BindingSite → Error → Error
  -- *requiredAbsenceError: the address of its owner, if one is set, and its diagnostic
  absence : Option ℕ → Error → Error
  -- an error of other code, with a StatusCode method
  coded : ℤ → String → Error
  -- *ResolutionPrerequisiteError: path, prerequisite and cause
  prerequisite : String → String → Error → Error
  -- errors.Join of two errors
  join : Error → Error → Error

-- The result of a function that returns (value, error).
pub data Result {ℓ} (A : Type ℓ) : Type ℓ where
  ok : A → Result A
  err : Error → Result A

infixl 5 ◌>>=◌ ◌>>◌
abbrev pub ◌>>=◌ {ℓ κ} : {A : Type ℓ} {B : Type κ} → Result A → (A → Result B) → Result B
err failure >>= next = err failure
ok value >>= next = next value

abbrev pub ◌>>◌ {ℓ} : {B : Type ℓ} → Result (Unit {0}) → Result B → Result B
check >> next = check >>= λ passed. next

-- `if test { return err }`.
abbrev pub refuse_if : Bool → Error → Result (Unit {0})
refuse_if true e = err e
refuse_if false e = ok tt

abbrev pub is_ok {ℓ} : {A : Type ℓ} → Result A → Bool
is_ok (ok a) = true
is_ok (err e) = false

pub Result-cases {ℓ} :
    {A : Type ℓ} (r : Result A) → ((a : A) × (r ≡ ok a)) ⊎ ((e : Error) × (r ≡ err e))
Result-cases (ok a) = inl (a, refl)
Result-cases (err e) = inr (e, refl)

-- A chain succeeds when both of its parts do.
pub >>=-then {ℓ κ μ} :
    {A : Type ℓ} {B : Type κ} {C : Type μ} (m : Result A) (f : A → Result B) (b : B)
    → m >>= f ≡ ok b
    → ((a : A) → m ≡ ok a → f a ≡ ok b → C)
    → C
>>=-then (ok a) f b h next = next a refl h
>>=-then (err e) f b h next = cc

-- errors.Join of two errors that may be nil.
abbrev pub join_optional : Option Error → Option Error → Option Error
join_optional none e = e
join_optional (some e) none = some e
join_optional (some e) (some f) = some (Error.join e f)

abbrev default_status : Option ℤ → ℤ
default_status none = ℤ.pos 400
default_status (some c) = if is_zero c then ℤ.pos 400 else c

abbrev or_zero : Option ℤ → ℤ
or_zero none = ℤ.pos 0
or_zero (some c) = c

abbrev pub first_of_two {ℓ} : {A : Type ℓ} → Option A → Option A → Option A
first_of_two none b = b
first_of_two (some a) b = some a

-- The status of the first error in the tree with a StatusCode method: errors.As and its call.
unfoldable pub status_of : Error → Option ℤ
status_of (Error.message s ws) = none
status_of (Error.wrapped s e) = status_of e
status_of (Error.input c e) = some (if is_zero c then default_status (status_of e) else c)
status_of (Error.binding s e) = some (if is_zero s.code then or_zero (status_of e) else s.code)
status_of (Error.absence o e) = status_of e
status_of (Error.coded c s) = some c
status_of (Error.prerequisite p q e) = status_of e
status_of (Error.join e f) = first_of_two (status_of e) (status_of f)

-- (*input.Error).StatusCode
unfoldable pub input_status_code : ℤ → Error → ℤ
unfolding status_of
input_status_code code cause = if is_zero code then default_status (status_of cause) else code

-- (*BindingError).StatusCode
unfoldable pub status_code : BindingSite → Error → ℤ
unfolding status_of
status_code site cause = if is_zero site.code then or_zero (status_of cause) else site.code

-- Only external data-point kinds acquire client-error semantics.
unfoldable pub is_external : String → Bool
is_external kind =
    str_eq kind "query"
    || (str_eq kind "path"
        || (str_eq kind "header"
            || (str_eq kind "cookie" || (str_eq kind "form" || str_eq kind "body"))))

-- BindingSpec.inputError
unfoldable pub input_error : String → Error → Error
unfolding is_external
input_error kind e = if is_external kind then Error.input (ℤ.pos 0) e else e

-- BindingSpec.requiredAbsence: whether an absence error was made, and the error.
unfoldable pub required_absence : String → String → Bool × Error
unfolding input_error
required_absence kind in_path =
    let diagnostic =
      Error.message "missing required %s value %q" (List.◌∷◌ kind (List.◌∷◌ in_path List.[])) in
    elim (input_error kind diagnostic) [
      | Error.input c e ↦ (true, Error.input c (Error.absence none diagnostic))
      | other ↦ (false, other)
    ]

-- `absent.owner = failure`, for the absence error directly under the failure's input error.
unfoldable pub set_owner : ℕ → Error → Error
set_owner address (Error.input c (Error.absence o e)) =
    Error.input c (Error.absence (some address) e)
set_owner address e = e

abbrev owned_by : Option ℕ → ℕ → Bool
owned_by none a = false
owned_by (some b) a = nat_eq b a

-- (*BindingError).requiredAbsenceMessage: the name that the message shows.
unfoldable pub required_absence_message : BindingSite → Error → Option String
required_absence_message site (Error.input c (Error.absence o e)) =
    if owned_by o site.address
    then some (if str_eq site.name "" then site.path else site.name)
    else none
required_absence_message site _ = none

-- What (*BindingError).Error prints.
pub data Shown : Type 0 where
  -- the authored message, with the printed cause in place of ${error}
  authored : String → Error → Shown
  -- "parameter %s is required"
  parameter_required : String → Shown
  -- the standard text of an input error's status
  status_text : ℤ → Shown
  -- "bind %s: %v"
  generic : String → Error → Shown

-- errors.As for *input.Error: its code and cause.
unfoldable pub as_input : Error → Option (ℤ × Error)
as_input (Error.message s ws) = none
as_input (Error.wrapped s e) = as_input e
as_input (Error.input c e) = some (c, e)
as_input (Error.binding s e) = as_input e
as_input (Error.absence o e) = as_input e
as_input (Error.coded c s) = none
as_input (Error.prerequisite p q e) = as_input e
as_input (Error.join e f) = first_of_two (as_input e) (as_input f)

-- (*BindingError).Error
unfoldable pub show_error : BindingSite → Error → Shown
unfolding as_input required_absence_message input_status_code
show_error site cause =
    if str_eq site.message ""
    then elim (required_absence_message site cause) [
      | some name ↦ parameter_required name
      | none ↦ elim (as_input cause) [
        | some (c, e) ↦ status_text (input_status_code c e)
        | none ↦ generic site.path cause
      ]
    ]
    else authored site.message (elim (as_input cause) [ some (c, e) ↦ e | none ↦ cause ])

-- copyBindingError: the copy is another object.
unfoldable pub copy_binding_error : ℕ → BindingSite → BindingSite
copy_binding_error fresh site = record site { address = fresh }
