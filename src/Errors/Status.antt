-- ===== src/Errors/Status.antt =====
-- scope.go: status codes and messages of binding errors.
use bindly.Prelude.{ℕ, String, ◌≡◌, ◌≢◌, true, false, arith, nat_eq_iff, str_eq, if◌then◌else◌}
use bindly.Prelude.Int.{ℤ, is_zero}
use bindly.Errors.{
  BindingSite, Error, input_status_code, status_code, status_of, is_external, input_error,
  required_absence, set_owner, required_absence_message, show_error, copy_binding_error,
  parameter_required, status_text,
}

-- An input error never reports status 0: without a code it has that of its cause, or 400.
input_status_code-ne-zero :
    (code : ℤ) (cause : Error) → is_zero (input_status_code code cause) ≡ false
unfolding input_status_code
input_status_code-ne-zero code cause = ground arith

-- A binding error without an authored code reports for a failure that was classified as external
-- input what the input error reports, which is never 0.
pub status_code-input_error :
    (site : BindingSite) (kind : String) (e : Error)
    → is_zero site.code ≡ true
    → is_external kind ≡ true
    → (status_code site (input_error kind e) ≡ input_status_code (ℤ.pos 0) e)
      × (is_zero (status_code site (input_error kind e)) ≡ false)
unfolding status_code input_error input_status_code
status_code-input_error site kind e h x = ground arith

-- The failure that `bind` makes of its own required absence.
abbrev pub own_absence : BindingSite → Error
own_absence site = set_owner site.address (required_absence site.kind site.in_path).1

-- With no authored message, the failure of a binding whose own external value is absent names
-- the parameter, by its name or else by its path; a copy of that failure at another address has
-- lost the name and shows only the text of status 400.
pub show_error-own_absence :
    (site : BindingSite) (fresh : ℕ)
    → str_eq site.message "" ≡ true
    → is_external site.kind ≡ true
    → fresh ≢ site.address
    → (show_error site (own_absence site)
        ≡ parameter_required (if str_eq site.name "" then site.path else site.name))
      × (show_error (copy_binding_error fresh site) (own_absence site) ≡ status_text (ℤ.pos 400))
unfolding show_error set_owner required_absence input_error copy_binding_error
    required_absence_message
show_error-own_absence site fresh h x d =
    rw (h, x) (ground (arith, nat_eq_iff site.address site.address, nat_eq_iff site.address fresh))

-- Its status is 400.
pub status_code-own_absence :
    (site : BindingSite)
    → is_external site.kind ≡ true
    → is_zero site.code ≡ true
    → status_code site (own_absence site) ≡ ℤ.pos 400
unfolding status_code set_owner required_absence input_error status_of
status_code-own_absence site external uncoded = ground arith
