-- ===== src/Tests/Requests.antt =====
-- Examples of requests read on demand, of request values and of resource names.
use bindly.Prelude.{◌≡◌, ◌≤◌, refl, String, true, false, Option, none, some, List, [], ◌∷◌}
use bindly.Errors.{Error}
use bindly.Deferred.{Context, Parsed, DeferredRequest, bytes, read_locked, form_values}
use bindly.Deferred.Once.{
  Call, ask_bytes, ask_form, ask_close, call, call_all, call_all-once, bytes-call_all,
}

abbrev live : Context
live = record { entering = none; reading = none; after_read = none; after_parse = none }

abbrev untouched : DeferredRequest String String
untouched = record {
  body = some ("a=1", none);
  reads = 0;
  removals = 0;
  raw_ready = false;
  raw = "";
  raw_err = none;
  form_ready = false;
  form = none;
  multipart = none;
  form_err = none;
  cleanup = none;
  closed = false;
  close_err = none;
}

abbrev parsed : String → Parsed String String
parsed raw = record { error = none; post_form = raw; multipart = some "file"; is_new = true }

abbrev removed : String → Option Error
removed m = none

abbrev calls : List (Call)
calls = ask_form live ∷ ask_bytes live ∷ ask_close ∷ ask_close ∷ []

abbrev finished : DeferredRequest String String
finished = call_all parsed removed calls untouched

call_all-once_example :
    (finished.reads ≤ 1)
    × (finished.removals ≤ 1)
    × (finished.form_ready ≡ true → (finished.raw_ready ≡ true) × (finished.raw_err ≡ none))
call_all-once_example = call_all-once parsed removed calls untouched refl refl refl

abbrev already_read : DeferredRequest String String
already_read = record untouched {
  body = some ("a=", none);
  raw_ready = true;
  raw = "a=";
  raw_err = some (Error.message "unexpected EOF" []);
}

bytes-call_all_example :
    (bytes live (call_all parsed removed (ask_bytes live ∷ ask_form live ∷ []) already_read)).0
    ≡ ("a=", some (Error.message "unexpected EOF" []))
unfolding call_all call bytes form_values read_locked
bytes-call_all_example =
    bytes-call_all parsed removed (ask_bytes live ∷ ask_form live ∷ []) already_read live refl refl
