-- ===== src/Deferred.antt =====
-- provider/request/deferred.go: a request whose body and form are read on demand, and only once.
-- Each method runs under the request's lock and is one step. What net/http makes of the body is a
-- parameter; a context is the errors that it reports at the four places where a method asks it.
pub mod Once
use bindly.Prelude.{
  ℕ, suc, String, Bool, true, false, not, ◌&&◌, Option, none, some, List, [], is_some,
  if◌then◌else◌,
}
use bindly.Prelude.Int.{ℤ}
use bindly.Errors.{Error}

pub record Context : Type 0 where
  pub entering : Option Error
  pub reading : Option Error
  pub after_read : Option Error
  pub after_parse : Option Error

-- What ParseForm and ParseMultipartForm made of a clone of the request.
pub record Parsed (F M : Type 0) : Type 0 where
  pub error : Option Error
  pub post_form : F
  pub multipart : Option M
  -- clone.MultipartForm != d.request.MultipartForm
  pub is_new : Bool

-- deferredRequest, with the request's body as its bytes and the error that ends them; `reads`
-- counts the calls of io.ReadAll on it, `removals` those of RemoveAll.
pub record DeferredRequest (F M : Type 0) : Type 0 where
  pub body : Option (String × Option Error)
  pub reads : ℕ
  pub removals : ℕ
  pub raw_ready : Bool
  pub raw : String
  pub raw_err : Option Error
  pub form_ready : Bool
  pub form : Option F
  pub multipart : Option M
  pub form_err : Option Error
  pub cleanup : Option M
  pub closed : Bool
  pub close_err : Option Error

-- Bytes and an error, as `bytes` returns them.
abbrev pub Bytes : Type 0
Bytes = String × Option Error

abbrev pub closed_error : Error
closed_error = Error.message "request source is closed" []

-- A form's values, its multipart form and an error, as `formValues` returns them.
abbrev pub Form : Type 0 → Type 0 → Type 0
Form F M = (Option F × Option M) × Option Error

module _ {F M : Type 0} where
  -- io.ReadAll, and the snapshot in the body's place.
  unfoldable pub read_body : DeferredRequest F M → DeferredRequest F M
  read_body d = elim d.body [
    | none ↦ record d { raw_ready = true }
    | some (bytes, e) ↦ record d {
      raw_ready = true;
      raw = bytes;
      raw_err = e;
      body = some (bytes, none);
      reads = suc d.reads;
    }
  ]

  abbrev note_cancel : Context → DeferredRequest F M → DeferredRequest F M
  note_cancel ctx d = record d { raw_err = if is_some d.raw_err then d.raw_err else ctx.after_read }

  -- (*deferredRequest).readLocked
  unfoldable pub read_locked : Context → DeferredRequest F M → Bytes × DeferredRequest F M
  read_locked ctx d =
      if d.closed
      then (("", some closed_error), d)
      else if d.raw_ready
      then ((d.raw, d.raw_err), d)
      else if is_some ctx.reading
      then (("", ctx.reading), d)
      else (let d' = note_cancel ctx (read_body d) in ((d'.raw, d'.raw_err), d'))

  -- (*deferredRequest).bytes
  unfoldable pub bytes : Context → DeferredRequest F M → Bytes × DeferredRequest F M
  bytes ctx d = if is_some ctx.entering then (("", ctx.entering), d) else read_locked ctx d

  module _ (parse : String → Parsed F M) where
    abbrev owns : Parsed F M → Option M → Option M
    owns p kept = if is_some p.multipart && p.is_new then p.multipart else kept

    -- The clone parsed, and what is kept of it.
    unfoldable pub parse_form :
        Context → String → DeferredRequest F M → Form F M × DeferredRequest F M
    parse_form ctx raw d =
        let p = parse raw in
        let d' = record d { form_ready = true; cleanup = owns p d.cleanup } in
        elim p.error [
          | some e ↦
              let failed = some (Error.input (ℤ.pos 0) e) in
              (((none, none), failed), record d' { form_err = failed })
          | none ↦
              if is_some ctx.after_parse
              then (((none, none), ctx.after_parse), record d' { form_err = ctx.after_parse })
              else (
                ((some p.post_form, p.multipart), none),
                record d' { form = some p.post_form; multipart = p.multipart },
              )
        ]

    -- (*deferredRequest).formValues
    unfoldable pub form_values : Context → DeferredRequest F M → Form F M × DeferredRequest F M
    form_values ctx d =
        if is_some ctx.entering
        then (((none, none), ctx.entering), d)
        else if d.closed
        then (((none, none), some closed_error), d)
        else if d.form_ready
        then (((d.form, d.multipart), d.form_err), d)
        else (let (read, d') = read_locked ctx d in
            if is_some read.1 then (((none, none), read.1), d') else parse_form ctx read.0 d')

  -- (*deferredRequest).close, with what RemoveAll returns.
  unfoldable pub close :
      (M → Option Error) → DeferredRequest F M → Option Error × DeferredRequest F M
  close remove_all d = if d.closed then (d.close_err, d) else elim d.cleanup [
    | none ↦ (d.close_err, record d { closed = true })
    | some m ↦ (
      remove_all m,
      record d { closed = true; close_err = remove_all m; removals = suc d.removals },
    )
  ]
