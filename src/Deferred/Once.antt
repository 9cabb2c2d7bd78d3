-- ===== src/Deferred/Once.antt =====
-- provider/request/deferred.go: sequences of calls on one request.
use bindly.Prelude.{
  ◌≤◌, ◌≡◌, refl, String, true, false, Option, none, some, List, [], ◌∷◌, if◌then◌else◌, arith,
}
use bindly.Errors.{Error}
use bindly.Deferred.{
  Context, Parsed, DeferredRequest, closed_error, read_body, read_locked, bytes, parse_form,
  form_values, close,
}

-- A call of one of the methods.
pub data Call : Type 0 where
  ask_bytes ask_form : Context → Call
  ask_close : Call

module _ {F M : Type 0} (parse : String → Parsed F M) (remove_all : M → Option Error) where
  unfoldable pub call : Call → DeferredRequest F M → DeferredRequest F M
  call (ask_bytes ctx) d = (bytes ctx d).1
  call (ask_form ctx) d = (form_values parse ctx d).1
  call ask_close d = (close remove_all d).1

  unfoldable pub call_all : List Call → DeferredRequest F M → DeferredRequest F M
  unfolding call
  call_all [] d = d
  call_all (c ∷ cs) d = call_all cs (call c d)

  -- Before the body is read nothing has been, and a form only comes from a body that was read.
  pub record IsConsistent (d : DeferredRequest F M) : Type 0 where
    pub reads_once : d.reads ≤ (if d.raw_ready then 1 else 0)
    pub removes_once : d.removals ≤ (if d.closed then 1 else 0)
    pub form_read : d.form_ready ≡ true → (d.raw_ready ≡ true) × (d.raw_err ≡ none)

  call-IsConsistent :
      (c : Call) (d : DeferredRequest F M) → IsConsistent d → IsConsistent (call c d)
  unfolding call bytes form_values close read_locked parse_form read_body
  call-IsConsistent (ask_bytes ctx) d k =
      let record { reads_once = r; removes_once = m; form_read = f } = k in
      record {
        reads_once = ground arith;
        removes_once = ground arith;
        form_read = λ t. (ground arith, ground arith);
      }
  call-IsConsistent (ask_form ctx) d k =
      let record { reads_once = r; removes_once = m; form_read = f } = k in
      record {
        reads_once = ground arith;
        removes_once = ground arith;
        form_read = λ t. (ground arith, ground arith);
      }
  call-IsConsistent ask_close d k =
      let record { reads_once = r; removes_once = m; form_read = f } = k in
      record {
        reads_once = ground arith;
        removes_once = ground arith;
        form_read = λ t. (ground arith, ground arith);
      }

  call_all-IsConsistent :
      (cs : List Call) (d : DeferredRequest F M) → IsConsistent d → IsConsistent (call_all cs d)
  unfolding call_all
  call_all-IsConsistent [] d k = k
  call_all-IsConsistent (c ∷ cs) d k = call_all-IsConsistent cs (call c d) (call-IsConsistent c d k)

  -- Over any calls on a request that nobody has touched, the body is read at most once, the
  -- multipart form's files are removed at most once, and a form is only ready after the body
  -- was read without an error.
  pub call_all-once :
      (cs : List Call) (d : DeferredRequest F M)
      → d.reads ≡ 0
      → d.removals ≡ 0
      → d.form_ready ≡ false
      → ((call_all cs d).reads ≤ 1)
        × ((call_all cs d).removals ≤ 1)
        × ((call_all cs d).form_ready ≡ true
            → ((call_all cs d).raw_ready ≡ true) × ((call_all cs d).raw_err ≡ none))
  call_all-once cs d r m f =
      let start : IsConsistent d = record {
        reads_once = ground arith;
        removes_once = ground arith;
        form_read = λ t. (ground arith, ground arith);
      } in
      let record { reads_once = r'; removes_once = m'; form_read = f' } =
        call_all-IsConsistent cs d start in
      (ground (arith, r'), ground (arith, m'), f')

  -- What has been read.
  abbrev IsSnapshot : String → Option Error → DeferredRequest F M → Type 0
  IsSnapshot raw e d = (d.raw_ready ≡ true) × (d.raw ≡ raw) × (d.raw_err ≡ e)

  call-IsSnapshot :
      (raw : String) (e : Option Error) (c : Call) (d : DeferredRequest F M)
      → IsSnapshot raw e d
      → IsSnapshot raw e (call c d)
  unfolding call bytes form_values close read_locked parse_form
  call-IsSnapshot raw e (ask_bytes ctx) d (a, b, c) = (ground arith, ground arith, ground arith)
  call-IsSnapshot raw e (ask_form ctx) d (a, b, c) = (ground arith, ground arith, ground arith)
  call-IsSnapshot raw e ask_close d (a, b, c) = (ground arith, ground arith, ground arith)

  call_all-IsSnapshot :
      (raw : String) (e : Option Error) (cs : List Call) (d : DeferredRequest F M)
      → IsSnapshot raw e d
      → IsSnapshot raw e (call_all cs d)
  unfolding call_all
  call_all-IsSnapshot raw e [] d s = s
  call_all-IsSnapshot raw e (c ∷ cs) d s =
      call_all-IsSnapshot raw e cs (call c d) (call-IsSnapshot raw e c d s)

  -- Once the body has been read, even in part, every later call with a live context returns the
  -- same bytes and the same error, whatever was called in between, until the request is closed,
  -- after which it returns the closed error and no bytes.
  pub bytes-call_all :
      (cs : List Call) (d : DeferredRequest F M) (ctx : Context)
      → d.raw_ready ≡ true
      → ctx.entering ≡ none
      → (bytes ctx (call_all cs d)).0
        ≡ (if (call_all cs d).closed then ("", some closed_error) else (d.raw, d.raw_err))
  unfolding bytes read_locked
  bytes-call_all cs d ctx r x =
      let (a, b, c) = call_all-IsSnapshot d.raw d.raw_err cs d (r, refl, refl) in
      ground (arith, a, b, c)
