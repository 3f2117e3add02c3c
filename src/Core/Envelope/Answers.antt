-- ===== src/Core/Envelope/Answers.antt =====
-- What every answer looks like: an envelope with `success`, and for an error its code and its message.
use text.Mathlib.Text.{◌==◌ as str_eq}
use ishly_back.Prelude.{
  ℕ, ◌≤◌, ◌<◌, ◌≡◌, ◌≢◌, refl, inl, inr, Bool, true, false, String, Option, none, some, ltb,
  if◌then◌else◌, arith, Bool-cases,
}
use ishly_back.Core.Envelope.{
  Json, Fields, Response, Kind, Exc, Context, Outcome, or_error, message_of, error_body, fallback,
  custom_exception_handler, has_success, wrapped, render, answer,
}

abbrev found : Json → Option Json → Bool → Option Json
found j rest true = some j
found j rest false = rest

-- A member of an object, by its key.
abbrev pub member : String → Json → Option Json
member key (Json.object Fields.no_fields) = none
member key (Json.object (Fields.field k j fields)) =
    found j (member key (Json.object fields)) (str_eq k key)
member key _ = none

-- `exception_handler` of the REST framework, as its documentation has it: an `APIException` gets its
-- status, `Http404` and `PermissionDenied` of Django get theirs, and nothing else is handled.
pub record DrfHandler : Type 0 where
  pub handle : Exc → Option Response
  pub api :
      (exc : Exc) (status : ℕ)
      → exc.kind ≡ Kind.api status
      → (body : Json) × (handle exc ≡ some (record { status = status; body = body }))
  pub missing :
      (exc : Exc)
      → exc.kind ≡ Kind.http404
      → (body : Json) × (handle exc ≡ some (record { status = 404; body = body }))
  pub denied :
      (exc : Exc)
      → exc.kind ≡ Kind.permission_denied
      → (body : Json) × (handle exc ≡ some (record { status = 403; body = body }))
  pub invalid : (exc : Exc) → exc.kind ≡ Kind.django_validation → handle exc ≡ none
  pub unknown : (exc : Exc) → exc.kind ≡ Kind.other → handle exc ≡ none

-- A body with `success` for the status, and beside it the value or the error.
pub record IsEnvelope (r : Response) : Type 0 where
  pub success : member "success" r.body ≡ some (Json.bool (ltb r.status 400))
  pub content : member (if ltb r.status 400 then "data" else "error") r.body ≢ none

-- A status that says that a request failed.
abbrev pub IsRefusal : Kind → Type 0
IsRefusal (Kind.api status) = 400 ≤ status
IsRefusal _ = Unit

-- A value that a view returns for a success and that is no envelope yet, or an exception with a message
-- and with the status of an error.
abbrev pub IsPlain : (Json → String) → Outcome → Type 0
IsPlain repr (Outcome.returned r) = (r.status < 400) × (has_success r.body ≡ false)
IsPlain repr (Outcome.raised exc) =
    IsRefusal exc.kind
    × ((message : Json) × (message_of repr exc.as_text exc.detail ≡ some message))

-- Rendering a body that is rendered already changes nothing.
pub render_twice : (c : Context) (body : Json) → render c (render c body) ≡ render c body
unfolding render
render_twice Context.no_context body = refl
render_twice (Context.context none) body = elim (Bool-cases (has_success body)) [
  | inl has ↦ ground (arith, has)
  | inr has_not ↦ ground (arith, has_not)
]
render_twice (Context.context (some status)) body = elim (Bool-cases (has_success body)) [
  | inl has ↦ ground (arith, has)
  | inr has_not ↦ ground (arith, has_not)
]

-- The status that an exception is answered with.
abbrev pub status_for : Kind → ℕ
status_for (Kind.api status) = status
status_for Kind.http404 = 404
status_for Kind.permission_denied = 403
status_for Kind.django_validation = 400
status_for Kind.other = 500

is_below : (status : ℕ) → status < 400 → ltb status 400 ≡ true
is_below status good = ground arith

is_above : (status : ℕ) → 400 ≤ status → ltb status 400 ≡ false
is_above status refuses = ground arith

module _ (repr : Json → String) (d : DrfHandler) where
  -- What the handler makes of an exception with a message.
  pub record Handled (exc : Exc) (message : Json) (status : ℕ) : Type 0 where
    pub body : Json
    pub is_answered :
        custom_exception_handler repr d.handle exc
        ≡ some (record {
          status = status;
          body = error_body repr (or_error exc.default_code) message body;
        })

  with_response :
      (exc : Exc) (message : Json) (r : Response)
      → d.handle exc ≡ some r
      → message_of repr exc.as_text exc.detail ≡ some message
      → Handled exc message r.status
  unfolding custom_exception_handler
  with_response exc message r handles has = record {
    body = r.body;
    is_answered = rw handles (rw has refl);
  }

  without_response :
      (exc : Exc) (message : Json) (status : ℕ)
      → d.handle exc ≡ none
      → fallback exc exc.kind ≡ (exc, record { status = status; body = Json.null })
      → message_of repr exc.as_text exc.detail ≡ some message
      → Handled exc message status
  unfolding custom_exception_handler
  without_response exc message status handles falls has = record {
    body = Json.null;
    is_answered = rw handles (rw falls (rw has refl));
  }

  pub exc-Handled :
      (exc : Exc) (kind : Kind) (message : Json)
      → exc.kind ≡ kind
      → message_of repr exc.as_text exc.detail ≡ some message
      → Handled exc message (status_for kind)
  exc-Handled exc (Kind.api status) message e has =
      let (body, handles) = d.api exc status e in
      with_response exc message (record { status = status; body = body }) handles has
  exc-Handled exc Kind.http404 message e has =
      let (body, handles) = d.missing exc e in
      with_response exc message (record { status = 404; body = body }) handles has
  exc-Handled exc Kind.permission_denied message e has =
      let (body, handles) = d.denied exc e in
      with_response exc message (record { status = 403; body = body }) handles has
  exc-Handled exc Kind.django_validation message e has =
      without_response exc message 400 (d.invalid exc e) (rw e refl) has
  exc-Handled exc Kind.other message e has =
      without_response exc message 500 (d.unknown exc e) (rw e refl) has

  status_for-le : (kind : Kind) → IsRefusal kind → 400 ≤ status_for kind
  status_for-le (Kind.api status) refuses = refuses
  status_for-le Kind.http404 refuses = omega arith
  status_for-le Kind.permission_denied refuses = omega arith
  status_for-le Kind.django_validation refuses = omega arith
  status_for-le Kind.other refuses = omega arith

  pub Handled-answer :
      (exc : Exc) (message : Json) (status : ℕ)
      → 400 ≤ status
      → (h : Handled exc message status)
      → answer repr d.handle (Outcome.raised exc)
        ≡ some (record {
          status = status;
          body = error_body repr (or_error exc.default_code) message h.body;
        })
  unfolding render
  Handled-answer exc message status refuses h = rw h.is_answered (ground arith)

  -- A success is wrapped and an error is put into an envelope: every outcome of a view is answered with a
  -- body whose `success` says whether the status is below 400, and that has the `data` of a success or
  -- the `error` of a failure. This is where a value is returned with a status below 400 and has no
  -- `success` of its own, and an exception has a message and no status below 400.
  pub answer-IsEnvelope :
      (outcome : Outcome)
      → IsPlain repr outcome
      → (r : Response) × (answer repr d.handle outcome ≡ some r) × IsEnvelope r
  unfolding render
  answer-IsEnvelope (Outcome.returned r) (good, plain) =
      let below = is_below r.status good in
      (
        record { status = r.status; body = wrapped r.body },
        ground (arith, plain),
        record { success = rw below refl; content = rw below (λ e. ground (arith, e)) },
      )
  answer-IsEnvelope (Outcome.raised exc) (refuses, (message, has)) =
      let h = exc-Handled exc exc.kind message refl has in
      let le = status_for-le exc.kind refuses in
      (
        record {
          status = status_for exc.kind;
          body = error_body repr (or_error exc.default_code) message h.body;
        },
        Handled-answer exc message (status_for exc.kind) le h,
        record {
          success = rw (is_above _ le) refl;
          content = rw (is_above _ le) (λ e. ground (arith, e));
        },
      )
