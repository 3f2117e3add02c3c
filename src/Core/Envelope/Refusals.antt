-- ===== src/Core/Envelope/Refusals.antt =====
-- The answers to the exceptions of the services and to those of Django, and the health check.
use ishly_back.Prelude.{
  ℕ, ◌≤◌, ◌≡◌, ◌∙◌, refl, Bool, true, false, String, Option, none, some, ◌==◌, if◌then◌else◌, arith,
  ap,
}
use ishly_back.Core.Errors.{Error, status_code}
use ishly_back.Core.Envelope.{
  Json, Response, Kind, Exc, Outcome, default_code_of, exc_of, or_error, message_of, error_body,
  render, rendered, answer, health, Fields, details_of,
}
use ishly_back.Core.Envelope.Answers.{member, DrfHandler, status_for, exc-Handled, Handled-answer}

-- The status and the code that a client is promised for each kind of error.
abbrev pub expected : Error → ℕ × String
expected Error.validation = (422, "validation_error")
expected Error.not_found = (404, "not_found")
expected Error.conflict = (409, "conflict")
expected Error.forbidden = (403, "forbidden")
expected Error.unauthorized = (401, "unauthorized")
expected Error.rate_limit = (429, "rate_limit_exceeded")
expected Error.insufficient_balance = (402, "insufficient_balance")
expected Error.job_state = (409, "invalid_job_state")
expected Error.otp = (400, "otp_error")
expected Error.service_unavailable = (503, "service_unavailable")
expected Error.does_not_exist = (500, "error")
expected Error.integrity = (500, "error")
expected Error.attribute = (500, "error")
expected Error.not_supported = (500, "error")

expected-codes :
    (e : Error) → (status_code e ≡ (expected e).0) × (or_error (default_code_of e) ≡ (expected e).1)
unfolding status_code default_code_of
expected-codes Error.validation = (refl, refl)
expected-codes Error.not_found = (refl, refl)
expected-codes Error.conflict = (refl, refl)
expected-codes Error.forbidden = (refl, refl)
expected-codes Error.unauthorized = (refl, refl)
expected-codes Error.rate_limit = (refl, refl)
expected-codes Error.insufficient_balance = (refl, refl)
expected-codes Error.job_state = (refl, refl)
expected-codes Error.otp = (refl, refl)
expected-codes Error.service_unavailable = (refl, refl)
expected-codes Error.does_not_exist = (refl, refl)
expected-codes Error.integrity = (refl, refl)
expected-codes Error.attribute = (refl, refl)
expected-codes Error.not_supported = (refl, refl)

-- the object under "error"
abbrev error_of : String → String → Json → Json
error_of code message details = Json.object (
    Fields.field "code" (Json.string code) (
      Fields.field "message" (Json.string message)
        (Fields.field "details" details Fields.no_fields)))

module _ (repr : Json → String) (d : DrfHandler) where
  exc_of-attributes :
      (e : Error) (message : String)
      → let exc = exc_of e message in
        (status_for exc.kind ≡ status_code e)
        × (exc.default_code ≡ default_code_of e)
        × (message_of repr exc.as_text exc.detail ≡ some (Json.string message))
        × (400 ≤ status_code e)
  unfolding status_code default_code_of
  exc_of-attributes Error.validation message = (refl, refl, refl, omega arith)
  exc_of-attributes Error.not_found message = (refl, refl, refl, omega arith)
  exc_of-attributes Error.conflict message = (refl, refl, refl, omega arith)
  exc_of-attributes Error.forbidden message = (refl, refl, refl, omega arith)
  exc_of-attributes Error.unauthorized message = (refl, refl, refl, omega arith)
  exc_of-attributes Error.rate_limit message = (refl, refl, refl, omega arith)
  exc_of-attributes Error.insufficient_balance message = (refl, refl, refl, omega arith)
  exc_of-attributes Error.job_state message = (refl, refl, refl, omega arith)
  exc_of-attributes Error.otp message = (refl, refl, refl, omega arith)
  exc_of-attributes Error.service_unavailable message = (refl, refl, refl, omega arith)
  exc_of-attributes Error.does_not_exist message = (refl, refl, refl, omega arith)
  exc_of-attributes Error.integrity message = (refl, refl, refl, omega arith)
  exc_of-attributes Error.attribute message = (refl, refl, refl, omega arith)
  exc_of-attributes Error.not_supported message = (refl, refl, refl, omega arith)

  error_response :
      {s s' : ℕ} {c c' : Option String}
      → s ≡ s'
      → c ≡ c'
      → (message body : Json)
      → ◌≡◌ {A = Option Response}
          (some (record { status = s; body = error_body repr (or_error c) message body }))
          (some (record { status = s'; body = error_body repr (or_error c') message body }))
  error_response same_status same_code message body = rw same_status (rw same_code refl)

  service_answer :
      (e : Error) (message : String)
      → (body : Json) × (answer repr d.handle (Outcome.raised (exc_of e message))
          ≡ some (record {
            status = status_code e;
            body = error_body repr (or_error (default_code_of e)) (Json.string message) body;
          }))
  service_answer e message =
      let exc = exc_of e message in
      let (status, code, has, refuses) = exc_of-attributes e message in
      let h = exc-Handled repr d exc exc.kind (Json.string message) refl has in
      (
        h.body,
        Handled-answer repr d exc (Json.string message) (status_for exc.kind) (rw status refuses) h
            ∙ error_response status code (Json.string message) h.body,
      )

  -- An exception that a service raises is answered with the status of its kind, and with a body whose
  -- `success` is false and whose `error` has the code of its kind and its message: 422 for a validation,
  -- 404 for what is not found, 409 for a conflict and for the state of a job, 403, 401, 429 for a rate
  -- limit, 402 for a balance, 400 for a code, 503 for a service, and 500 under "error" for what is no
  -- exception of the services.
  pub answer_service_error :
      (e : Error) (message : String)
      → (r : Response) × (error : Json) × (answer repr d.handle (Outcome.raised (exc_of e message))
          ≡ some r)
        × (r.status ≡ (expected e).0)
        × (member "success" r.body ≡ some (Json.bool false))
        × (member "error" r.body ≡ some error)
        × (member "code" error ≡ some (Json.string (expected e).1))
        × (member "message" error ≡ some (Json.string message))
  answer_service_error e message =
      let (body, is_answered) = service_answer e message in
      let (status, code) = expected-codes e in
      let r : Response = record {
        status = status_code e;
        body = error_body repr (or_error (default_code_of e)) (Json.string message) body;
      } in
      (
        r,
        error_of (or_error (default_code_of e)) message (details_of body),
        is_answered,
        status,
        refl,
        refl,
        ap (λ (t : String). some (Json.string t)) code,
        refl,
      )

  -- An `Http404` of Django, as `get_object_or_404` raises it, is answered with a 404 under the code
  -- "error" and not under the code "not_found" that the services use.
  pub answer_missing :
      (exc : Exc)
      → exc.kind ≡ Kind.http404
      → exc.default_code ≡ none
      → exc.detail ≡ none
      → (body : Json) × (answer repr d.handle (Outcome.raised exc)
          ≡ some (record {
            status = 404;
            body = error_body repr "error" (Json.string exc.as_text) body;
          }))
  answer_missing exc kind no_code no_detail =
      let message = Json.string exc.as_text in
      let h = exc-Handled repr d exc Kind.http404 message kind (rw no_detail refl) in
      (
        h.body,
        Handled-answer repr d exc message 404 (omega arith) h
            ∙ error_response refl no_code message h.body,
      )

-- The health check says "success" only where it says "healthy": the answer of a degraded service has no
-- such member.
health-success :
    (database : Bool) (cache : Option (Option String))
    → member "success" (rendered (health database cache)).body
      ≡ (if (health database cache).status == 200 then some (Json.bool true) else none)
unfolding health render
health-success true none = refl
health-success true (some c) = refl
health-success false c = refl

-- A cache that has lost the value counts as an error, and the service as healthy.
health-lost : (health true (some none)).status ≡ 200
unfolding health
health-lost = refl
