-- ===== src/Examples/Envelopes.antt =====
-- Runs of the handlers of errors and of bodies.
use ishly_back.Prelude.{true, ◌≡◌, refl, Option, none, some, String, arith, false}
use ishly_back.Core.Errors.{Error}
use ishly_back.Core.Envelope.{
  Json, Fields, Items, Response, Kind, Exc, Outcome, Context, exc_of, answer, render,
}
use ishly_back.Core.Envelope.Answers.{DrfHandler, IsEnvelope, answer-IsEnvelope, member}
use ishly_back.Core.Envelope.Refusals.{answer_service_error}

abbrev repr : Json → String
repr j = "{...}"

abbrev plain_body : Json
plain_body = Json.object (Fields.field "detail" (Json.string "Not found.") Fields.no_fields)

abbrev by_kind : Kind → Option Response
by_kind (Kind.api status) = some (record { status = status; body = plain_body })
by_kind Kind.http404 = some (record { status = 404; body = plain_body })
by_kind Kind.permission_denied = some (record { status = 403; body = plain_body })
by_kind Kind.django_validation = none
by_kind Kind.other = none

abbrev drf : DrfHandler
drf = record {
  handle = λ exc. by_kind exc.kind;
  api = λ exc status e. (plain_body, rw e refl);
  missing = λ exc e. (plain_body, rw e refl);
  denied = λ exc e. (plain_body, rw e refl);
  invalid = λ exc e. rw e refl;
  unknown = λ exc e. rw e refl;
}

-- A serializer refuses a price: the first message of the first field is taken.
abbrev invalid_price : Exc
invalid_price = record {
  kind = Kind.api 400;
  default_code = some "invalid";
  detail = some (
      Json.object (
        Fields.field "price" (Json.array (Items.item (Json.string "Too small.") Items.no_items))
          Fields.no_fields));
  as_text = "";
}

answer-IsEnvelope_example :
    (r : Response) × (answer repr drf.handle (Outcome.raised invalid_price) ≡ some r) × IsEnvelope r
answer-IsEnvelope_example =
    answer-IsEnvelope repr drf (Outcome.raised invalid_price)
      (omega arith, (Json.string "Too small.", refl))

answer_service_error_example :
    (r : Response) × (error : Json) × (answer repr drf.handle
        (Outcome.raised (exc_of Error.job_state "Job cannot be accepted."))
      ≡ some r)
    × (r.status ≡ 409)
    × (member "success" r.body ≡ some (Json.bool false))
    × (member "error" r.body ≡ some error)
    × (member "code" error ≡ some (Json.string "invalid_job_state"))
    × (member "message" error ≡ some (Json.string "Job cannot be accepted."))
answer_service_error_example =
    answer_service_error repr drf Error.job_state "Job cannot be accepted."

-- An answer to a callback of Payme is wrapped like any other.
payme_reply-wrapped :
    let reply = Json.object (Fields.field "result" Json.null Fields.no_fields) in
    render (Context.context (some 200)) reply
    ≡ Json.object
        (Fields.field "success" (Json.bool true) (Fields.field "data" reply Fields.no_fields))
unfolding render
payme_reply-wrapped = refl
