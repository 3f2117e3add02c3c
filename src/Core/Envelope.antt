-- ===== src/Core/Envelope.antt =====
-- The bodies of answers: `custom_exception_handler` of apps/core/exceptions.py, `CustomJSONRenderer` of
-- apps/core/renderers.py and the health check of apps/core/views.py. The handler of the REST framework,
-- which the first one calls, is a parameter, and so is the text that Python makes of a list or a dict.
pub mod Answers
pub mod Refusals
use text.Mathlib.Text.{◌==◌ as str_eq}
use ishly_back.Prelude.{
  ℕ, Bool, true, false, ◌&&◌, ◌||◌, String, Option, none, some, leb, if◌then◌else◌, ◌≡◌, ◌≤◌,
}
use ishly_back.Core.Errors.{Error, status_code}

-- What a body can hold.
mutual
  pub data Json : Type 0 where
    null : Json
    bool : Bool → Json
    number : ℕ → Json
    string : String → Json
    array : Items → Json
    object : Fields → Json

  pub data Items : Type 0 where
    no_items : Items
    item : Json → Items → Items

  pub data Fields : Type 0 where
    no_fields : Fields
    field : String → Json → Fields → Fields

pub record Response : Type 0 where
  pub status : ℕ
  pub body : Json

-- The classes of exceptions that the handlers tell apart; an `APIException` has a status.
pub data Kind : Type 0 where
  api : ℕ → Kind
  http404 permission_denied django_validation other : Kind

-- An exception: its attributes, if it has them, and `str(exc)`.
pub record Exc : Type 0 where
  pub kind : Kind
  pub default_code : Option String
  pub detail : Option Json
  pub as_text : String

-- `default_code` of the classes in apps/core/exceptions.py; other exceptions have none.
unfoldable pub default_code_of : Error → Option String
default_code_of Error.validation = some "validation_error"
default_code_of Error.not_found = some "not_found"
default_code_of Error.conflict = some "conflict"
default_code_of Error.forbidden = some "forbidden"
default_code_of Error.unauthorized = some "unauthorized"
default_code_of Error.rate_limit = some "rate_limit_exceeded"
default_code_of Error.insufficient_balance = some "insufficient_balance"
default_code_of Error.job_state = some "invalid_job_state"
default_code_of Error.otp = some "otp_error"
default_code_of Error.service_unavailable = some "service_unavailable"
default_code_of Error.does_not_exist = none
default_code_of Error.integrity = none
default_code_of Error.attribute = none
default_code_of Error.not_supported = none

abbrev exc_with : ℕ → String → Option String → Exc
exc_with status message (some code) = record {
  kind = Kind.api status;
  default_code = some code;
  detail = some (string message);
  as_text = message;
}
exc_with status message none = record {
  kind = Kind.other;
  default_code = none;
  detail = none;
  as_text = message;
}

-- The exception that a service raises with a message.
abbrev pub exc_of : Error → String → Exc
exc_of e message = exc_with (status_code e) message (default_code_of e)

abbrev pub or_error : Option String → String
or_error none = "error"
or_error (some code) = code

-- `response.data if isinstance(response.data, dict) else {}`
abbrev pub details_of : Json → Json
details_of (object fields) = object fields
details_of _ = object no_fields

module _ (repr : Json → String) where
  -- `str(value)`
  abbrev pub str_of : Json → String
  str_of (string s) = s
  str_of j = repr j

  -- `first_val[0] if isinstance(first_val, list) else str(first_val)`; an empty list raises.
  abbrev pub first_of : Json → Option Json
  first_of (array no_items) = none
  first_of (array (item j js)) = some j
  first_of j = some (string (str_of j))

  -- The message of an exception; an empty dict raises.
  abbrev pub message_of : String → Option Json → Option Json
  message_of as_text none = some (string as_text)
  message_of as_text (some (array no_items)) = some (string as_text)
  message_of as_text (some (array (item j js))) = some j
  message_of as_text (some (object no_fields)) = none
  message_of as_text (some (object (field key j more))) = first_of j
  message_of as_text (some j) = some (string (str_of j))

  -- `response.data = {...}`
  abbrev pub error_body : String → Json → Json → Json
  error_body code message details = object (
      field "success" (bool false) (
        field "error"
          (object (
            field "code" (string code) (
              field "message" (string (str_of message))
                (field "details" (details_of details) no_fields))))
          no_fields))

  abbrev pub normalized : Exc → Response → Option Json → Option Response
  normalized exc response none = none
  normalized exc response (some message) =
      some (record response { body = error_body (or_error exc.default_code) message response.body })

-- The response to an exception that the framework leaves alone, and the exception from then on
abbrev pub fallback : Exc → Kind → Exc × Response
fallback exc Kind.http404 =
    (exc_of Error.not_found "Resource not found.", record { status = 404; body = null })
fallback exc Kind.permission_denied =
    (exc_of Error.forbidden "Permission denied.", record { status = 403; body = null })
fallback exc Kind.django_validation = (exc, record { status = 400; body = null })
fallback exc _ = (exc, record { status = 500; body = null })

abbrev pub handled : Exc → Option Response → Exc × Response
handled exc none = fallback exc exc.kind
handled exc (some response) = (exc, response)

-- `custom_exception_handler`; none where it raises itself
unfoldable pub custom_exception_handler :
    (Json → String) → (Exc → Option Response) → Exc → Option Response
custom_exception_handler repr exception_handler exc =
    let (exc', response) = handled exc (exception_handler exc) in
    normalized repr exc' response (message_of repr exc'.as_text exc'.detail)

abbrev pub has_key : String → Fields → Bool
has_key key no_fields = false
has_key key (field k j fields) = str_eq k key || has_key key fields

-- `isinstance(data, dict) and "success" in data`
abbrev pub has_success : Json → Bool
has_success (object fields) = has_key "success" fields
has_success _ = false

abbrev pub wrapped : Json → Json
wrapped data_body = object (field "success" (bool true) (field "data" data_body no_fields))

-- `renderer_context`, with the status of its response
pub data Context : Type 0 where
  no_context : Context
  context : Option ℕ → Context

abbrev pub is_error : Option ℕ → Bool
is_error none = false
is_error (some status) = leb 400 status

-- `CustomJSONRenderer.render`, up to the JSON text that the framework prints
unfoldable pub render : Context → Json → Json
render no_context body = body
render (context status) body =
    if is_error status then body else if has_success body then body else wrapped body

-- How a view ends.
pub data Outcome : Type 0 where
  returned : Response → Outcome
  raised : Exc → Outcome

abbrev pub rendered : Response → Response
rendered r = record r { body = render (context (some r.status)) r.body }

abbrev pub maybe_rendered : Option Response → Option Response
maybe_rendered none = none
maybe_rendered (some r) = some (rendered r)

-- The answer to a request; none where the handler raises, and the server answers by itself.
abbrev pub answer : (Json → String) → (Exc → Option Response) → Outcome → Option Response
answer repr exception_handler (returned r) = some (rendered r)
answer repr exception_handler (raised exc) =
    maybe_rendered (custom_exception_handler repr exception_handler exc)

abbrev service : Bool → String
service true = "ok"
service false = "error"

-- What the cache answers to a get after the set, if none of the two raises
abbrev is_cached : Option (Option String) → Bool
is_cached (some (some s)) = str_eq s "ok"
is_cached _ = false

abbrev is_reached : Option (Option String) → Bool
is_reached none = false
is_reached (some _) = true

-- `HealthCheckView.get`: whether the database answers, and what the cache does
unfoldable pub health : Bool → Option (Option String) → Response
health database cache =
    let healthy = database && is_reached cache in
    record {
      status = if healthy then 200 else 503;
      body = object (
          field "status" (string (if healthy then "healthy" else "degraded")) (
            field "services"
              (object (
                field "database" (string (service database))
                  (field "cache" (string (service (is_cached cache))) no_fields)))
              no_fields));
    }
