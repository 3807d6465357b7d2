-- ===== src/Client.antt =====
-- frontend/src/api/client.ts: what a request sends, and what its answer becomes.
-- The platform's `fetch` and `response.json()` are given by their outcomes: a value, or an error known
-- by its `name`. Parameters: `schema`, the caller's schema (`safeParse`, where `undefined` is `none`);
-- `read_error`, the schema of the error body; `integer`, the engine's `Number` where it gives an
-- integer that is not negative.
pub mod Outcome
use anthonyzng_web.Base.{
  ℕ, Bool, true, false, ◌&&◌, ◌++◌, Option, none, some, List, [], ◌∷◌, leb, ◌==◌, if◌then◌else◌,
}
use anthonyzng_web.Base.Text.{Text, units, text_eq, trim, show_nat}
use anthonyzng_web.Base.Dict.{insert}
use anthonyzng_web.Json.{Json}

-- What awaiting the body gives: a value, or an error with its name.
pub data BodyRead : Type 0 where
  parsed : Json → BodyRead
  threw : Option Text → BodyRead

pub record Response : Type 0 where
  pub status : ℕ
  pub retry_after : Option Text
  pub body : BodyRead

pub data Fetched : Type 0 where
  rejected : Option Text → Fetched
  answered : Response → Fetched

-- The contract's error body, as `apiErrorSchema` gives it.
pub record ErrorBody : Type 0 where
  pub code : Text
  pub message : Text
  pub fields : Option (List (Text × Text))

-- `ApiHttpError`
pub record HttpError : Type 0 where
  pub status : ℕ
  pub code : Text
  pub message : Text
  pub fields : Option (List (Text × Text))
  pub retry_after : Option ℕ

-- What `requestJson` throws: the caller's abort, or one of its three error classes.
pub data Failure : Type 0 where
  aborted : Failure
  network_error : Failure
  http_error : HttpError → Failure
  payload_error : Failure

pub data Result {ℓ} (T : Type ℓ) : Type ℓ where
  done : T → Result T
  failed : Failure → Result T

abbrev pub abort_name : Text
abort_name = units "AbortError"

abbrev pub timeout_name : Text
timeout_name = units "TimeoutError"

-- `errorName(error) === name`
unfoldable pub is_named : Text → Option Text → Bool
is_named name none = false
is_named name (some n) = text_eq n name

abbrev pub is_abort_error : Option Text → Bool
is_abort_error n = is_named abort_name n

abbrev pub is_timeout_error : Option Text → Bool
is_timeout_error n = is_named timeout_name n

pub data RequestBody : Type 0 where
  no_body : RequestBody
  form_data : RequestBody
  json_body : Json → RequestBody

abbrev pub content_type : Text
content_type = units "Content-Type"

abbrev pub json_type : Text
json_type = units "application/json"

unfoldable pub sent_headers : List (Text × Text) → RequestBody → List (Text × Text)
sent_headers headers (json_body _) = insert content_type json_type headers
sent_headers headers _ = headers

abbrev pub some_if_any : List (Text × Text) → Option (List (Text × Text))
some_if_any [] = none
some_if_any (h ∷ hs) = some (h ∷ hs)

-- `init.headers`
unfoldable pub init_headers : List (Text × Text) → RequestBody → Option (List (Text × Text))
unfolding sent_headers
init_headers headers body = some_if_any (sent_headers headers body)

unfoldable pub is_ok : Response → Bool
is_ok r = leb 200 r.status && leb r.status 299

unfoldable pub parse_retry_after : (Text → Option ℕ) → Option Text → Option ℕ
parse_retry_after integer none = none
parse_retry_after integer (some header) = integer (trim header)

-- The body of an error answer, if the schema takes it; whatever reading it throws is dropped.
abbrev pub error_body : (Json → Option ErrorBody) → BodyRead → Option ErrorBody
error_body read_error (threw _) = none
error_body read_error (parsed v) = read_error v

abbrev pub unknown_body : ℕ → ErrorBody
unknown_body status = record {
  code = units "unknown_error";
  message = units "HTTP " ++ show_nat status;
  fields = none;
}

abbrev pub body_or_unknown : ℕ → Option ErrorBody → ErrorBody
body_or_unknown status none = unknown_body status
body_or_unknown status (some b) = b

unfoldable pub to_http_error : (Json → Option ErrorBody) → (Text → Option ℕ) → Response → HttpError
to_http_error read_error integer r =
    let b = body_or_unknown r.status (error_body read_error r.body) in
    record {
      status = r.status;
      code = b.code;
      message = b.message;
      fields = b.fields;
      retry_after = parse_retry_after integer r.retry_after;
    }

abbrev pub fetch_failure : Option Text → Failure
fetch_failure name = if is_abort_error name then aborted else network_error

abbrev pub body_failure : Option Text → Failure
body_failure name =
    if is_abort_error name
    then aborted
    else if is_timeout_error name
    then network_error
    else payload_error

abbrev pub read_body : BodyRead → Result (Option Json)
read_body (parsed v) = done (some v)
read_body (threw name) = failed (body_failure name)

-- The body of a 2xx answer; a 204 has none.
unfoldable pub data_of : Response → Result (Option Json)
data_of r = if r.status == 204 then done none else read_body r.body

abbrev pub accepted {ℓ} : {T : Type ℓ} → Option T → Result T
accepted none = failed payload_error
accepted (some t) = done t

module _ {ℓ} {T : Type ℓ} (schema : Option Json → Option T) where
  abbrev pub accept : Result (Option Json) → Result T
  accept (failed e) = failed e
  accept (done d) = accepted (schema d)

  -- `requestJson`, from what its `fetch` gave
  unfoldable pub request_json : (Json → Option ErrorBody) → (Text → Option ℕ) → Fetched → Result T
  request_json read_error integer (rejected name) = failed (fetch_failure name)
  request_json read_error integer (answered r) =
      if is_ok r
      then accept (data_of r)
      else failed (http_error (to_http_error read_error integer r))
