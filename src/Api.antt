-- ===== src/Api.antt =====
-- frontend/src/admin/api.ts: the requests of the admin panel, and `submitContact` of
-- frontend/src/api/contact.ts. A request is what `requestJson` is called with, less the schema and the
-- abort signal. Parameters: `encode` is `encodeURIComponent`, `query` is `URLSearchParams` as text.
pub mod Paths
use anthonyzng_web.Base.{ℕ, ◌*◌, ◌-◌, Bool, true, false, Option, none, some, List, [], ◌∷◌, ◌++◌}
use anthonyzng_web.Base.Text.{Text, units, show_nat}
use anthonyzng_web.Json.{num, Json, str, boolean, obj, arr, end, member, Members}
use anthonyzng_web.Draft.{child, strings_json}
use anthonyzng_web.Client.{RequestBody, no_body, form_data, json_body}
use anthonyzng_web.Collections.Types.{Collection, id_text}
use anthonyzng_web.Collections.Build.{object}
use anthonyzng_web.Contact.Submission.{Submission}

pub data Method : Type 0 where
  get post put_method patch delete : Method

pub data Credentials : Type 0 where
  omit include : Credentials

pub record Request : Type 0 where
  pub path : Text
  pub method : Method
  pub body : RequestBody
  pub headers : List (Text × Text)
  pub credentials : Credentials
  pub timeout_ms : ℕ

abbrev pub request_timeout : ℕ
request_timeout = 15000

abbrev pub upload_timeout : ℕ
upload_timeout = 120000

-- `call`
abbrev pub call : Text → Method → RequestBody → Request
call path method body = record {
  path = path;
  method = method;
  body = body;
  headers = [];
  credentials = include;
  timeout_ms = request_timeout;
}

abbrev pub json_of : List (Text × Json) → RequestBody
json_of fields = json_body (obj (object fields))

abbrev pub login : (email password token : Text) → Request
login email password token = call (units "/auth/login") post (
    json_of (
      (units "email", str email)
      ∷ (units "password", str password)
      ∷ (units "turnstileToken", str token)
      ∷ []))

abbrev pub login_with_code : Text → Request
login_with_code code =
    call (units "/auth/login/totp") post (json_of ((units "code", str code) ∷ []))

abbrev pub fetch_me : Request
fetch_me = call (units "/auth/me") get no_body

abbrev pub logout : Request
logout = call (units "/auth/logout") post no_body

abbrev pub fetch_summary : Request
fetch_summary = call (units "/admin/summary") get no_body

abbrev pub fetch_totp_status : Request
fetch_totp_status = call (units "/admin/totp") get no_body

abbrev pub start_totp_setup : Request
start_totp_setup = call (units "/admin/totp/setup") post no_body

abbrev confirmation : (password code : Text) → RequestBody
confirmation password code =
    json_of ((units "password", str password) ∷ (units "code", str code) ∷ [])

abbrev pub enable_totp : (password code : Text) → Request
enable_totp password code = call (units "/admin/totp/enable") post (confirmation password code)

abbrev pub disable_totp : (password code : Text) → Request
disable_totp password code = call (units "/admin/totp/disable") post (confirmation password code)

abbrev pub uploading : Request → Request
uploading r = record r { body = form_data; timeout_ms = upload_timeout }

abbrev pub fetch_cv : Request
fetch_cv = call (units "/admin/cv") get no_body

abbrev pub upload_cv : Request
upload_cv = uploading (call (units "/admin/cv") put_method no_body)

abbrev pub delete_cv : Request
delete_cv = call (units "/admin/cv") delete no_body

abbrev pub list_path : Collection → Text
list_path c = units "/admin/content/" ++ id_text c.id

module _ (encode : Text → Text) where
  abbrev pub content_path : Collection → Option Text → Text
  content_path c none = list_path c
  content_path c (some slug) = list_path c ++ units "/" ++ encode slug

  abbrev pub list_items : Collection → Request
  list_items c = call (content_path c none) get no_body

  abbrev pub create_item : Collection → Json → Request
  create_item c payload = call (content_path c none) post (json_body payload)

  -- The version that the edit started from goes along, in quotes.
  abbrev pub update_item : Collection → (slug : Text) → Json → (version : Text) → Request
  update_item c slug payload version =
      record (call (content_path c (some slug)) put_method (json_body payload)) {
        headers = (units "If-Match", b'"' ∷ version ++ b'"' ∷ []) ∷ [];
      }

  abbrev pub delete_item : Collection → (slug : Text) → Request
  delete_item c slug = call (content_path c (some slug)) delete no_body

  abbrev pub reorder_items : Collection → List Text → Request
  reorder_items c slugs =
      call (content_path c none ++ units "/reorder") post
        (json_of ((units "slugs", arr (strings_json slugs)) ∷ []))

  abbrev pub image_path : Text → Text
  image_path slug = units "/admin/content/projects/" ++ encode slug ++ units "/image"

  abbrev pub upload_project_image : Text → Request
  upload_project_image slug = uploading (call (image_path slug) put_method no_body)

  abbrev pub delete_project_image : Text → Request
  delete_project_image slug = call (image_path slug) delete no_body

  abbrev pub message_path : ℕ → Text
  message_path id = units "/admin/messages/" ++ encode (show_nat id)

  abbrev pub set_message_read : ℕ → Bool → Request
  set_message_read id read =
      call (message_path id) patch (json_of ((units "read", boolean read) ∷ []))

  abbrev pub delete_message : ℕ → Request
  delete_message id = call (message_path id) delete no_body

-- `sortOrder ?? 0`. A number is its bit pattern, and 0 is that of zero.
unfoldable pub sort_order_of : Json → ℕ
sort_order_of row = elim (child row (units "sortOrder")) [ some (num n) ↦ n | _ ↦ 0 ]

-- `displayOrder`: `sort` is the engine's sort by a comparison, and `minus` the difference of two numbers.
unfoldable pub display_order :
    (sort : (Json → Json → ℕ) → List Json → List Json) → (minus : ℕ → ℕ → ℕ) → List Json → List Json
display_order sort minus items = sort (λ a b. minus (sort_order_of a) (sort_order_of b)) items

pub data MessageView : Type 0 where
  all_messages unread_messages : MessageView

abbrev pub view_text : MessageView → Text
view_text all_messages = units "all"
view_text unread_messages = units "unread"

abbrev pub page_size : ℕ
page_size = 50

abbrev pub as_of_part : Option Text → List (Text × Text)
as_of_part none = []
as_of_part (some moment) = (units "asOf", moment) ∷ []

abbrev pub page_query : MessageView → ℕ → Option Text → List (Text × Text)
page_query view offset as_of =
    (units "status", view_text view)
    ∷ (units "limit", show_nat page_size)
    ∷ (units "offset", show_nat offset)
    ∷ as_of_part as_of

unfoldable pub fetch_messages :
    (query : List (Text × Text) → Text) → MessageView → ℕ → Option Text → Request
fetch_messages query view offset as_of =
    call (units "/admin/messages?" ++ query (page_query view offset as_of)) get no_body

unfoldable pub submit_contact : Submission → Request
submit_contact s = record {
  path = units "/contact";
  method = post;
  body = json_of (
      (units "name", str s.name_sent)
      ∷ (units "email", str s.email_sent)
      ∷ (units "message", str s.message_sent)
      ∷ (units "turnstileToken", str s.token_sent)
      ∷ (units "website", str s.website_sent)
      ∷ []);
  headers = [];
  credentials = omit;
  timeout_ms = request_timeout;
}
