-- ===== src/Tests/Editing.antt =====
-- Runs of the editor form.
use anthonyzng_web.Base.{
  List, Bool, ◌⊎◌, ◌≡◌, ◌≢◌, ◌↔◌, refl, inl, true, false, none, some, [], ◌∷◌,
}
use anthonyzng_web.Base.Text.{text_lt, is_high, starts_with, text_eq, Text, units, split_dot}
use anthonyzng_web.Base.Dict.{insert, has, lookup}
use anthonyzng_web.Json.{end, find, Members, Json, obj, str}
use anthonyzng_web.Draft.{draft_operations, get_at, get_string, same_draft}
use anthonyzng_web.Draft.Access.{Diverge}
use anthonyzng_web.Collections.Build.{object, text_of, plain_base, blank}
use anthonyzng_web.Collections.Types.{Collection, tools}
use anthonyzng_web.Fields.{is_required, is_visible, slug_field, text_field}
use anthonyzng_web.Validation.{
  slug_error, control_error, trimmed_error, text_error, path_errors, field_errors, all_errors,
  validate_draft, required, slug_key,
}
use anthonyzng_web.Editor.Answers.Reported.{IsReported, take_failure-IsReported}
use anthonyzng_web.Editor.{
  initial, same_shape, image_of, context, row_version, is_dirty, find_row, row_slug, synced,
  open_form, item_of, slug_source, Setting, EditorForm, Kept, at_form, at_edit_page,
}
use anthonyzng_web.Editor.Saving.{save_request, save}
use anthonyzng_web.Editor.Typing.{clear_errors, is_stale, write_entries, suggests, apply_entries}
use anthonyzng_web.Editor.Answers.{PageStore, take_failure, take_result, is_newer, take_saved}
use anthonyzng_web.Client.{network_error, Result}
use anthonyzng_web.Slug.{is_slug, drop_dashes, strip_end, from_letter, hyphenate, slugify}
use anthonyzng_web.Editor.Answers.Newer.{take_saved-stays}
use anthonyzng_web.Editor.Lifetime.Moved.{take_saved-moves, ComesBack}
use anthonyzng_web.Editor.Lifetime.{took, submitted, opened, then_event, OpenForm}
use anthonyzng_web.Validation.Rules.{DraftFits}
use anthonyzng_web.Editor.Typing.Suggestion.{apply_entries-suggests}
use anthonyzng_web.Api.{update_item}
use anthonyzng_web.Editor.Lifetime.Reopened.{form-reopened}
use anthonyzng_web.Editor.Lifetime.Settles.{form-settles, IsSettled}
use anthonyzng_web.Editor.Saving.Sends.{Saves, save-sends}
use anthonyzng_web.Base.Text.Laws.{ne_of_test}
use anthonyzng_web.DraftStore.{join_comma, insert_text, sort_texts, same_keys}
use anthonyzng_web.Editor.Lifetime.Moved.{ComesBack}

-- What the form shows of a row: its slug and its name.
abbrev row_draft : Json → Json
row_draft row = obj (
    object (
      (units "slug", str (get_string row slug_key))
      ∷ (units "name", str (get_string row (units "name")))
      ∷ []))

abbrev members_of : Json → Members
members_of (obj ms) = ms
members_of _ = end

-- A collection of named rows.
abbrev pub named : Collection
named = record {
  id = tools;
  sortable = true;
  creatable = true;
  fields =
      text_field (text_of (units "name") 200)
      ∷ slug_field (plain_base (units "slug") none) (some (units "name"))
      ∷ [];
  empty_draft = obj (object ((units "slug", blank) ∷ (units "name", blank) ∷ []));
  to_draft = row_draft;
  to_payload = λ draft. draft;
}

abbrev pub setting : Setting
setting = record { collection = named; fold = λ s. s; parses = λ s. true; encode = λ s. s }

abbrev named_draft : Text → Text → Json
named_draft slug name = obj (object ((units "slug", str slug) ∷ (units "name", str name) ∷ []))

abbrev pub form : EditorForm
form = record {
  slug = none;
  rows = [];
  draft = named_draft [] [];
  restored = none;
  slug_edited = false;
  errors = (slug_key, required) ∷ (units "name", required) ∷ [];
  form_errors = [];
  conflict = false;
  saving = false;
  sent = none;
  kept = none;
  place = at_form;
}

-- A draft without a name is not sent.
save_blank : (save setting form).1 ≡ none
unfolding save validate_draft all_errors is_visible field_errors path_errors text_error
    trimmed_error is_required image_of item_of draft_operations text_eq lookup insert slug_error
    is_slug has
save_blank = refl

abbrev typed : EditorForm
typed = record form { draft = named_draft (units "vim") (units "vim"); errors = [] }

save-sends_example : ((save setting typed).1 ≡ some (save_request setting typed)) ↔ (
    (typed.saving ≡ false)
    × DraftFits setting.parses named typed.draft (context setting typed)
    × Saves setting typed (save_request setting typed))
save-sends_example = save-sends setting typed (save_request setting typed)

-- A draft with a name is sent.
sends_named : (save setting typed).1 ≡ some (save_request setting typed)
unfolding save validate_draft all_errors is_visible field_errors path_errors text_error
    trimmed_error is_required image_of item_of draft_operations text_eq lookup insert slug_error
    is_slug has control_error is_high
sends_named = refl

typed_name : apply_entries setting ((units "name", str (units "vim")) ∷ []) form ≡ some typed
unfolding apply_entries write_entries suggests item_of slug_source clear_errors is_stale starts_with
    text_eq has slugify hyphenate from_letter strip_end drop_dashes draft_operations
typed_name = refl

still_suggested : suggests setting form ≡ true
unfolding suggests item_of
still_suggested = refl

slug_name : slug_key ≢ units "name"
unfolding text_eq
slug_name = ne_of_test refl

slug_apart : Diverge (split_dot slug_key) (split_dot (units "name"))
unfolding draft_operations
slug_apart = inl (slug_name, inl refl)

apply_entries-suggests_example :
    (g : EditorForm) × (apply_entries setting ((units "name", str (units "vim")) ∷ []) form
      ≡ some g)
    × (get_string g.draft slug_key ≡ slugify setting.fold (units "vim"))
    × (get_string g.draft (units "name") ≡ units "vim")
unfolding slug_source draft_operations text_eq
apply_entries-suggests_example =
    apply_entries-suggests setting (units "name") (units "vim") refl form still_suggested refl refl
      slug_apart

-- A form whose save is on its way.
abbrev waiting : EditorForm
waiting = record typed { saving = true; sent = some typed.draft }

take_failure-IsReported_example :
    IsReported waiting (take_failure setting network_error typed.draft waiting)
take_failure-IsReported_example =
    take_failure-IsReported setting network_error typed.draft waiting tt

abbrev saved_row : Json
saved_row = obj (
    object (
      (units "slug", str (units "vim"))
      ∷ (units "name", str (units "vim"))
      ∷ (units "updatedAt", str (units "2026-01-02T00:00:00Z"))
      ∷ []))

-- The name was typed on while the save was on its way.
abbrev typed_on : EditorForm
typed_on = record waiting { draft = named_draft (units "vim") (units "vim 9") }

newer : is_newer setting saved_row typed.draft typed_on.draft ≡ true
unfolding is_newer draft_operations text_eq
newer = refl

new_row : item_of typed_on ≡ none
unfolding item_of
new_row = refl

-- The storage takes what it is given, and holds nothing before.
abbrev page : PageStore
page = record { full = false; before = none }

saved_shape : same_shape typed_on.draft (named.to_draft saved_row) ≡ true
unfolding same_shape same_keys join_comma sort_texts insert_text draft_operations text_eq text_lt
saved_shape = refl

slug_there : find slug_key (members_of typed_on.draft) ≡ some (str (units "vim"))
unfolding text_eq find
slug_there = refl

take_saved-moves_example :
    (k : Kept) × ((take_saved setting page saved_row typed.draft typed_on).place
      ≡ at_edit_page (row_slug saved_row) (some k))
    × (k.base ≡ some (row_version saved_row))
    × (get_string k.draft slug_key ≡ row_slug saved_row)
    × ((other : Text)
        → Diverge (split_dot slug_key) (split_dot other)
        → get_at k.draft other ≡ get_at typed_on.draft other)
    × ((full : Bool) (rows : List Json)
        → find_row (row_slug saved_row) rows ≡ some saved_row
        → ComesBack setting k.draft
            (open_form setting full (some (row_slug saved_row)) rows (some k)))
take_saved-moves_example =
    take_saved-moves setting page saved_row typed.draft _ typed_on _ refl new_row refl slug_there
      saved_shape newer

-- The same row, being edited.
abbrev edited : EditorForm
edited = record typed_on { slug = some (units "vim"); rows = saved_row ∷ [] }

old_row : item_of edited ≡ some saved_row
unfolding item_of find_row text_eq draft_operations
old_row = refl

same_slug : edited.slug ≡ some (row_slug saved_row)
unfolding draft_operations text_eq
same_slug = refl

take_saved-stays_example :
    let g = take_saved setting page saved_row typed.draft edited in
    (g.draft ≡ edited.draft)
    × (g.place ≡ edited.place)
    × (g.saving ≡ false)
    × (save_request setting g
        ≡ update_item setting.encode named
            (row_slug saved_row)
            (named.to_payload edited.draft)
            (row_version saved_row))
take_saved-stays_example =
    take_saved-stays setting page saved_row typed.draft saved_row edited old_row same_slug newer

abbrev kept_name : Kept
kept_name = record { draft = named_draft (units "vim") (units "vim"); base = none }

abbrev restored : EditorForm
restored = open_form setting false none [] (some kept_name)

at_the_form : restored.place ≡ at_form
unfolding open_form synced same_shape same_keys join_comma sort_texts insert_text text_lt
    draft_operations text_eq
at_the_form = refl

restored_shape : same_shape restored.draft (initial setting restored) ≡ true
unfolding open_form synced same_shape same_keys join_comma sort_texts insert_text draft_operations
    text_eq text_lt item_of
restored_shape = refl

form-reopened_example :
    let g = open_form setting false restored.slug restored.rows restored.kept in
    ((is_dirty setting restored ≡ true) × (g.draft ≡ restored.draft) × (g.restored ≡ some false))
    ⊎ ((is_dirty setting restored ≡ false)
        × (same_draft restored.draft g.draft ≡ true)
        × (g.restored ≡ none))
form-reopened_example =
    form-reopened setting false restored (opened false none [] (some kept_name)) (inl at_the_form)
      restored_shape

abbrev sent_form : EditorForm
sent_form = synced setting false (save setting restored).0

sent_form-open : OpenForm setting true sent_form
unfolding open_form synced same_shape same_keys join_comma sort_texts insert_text text_lt
    draft_operations text_eq save validate_draft all_errors is_visible field_errors path_errors
    text_error trimmed_error control_error is_required image_of item_of insert slug_error is_slug
    has is_high
sent_form-open = then_event false (opened false none [] (some kept_name)) at_the_form submitted

sent_at : sent_form.place ≡ at_form
unfolding open_form synced same_shape same_keys join_comma sort_texts insert_text text_lt
    draft_operations text_eq save validate_draft all_errors is_visible field_errors path_errors
    text_error trimmed_error control_error is_required image_of item_of insert slug_error is_slug
    has is_high
sent_at = refl

sent_on : sent_form.saving ≡ true
unfolding open_form synced same_shape same_keys join_comma sort_texts insert_text text_lt
    draft_operations text_eq save validate_draft all_errors is_visible field_errors path_errors
    text_error trimmed_error control_error is_required image_of item_of insert slug_error is_slug
    has is_high
sent_on = refl

form-settles_example :
    (sent : Json) × (sent_form.sent ≡ some sent)
    × ((store : PageStore) (result : Result Json) (full : Bool)
        → let g = take_result setting store result sent sent_form in
          OpenForm setting (took g.place full true) (synced setting full g)
          × IsSettled (synced setting full g))
form-settles_example = form-settles setting sent_form sent_form-open sent_at sent_on
