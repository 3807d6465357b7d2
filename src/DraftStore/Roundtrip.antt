-- ===== src/DraftStore/Roundtrip.antt =====
-- A kept draft comes back as it was, until it is cleared.
use anthonyzng_web.Base.{◌≡◌, refl, ap, ◌∙◌, inl, inr, true, false, Option, none, some, [], ◌∷◌}
use anthonyzng_web.Base.Text.{Text, text_eq}
use anthonyzng_web.Base.Text.Laws.{text_eq-cases}
use anthonyzng_web.Base.Dict.{lookup, lookup-insert_self}
use anthonyzng_web.Json.{Json, Members, find}
use anthonyzng_web.DraftStore.{
  Storage, storage_key, same_keys, kept_json, kept_text, kept_value, kept_if, base_json, base_in,
  read_draft, write_draft, remove_item, clear_draft,
}

base_in-base_json : (base : Option Text) → base_in (some (base_json base)) ≡ base
base_in-base_json none = refl
base_in-base_json (some s) = refl

kept_value-kept_json :
    (like draft : Members) (base : Option Text)
    → same_keys draft like ≡ true
    → kept_value like (some (kept_json draft base)) ≡ some (record { draft = draft; base = base })
unfolding find text_eq
kept_value-kept_json like draft base h =
    ap (λ b. kept_if b draft (base_in (some (base_json base)))) h
    ∙ ap (λ b. kept_if true draft b) (base_in-base_json base)

-- A draft that the storage took, of the shape of the form, comes back with its base, where the text
-- of the stored value reads back as that value.
pub read_draft-write_draft :
    (print : Json → Text) (parse : Text → Option Json) (id : Text) (like draft : Members)
    (base : Option Text) (storage : Storage)
    → parse (print (kept_json draft base)) ≡ some (kept_json draft base)
    → same_keys draft like ≡ true
    → read_draft parse id like (write_draft print false id draft base storage)
      ≡ some (record { draft = draft; base = base })
unfolding read_draft write_draft
read_draft-write_draft print parse id like draft base storage law h =
    ap (kept_text parse like)
      (lookup-insert_self (storage_key id) (print (kept_json draft base)) storage)
    ∙ ap (kept_value like) law
    ∙ kept_value-kept_json like draft base h

lookup-remove_item : (key : Text) (d : Storage) → lookup key (remove_item key d) ≡ none
unfolding lookup remove_item
lookup-remove_item key [] = refl
lookup-remove_item key ((k, v) ∷ d) = elim (text_eq-cases k key) [
  | inl (_, e) ↦ rw e (lookup-remove_item key d)
  | inr (_, e) ↦ rw e (rw e (lookup-remove_item key d))
]

-- A cleared draft is gone.
pub read_draft-clear_draft :
    (parse : Text → Option Json) (id : Text) (like : Members) (storage : Storage)
    → read_draft parse id like (clear_draft id storage) ≡ none
unfolding read_draft clear_draft
read_draft-clear_draft parse id like storage =
    ap (kept_text parse like) (lookup-remove_item (storage_key id) storage)
