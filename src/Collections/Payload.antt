-- ===== src/Collections/Payload.antt =====
-- What the payloads of frontend/src/admin/collections.ts carry.
use anthonyzng_web.Base.{
  ℕ, zero, suc, ◌≤◌, ◌≡◌, refl, sym, ◌∙◌, ap, true, ◌∷◌, arith, inl, inr, Bool-cases,
}
use anthonyzng_web.Base.Text.{Text, units, text_eq}
use anthonyzng_web.Base.Text.Laws.{text_eq-cases}
use anthonyzng_web.Base.Dict.{has}
use anthonyzng_web.Json.{Json, obj, Items, nil, cons, Members, end, member, put, count_items}
use anthonyzng_web.Draft.{trim_deep, get_boolean}
use anthonyzng_web.Fields.{Locale, en, zh_hant}
use anthonyzng_web.Collections.{collection_of}
use anthonyzng_web.Collections.Types.{
  CollectionId, hero_roles, experience, projects, skill_groups, education, certifications,
  languages, tools, contact_links, archive, site_texts,
}
use anthonyzng_web.Collections.Build.{
  assign, padded, bullet_count, items_of, translated, with_optional, paired_bullets,
}
use anthonyzng_web.Collections.Work.{projects_payload}
use anthonyzng_web.Collections.Showcase.{archive_payload}
use anthonyzng_web.Collections.Shape.{member_keys, json_keys}

-- An assignment to a property that is there adds none.
put-keys :
    (k : Text) (v : Json) (ms : Members)
    → has k (member_keys ms) ≡ true
    → member_keys (put k v ms) ≡ member_keys ms
unfolding put has
put-keys k v end h = absurd (cc)
put-keys k v (member j w ms) h = elim (text_eq-cases j k) [
  | inl (_, t) ↦ rw t refl
  | inr (_, t) ↦ rw t (ap (λ ks. j ∷ ks) (put-keys k v ms (rw t at h)))
]

assign-keys :
    (k : Text) (v d : Json) → has k (json_keys d) ≡ true → json_keys (assign k v d) ≡ json_keys d
unfolding has
assign-keys k v (obj ms) h = put-keys k v ms h
assign-keys k v _ h = refl

trim_deep-keys : (d : Json) → json_keys (trim_deep d) ≡ json_keys d
unfolding trim_deep
trim_deep-keys (obj end) = refl
trim_deep-keys (obj (member k v ms)) = ap (λ ks. k ∷ ks) (trim_deep-keys (obj ms))
trim_deep-keys _ = refl

with_optional-keys :
    (k : Text) (d : Json) → has k (json_keys d) ≡ true → json_keys (with_optional k d) ≡ json_keys d
unfolding with_optional
with_optional-keys k d h =
    assign-keys k _ (trim_deep d) (rw (trim_deep-keys d) h) ∙ trim_deep-keys d

assign_then :
    (k : Text) (v d e : Json)
    → has k (json_keys d) ≡ true
    → json_keys e ≡ json_keys d
    → json_keys (assign k v e) ≡ json_keys d
assign_then k v d e h p = assign-keys k v e (rw p h) ∙ p

projects_payload-keys :
    (d : Json)
    → has (units "url") (json_keys d) ≡ true
    → has (units "tech") (json_keys d) ≡ true
    → has (units "translations") (json_keys d) ≡ true
    → json_keys (projects_payload d) ≡ json_keys d
unfolding projects_payload
projects_payload-keys d u t s = elim (Bool-cases (get_boolean d (units "placeholder"))) [
  | inl e ↦ rw e (
      assign_then (units "translations") _ d _ s
        (assign_then (units "tech") _ d _ t (assign_then (units "url") _ d _ u (trim_deep-keys d))))
  | inr e ↦ rw e (with_optional-keys (units "url") d u)
]

archive_payload-keys :
    (d : Json)
    → has (units "translations") (json_keys d) ≡ true
    → json_keys (archive_payload d) ≡ json_keys d
unfolding archive_payload
archive_payload-keys d h = assign_then (units "translations") _ d _ h (trim_deep-keys d)

-- The payload of a draft of the collection's shape has the draft's properties and no others, in
-- their order.
pub to_payload-keys :
    (id : CollectionId) (draft : Json)
    → json_keys draft ≡ json_keys (collection_of id).empty_draft
    → json_keys ((collection_of id).to_payload draft) ≡ json_keys draft
unfolding collection_of has text_eq
to_payload-keys experience d h = with_optional-keys (units "companyUrl") d (rw h refl)
to_payload-keys projects d h = projects_payload-keys d (rw h refl) (rw h refl) (rw h refl)
to_payload-keys education d h = with_optional-keys (units "url") d (rw h refl)
to_payload-keys certifications d h = with_optional-keys (units "url") d (rw h refl)
to_payload-keys archive d h = archive_payload-keys d (rw h refl)
to_payload-keys hero_roles d h = trim_deep-keys d
to_payload-keys skill_groups d h = trim_deep-keys d
to_payload-keys languages d h = trim_deep-keys d
to_payload-keys tools d h = trim_deep-keys d
to_payload-keys contact_links d h = trim_deep-keys d
to_payload-keys site_texts d h = trim_deep-keys d

count-padded : (n : ℕ) (xs : Items) → count_items (padded n xs) ≡ n
count-padded zero xs = refl
count-padded (suc n) nil = ap suc (count-padded n nil)
count-padded (suc n) (cons x xs) = ap suc (count-padded n xs)

-- Both locales are padded to one length.
count-paired_bullets :
    (item : Json) (locale : Locale) → count_items (paired_bullets item locale) ≡ bullet_count item
unfolding paired_bullets
count-paired_bullets item locale = count-padded (bullet_count item) _

-- The longer list of rows decides.
stored-le :
    (item : Json) (locale : Locale)
    → count_items (items_of (translated item locale (units "bullets"))) ≤ bullet_count item
stored-le item en = omega arith
stored-le item zh_hant = omega arith

-- The two locales of a role get equally many bullet rows, at least one, and at least as many as are
-- stored.
pub paired_bullets-paired :
    (item : Json) (locale : Locale)
    → (count_items (paired_bullets item en) ≡ count_items (paired_bullets item zh_hant))
      × (1 ≤ count_items (paired_bullets item locale))
      × (count_items (items_of (translated item locale (units "bullets")))
          ≤ count_items (paired_bullets item locale))
paired_bullets-paired item locale = (
  count-paired_bullets item en ∙ sym (count-paired_bullets item zh_hant),
  rw (count-paired_bullets item locale) (omega arith),
  rw (count-paired_bullets item locale) (stored-le item locale),
)
