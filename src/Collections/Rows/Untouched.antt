-- ===== src/Collections/Rows/Untouched.antt =====
-- A row that is opened in the editor and saved as it is goes back to the server as it came, its texts trimmed.
use anthonyzng_web.Base.{
  suc, max, ◌≡◌, ◌≢◌, ◌≤◌, refl, ap, Bool, true, false, Option, none, some, List, [], ◌∷◌, length,
  arith,
}
use anthonyzng_web.Base.Text.{Text, trim, text_eq, split_dot}
use anthonyzng_web.Json.{str, cons, find, put, count_items}
use anthonyzng_web.Draft.{
  Tag, noun, term, tags_json, tag_json, strings_json, trim_deep, child, walk, get_at, get_string,
  get_boolean,
}
use anthonyzng_web.Collections.{archive, collection_of}
use anthonyzng_web.Collections.Types.{CollectionId}
use anthonyzng_web.Collections.Build.{
  clean_items, padded, null_if_blank, prop, translated, with_optional, paired_bullets,
}
use anthonyzng_web.Collections.Rows.{
  ArchiveItem, ExperienceItem, CertificationItem, EducationItem, RoleText, Row, ProjectItem,
  ProjectText, Localized, experience_row, project_row, skill_group_row, education_row,
  certification_row, tool_row, archive_row, hero_role_row, language_row, contact_link_row,
  site_text_row,
}
use anthonyzng_web.Collections.Rows.Values.{row_json, write_json}
use anthonyzng_web.Collections.Showcase.{archive_payload}
use anthonyzng_web.Collections.Work.{projects_payload}

clean_items-tags_json : (ts : List Tag) → clean_items (tags_json ts) ≡ tags_json ts
unfolding find text_eq
clean_items-tags_json [] = refl
clean_items-tags_json (noun s ∷ ts) = ap (cons (str s)) (clean_items-tags_json ts)
clean_items-tags_json (term en zh ∷ ts) =
    ap (cons (tag_json (term en zh))) (clean_items-tags_json ts)

padded-strings_json : (ss : List Text) → padded (length ss) (strings_json ss) ≡ strings_json ss
padded-strings_json [] = refl
padded-strings_json (s ∷ ss) = ap (cons (str s)) (padded-strings_json ss)

-- An address or a text that is there is not blank.
abbrev pub NotBlank : Option Text → Type 0
NotBlank none = Unit
NotBlank (some s) = trim s ≢ []

null_if_blank-ne : (s : Text) → s ≢ [] → null_if_blank s ≡ str s
null_if_blank-ne [] h = absurd (h refl)
null_if_blank-ne (c ∷ s) h = refl

count-strings_json : (ss : List Text) → count_items (strings_json ss) ≡ length ss
count-strings_json [] = refl
count-strings_json (s ∷ ss) = ap suc (count-strings_json ss)

-- The two languages have equally many bullets, and at least one.
abbrev pub Paired : Localized RoleText → Type 0
Paired t = (1 ≤ length t.in_en.bullets) × (length t.in_en.bullets ≡ length t.in_zh.bullets)

paired-count :
    (a b : List Text)
    → 1 ≤ length a
    → length a ≡ length b
    → max (max (count_items (strings_json a)) (count_items (strings_json b))) 1 ≡ length a
paired-count a b h e = rw (count-strings_json a, count-strings_json b) (omega (arith, h, e))

paired-first :
    (a b : List Text)
    → 1 ≤ length a
    → length a ≡ length b
    → padded
        (max (max (count_items (strings_json a)) (count_items (strings_json b))) 1)
        (strings_json a)
      ≡ strings_json a
paired-first a b h e = rw (paired-count a b h e) (padded-strings_json a)

paired-second :
    (a b : List Text)
    → 1 ≤ length a
    → length a ≡ length b
    → padded
        (max (max (count_items (strings_json a)) (count_items (strings_json b))) 1)
        (strings_json b)
      ≡ strings_json b
paired-second a b h e = rw (paired-count a b h e, e) (padded-strings_json b)

-- A placeholder has no copy, no address and no chips; any other project has its copy in both languages.
abbrev pub IsWhole : ProjectText → Type 0
IsWhole t = ((s : Text) × (t.title ≡ some s)) × ((s : Text) × (t.summary ≡ some s))

abbrev pub HasNoText : ProjectText → Type 0
HasNoText t = (t.title ≡ none) × (t.summary ≡ none)

abbrev pub FitsPlaceholder : Bool → ProjectItem → Type 0
FitsPlaceholder true r =
    (r.url ≡ none) × (r.tech ≡ []) × HasNoText r.translations.in_en × HasNoText r.translations.in_zh
FitsPlaceholder false r =
    NotBlank r.url × IsWhole r.translations.in_en × IsWhole r.translations.in_zh

-- What an untouched row needs, beyond its type, for its write to be the row again
abbrev pub IsSound : {id : CollectionId} → Row id → Type 0
IsSound (experience_row r) = NotBlank r.company_url × Paired r.translations
IsSound (project_row r) = FitsPlaceholder r.placeholder r
IsSound (education_row r) = NotBlank r.url
IsSound (certification_row r) = NotBlank r.url
IsSound (archive_row r) =
    NotBlank r.translations.in_en.summary × NotBlank r.translations.in_zh.summary
IsSound _ = Unit

abbrev pub Untouched : {id : CollectionId} → Row id → Type 0
Untouched {id} r =
    (collection_of id).to_payload ((collection_of id).to_draft (row_json r))
    ≡ trim_deep (write_json r)

by_url :
    (u : Option Text) (P : Option Text → Type 0)
    → P none
    → ((s : Text) → null_if_blank (trim s) ≡ str (trim s) → P (some s))
    → NotBlank u
    → P u
by_url none P n p h = n
by_url (some s) P n p h = p s (null_if_blank-ne (trim s) h)

education-Untouched : (r : EducationItem) → NotBlank r.url → Untouched (education_row r)
unfolding collection_of row_json write_json find text_eq prop child walk translated with_optional
    get_string get_at put split_dot trim_deep trim
education-Untouched r =
    by_url r.url (λ u. Untouched (education_row (record r { url = u }))) refl (λ s h. rw h refl)

certification-Untouched : (r : CertificationItem) → NotBlank r.url → Untouched (certification_row r)
unfolding collection_of row_json write_json find text_eq prop child walk translated with_optional
    get_string get_at put split_dot trim_deep trim
certification-Untouched r =
    by_url r.url (λ u. Untouched (certification_row (record r { url = u }))) refl (λ s h. rw h refl)

experience-Untouched :
    (r : ExperienceItem)
    → NotBlank r.company_url
    → Paired r.translations
    → Untouched (experience_row r)
unfolding collection_of row_json write_json find text_eq prop child walk translated with_optional
    get_string get_at put split_dot trim_deep trim paired_bullets
experience-Untouched r h (one, same) =
    let a = r.translations.in_en.bullets in
    let b = r.translations.in_zh.bullets in
    by_url r.company_url (λ u. Untouched (experience_row (record r { company_url = u })))
      (rw (clean_items-tags_json r.tech, paired-first a b one same, paired-second a b one same)
        refl)
      (λ s k.
        rw (k, clean_items-tags_json r.tech, paired-first a b one same, paired-second a b one same)
          refl)
      h

archive-Untouched :
    (r : ArchiveItem)
    → NotBlank r.translations.in_en.summary
    → NotBlank r.translations.in_zh.summary
    → Untouched (archive_row r)
unfolding collection_of row_json write_json find text_eq prop child walk translated with_optional
    get_string get_at put split_dot trim_deep trim archive_payload
archive-Untouched r h k =
    by_url r.translations.in_en.summary
      (λ u. Untouched (with_summaries u r.translations.in_zh.summary))
      (by_url r.translations.in_zh.summary (λ v. Untouched (with_summaries none v)) refl
        (λ s e. rw e refl) k)
      (λ t d.
        by_url r.translations.in_zh.summary (λ v. Untouched (with_summaries (some t) v)) (rw d refl)
          (λ s e. rw (d, e) refl) k)
      h
  where
    with_summaries : Option Text → Option Text → Row archive
    with_summaries u v = archive_row (record r {
      translations = record {
        in_en = record r.translations.in_en { summary = u };
        in_zh = record r.translations.in_zh { summary = v };
      };
    })

project-Untouched : (r : ProjectItem) → FitsPlaceholder r.placeholder r → Untouched (project_row r)
unfolding collection_of row_json write_json find text_eq prop child walk translated with_optional
    get_string get_at put split_dot trim_deep trim projects_payload get_boolean
project-Untouched r h = by_placeholder r.placeholder h
  where
    by_placeholder :
        (b : Bool) → FitsPlaceholder b r → Untouched (project_row (record r { placeholder = b }))
    by_placeholder true (u, t, (a, b), (c, d)) = rw (u, t, a, b, c, d) refl
    by_placeholder false (h, ((a, e), (b, f)), ((c, g), (d, i))) =
        by_url r.url (λ u. Untouched (project_row (record r { placeholder = false; url = u })))
          (rw (clean_items-tags_json r.tech, e, f, g, i) refl)
          (λ s k. rw (k, clean_items-tags_json r.tech, e, f, g, i) refl) h

-- A row whose links and optional copy are not blank, whose bullets are paired, at least one in each language,
-- and which, as a project, has its whole copy where it is no placeholder, and no copy, address or chips where it is
-- one: opened in the editor and saved untouched it is sent back as it came, with its texts trimmed, in every
-- property but its place, its image and the moment of its last change.
pub to_payload-to_draft :
    (id : CollectionId) (r : Row id)
    → IsSound r
    → (collection_of id).to_payload ((collection_of id).to_draft (row_json r))
      ≡ trim_deep (write_json r)
unfolding collection_of row_json write_json find text_eq prop child walk translated with_optional
    get_string get_at put split_dot trim_deep trim
to_payload-to_draft _ (experience_row r) (h, k) = experience-Untouched r h k
to_payload-to_draft _ (project_row r) h = project-Untouched r h
to_payload-to_draft _ (education_row r) h = education-Untouched r h
to_payload-to_draft _ (certification_row r) h = certification-Untouched r h
to_payload-to_draft _ (archive_row r) (h, k) = archive-Untouched r h k
to_payload-to_draft _ (skill_group_row r) h = rw (clean_items-tags_json r.items) refl
to_payload-to_draft _ (tool_row r) h = rw (clean_items-tags_json r.tech) refl
to_payload-to_draft _ (hero_role_row r) h = refl
to_payload-to_draft _ (language_row r) h = refl
to_payload-to_draft _ (contact_link_row r) h = refl
to_payload-to_draft _ (site_text_row r) h = refl
