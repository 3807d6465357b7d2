-- ===== src/Editor/Saving/Sends.antt =====
-- When the editor sends a save, and what it sends.
use mathlib.Core.Path.{subst}
use anthonyzng_web.Editor.{row_slug, row_version}
use anthonyzng_web.Api.{create_item, update_item}
use anthonyzng_web.Base.{
  ◌∙◌, sym, inr, inl, ◌++◌, ◌⊎◌, none, Option, ◌≡◌, refl, ◌↔◌, Bool, true, false, some, [], ◌∷◌,
}
use anthonyzng_web.Validation.{FieldErrors, validate_draft}
use anthonyzng_web.Validation.Rules.{DraftFits}
use anthonyzng_web.Validation.Rules.Decide.{validate_draft_iff}
use anthonyzng_web.Api.{include, put_method, post, Request}
use anthonyzng_web.Editor.{
  child, as_string, units, item_of, row_of, Text, Json, Setting, EditorForm, context,
}
use anthonyzng_web.Editor.Saving.{
  request_of, checked_save, save_unless, save, save_request, sending,
}
use anthonyzng_web.Client.{json_body}
use anthonyzng_web.Collections.Types.{id_text}

checked_save-asks :
    (e : Setting) (found : FieldErrors) (f : EditorForm) (r : Request)
    → ((checked_save e found f).1 ≡ some r) ↔ ((found ≡ []) × (r ≡ save_request e f))
checked_save-asks e [] f r = (λ h. (refl, cc), λ (_, same). rw same refl)
checked_save-asks e (_ ∷ _) f r = (λ h. absurd (cc), λ (h, _). absurd (cc))

save_unless-asks :
    (e : Setting) (b : Bool) (f : EditorForm) (r : Request)
    → ((save_unless e b f).1 ≡ some r) ↔ (
        (b ≡ false)
        × DraftFits e.parses e.collection f.draft (context e f)
        × (r ≡ save_request e f))
save_unless-asks e true f r = (λ h. absurd (cc), λ (h, _, _). absurd (cc))
save_unless-asks e false f r =
    let found = validate_draft e.parses e.collection f.draft (context e f) in
    let (to, from) = checked_save-asks e found f r in
    let (fits, passes) = validate_draft_iff e.parses e.collection f.draft (context e f) in
    (
      λ h. let (none_found, same) = to h in (refl, fits none_found, same),
      λ (_, fit, same). from (passes fit, same),
    )

save-asks :
    (e : Setting) (f : EditorForm) (r : Request)
    → ((save e f).1 ≡ some r) ↔ (
        (f.saving ≡ false)
        × DraftFits e.parses e.collection f.draft (context e f)
        × (r ≡ save_request e f))
unfolding save
save-asks e f r = save_unless-asks e f.saving f r

-- The post of a new row to its collection
abbrev pub Posted : Setting → (payload : Json) → Request → Type 0
Posted e payload r =
    (r.method ≡ post)
    × (r.path ≡ units "/admin/content/" ++ id_text e.collection.id)
    × (r.headers ≡ [])
    × (r.body ≡ json_body payload)
    × (r.credentials ≡ include)
    × (r.timeout_ms ≡ 15000)

-- The put of a row to its own address, on condition of its version
abbrev pub PutAt : Setting → (slug version : Text) → (payload : Json) → Request → Type 0
PutAt e slug version payload r =
    (r.method ≡ put_method)
    × (r.path ≡ units "/admin/content/" ++ id_text e.collection.id ++ units "/" ++ e.encode slug)
    × (r.headers ≡ (units "If-Match", units "\"" ++ version ++ units "\"") ∷ [])
    × (r.body ≡ json_body payload)
    × (r.credentials ≡ include)
    × (r.timeout_ms ≡ 15000)

-- What a save of the draft sends: a post for a new row, a put for the loaded one
abbrev pub Saves : Setting → EditorForm → Request → Type 0
Saves e f r =
    (row_of f.slug f.rows ≡ none) × Posted e (e.collection.to_payload f.draft) r
    ⊎ ((row : Json) × (row_of f.slug f.rows ≡ some row)
        × PutAt e (as_string (child row (units "slug"))) (as_string (child row (units "updatedAt")))
            (e.collection.to_payload f.draft) r)

same_request :
    (r s : Request)
    → r.path ≡ s.path
    → r.method ≡ s.method
    → r.body ≡ s.body
    → r.headers ≡ s.headers
    → r.credentials ≡ s.credentials
    → r.timeout_ms ≡ s.timeout_ms
    → r ≡ s
same_request r s p m b h c t = λ i. record {
  path = p i;
  method = m i;
  body = b i;
  headers = h i;
  credentials = c i;
  timeout_ms = t i;
}

Posted-iff :
    (e : Setting) (payload : Json) (r : Request)
    → (r ≡ create_item e.encode e.collection payload) ↔ Posted e payload r
Posted-iff e payload r = (
  λ h. rw h (refl, refl, refl, refl, refl, refl),
  λ (m, p, h, b, c, t). same_request r (create_item e.encode e.collection payload) p m b h c t,
)

PutAt-iff :
    (e : Setting) (slug version : Text) (payload : Json) (r : Request)
    → (r ≡ update_item e.encode e.collection slug payload version) ↔ PutAt e slug version payload r
PutAt-iff e slug version payload r = (
  λ h. rw h (refl, refl, refl, refl, refl, refl),
  λ (m, p, h, b, c, t).
      same_request r (update_item e.encode e.collection slug payload version) p m b h c t,
)

request_of-Saves :
    (e : Setting) (f : EditorForm) (item : Option Json) (r : Request)
    → row_of f.slug f.rows ≡ item
    → (r ≡ request_of e item (e.collection.to_payload f.draft)) ↔ Saves e f r
request_of-Saves e f none r h =
    let (to, from) = Posted-iff e (e.collection.to_payload f.draft) r in
    (
      λ s. inl (h, to s),
      λ s. elim s [
        | inl (_, p) ↦ from p
        | inr (row, g, _) ↦ absurd (let bad : none ≡ some row = sym h ∙ g in cc)
      ],
    )
request_of-Saves e f (some row) r h =
    let (to, from) =
      PutAt-iff e (row_slug row) (row_version row) (e.collection.to_payload f.draft) r in
    (
      λ s. inr (row, h, to s),
      λ s. elim s [
        | inl (g, _) ↦ absurd (let bad : none ≡ some row = sym g ∙ h in cc)
        | inr (other, g, p) ↦
            let same : other ≡ row = (let both : some other ≡ some row = sym g ∙ h in cc) in
            from (
              subst (λ x. PutAt e (row_slug x) (row_version x) (e.collection.to_payload f.draft) r)
                same p)
      ],
    )

-- A request is sent exactly where no other save is on its way and the draft meets the rules. It is the post of
-- the payload to the collection for a new row, and for a loaded row the put of it to that row's address, with the
-- row's `updatedAt` in quotes as `If-Match`.
pub save-sends :
    (e : Setting) (f : EditorForm) (r : Request)
    → ((save e f).1 ≡ some r)
      ↔ ((f.saving ≡ false) × DraftFits e.parses e.collection f.draft (context e f) × Saves e f r)
unfolding save_request item_of
save-sends e f r =
    let (to, from) = save-asks e f r in
    let (is_sent, is_asked) = request_of-Saves e f (item_of f) r refl in
    (
      λ h. let (free, fits, same) = to h in (free, fits, is_sent same),
      λ (free, fits, asked). from (free, fits, is_asked asked),
    )

checked_save-sending :
    (e : Setting) (found : FieldErrors) (f : EditorForm) {r : Request}
    → (checked_save e found f).1 ≡ some r
    → (checked_save e found f).0 ≡ sending f
checked_save-sending e [] f h = refl
checked_save-sending e (_ ∷ _) f h = absurd (cc)

save_unless-sending :
    (e : Setting) (b : Bool) (f : EditorForm) {r : Request}
    → (save_unless e b f).1 ≡ some r
    → (save_unless e b f).0 ≡ sending f
save_unless-sending e true f h = absurd (cc)
save_unless-sending e false f h = checked_save-sending e _ f h

-- The form that has sent a save waits for it, with the draft it was sent with and no message.
pub save-sending :
    (e : Setting) (f : EditorForm) {r : Request} → (save e f).1 ≡ some r → (save e f).0 ≡ sending f
unfolding save
save-sending e f h = save_unless-sending e f.saving f h
