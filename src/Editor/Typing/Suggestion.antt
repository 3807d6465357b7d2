-- ===== src/Editor/Typing/Suggestion.antt =====
-- How the slug of a new row follows the field it is suggested from, until it is typed by hand.
use mathlib.Core.Bool.{not-not}
use anthonyzng_web.Base.{
  Option-cases, ◌≢◌, ℕ, List, ◌≡◌, refl, sym, ap, ◌∙◌, inl, inr, Bool, true, false, ◌&&◌, not, ◌⊎◌,
  none, some, [], ◌∷◌, bind-inv, All,
}
use anthonyzng_web.Base.Text.{Text, text_eq, split_dot}
use anthonyzng_web.Base.Text.Laws.{text_eq_refl}
use anthonyzng_web.Json.{Json, str}
use anthonyzng_web.Draft.{to_index, get_at, get_string, set_at, as_string}
use anthonyzng_web.Draft.Access.{Apart, Apart, get_at-set_at, get_at-set_at-Diverge, Diverge}
use anthonyzng_web.Draft.Writable.{set_at-some}
use anthonyzng_web.Slug.{slugify}
use anthonyzng_web.Validation.{slug_key}
use anthonyzng_web.Editor.{Setting, EditorForm, slug_source, mode_of, item_of}
use anthonyzng_web.Editor.Typing.{
  touched, Entries, paths_of, is_source, suggests, suggested, write_entries, apply_entries,
  edit_slug, is_create, clear_errors,
}

-- What `apply` makes of the draft.
pub apply_entries-inv :
    (e : Setting) (entries : Entries) (f : EditorForm) {g : EditorForm}
    → apply_entries e entries f ≡ some g
    → write_entries e (suggests e f) entries f.draft ≡ some g.draft
unfolding apply_entries
apply_entries-inv e entries f h =
    let (d, written, same) = bind-inv (write_entries e (suggests e f) entries f.draft) _ h in
    written ∙ ap (λ o. elim o [ none ↦ none | some x ↦ some x.draft ]) same

-- Entries that can be written are applied.
pub apply_entries-some :
    (e : Setting) (entries : Entries) (f : EditorForm) {d : Json}
    → write_entries e (suggests e f) entries f.draft ≡ some d
    → (g : EditorForm) × (apply_entries e entries f ≡ some g)
unfolding apply_entries
apply_entries-some e entries f {d} h = (
  record f { draft = d; errors = clear_errors f.errors (touched e (suggests e f) entries) },
  rw h refl,
)

-- A path that the slug's suggestion leaves alone.
abbrev Spared : Bool → Text → Type 0
Spared following other = (following ≡ false) ⊎ Diverge (split_dot slug_key) (split_dot other)

suggested-Spared :
    (e : Setting) (b : Bool) (value draft : Json) (other : Text) {d : Json}
    → suggested e b value draft ≡ some d
    → Spared b other
    → get_at d other ≡ get_at draft other
suggested-Spared e true (str v) draft other h (inr apart) =
    get_at-set_at-Diverge draft slug_key other (str (slugify e.fold v)) h apart
suggested-Spared e true (str v) draft other h (inl bad) = absurd (cc)
suggested-Spared e false value draft other {d} h s =
    ap (λ x. get_at x other) (let same : d ≡ draft = cc in same)
suggested-Spared e true value draft other {d} h s =
    ap (λ x. get_at x other) (let same : d ≡ draft = cc in same)

Spared-and : (b c : Bool) (other : Text) → Spared b other → Spared (b && c) other
Spared-and true c other (inl bad) = absurd (cc)
Spared-and true c other (inr apart) = inr apart
Spared-and false c other s = inl refl

write_entries-Spared :
    (e : Setting) (following : Bool) (entries : Entries) (draft : Json) (other : Text) {d : Json}
    → write_entries e following entries draft ≡ some d
    → All (λ path. Diverge (split_dot path) (split_dot other)) (paths_of entries)
    → Spared following other
    → get_at d other ≡ get_at draft other
unfolding write_entries
write_entries-Spared e following [] draft other {d} h apart s =
    ap (λ x. get_at x other) (let same : d ≡ draft = cc in same)
write_entries-Spared e following ((path, value) ∷ entries) draft other h (here, later) s =
    let (written, w, h') = bind-inv (set_at draft path value) _ h in
    let follows = following && is_source (slug_source e.collection.fields) path in
    let (next, n, h'') = bind-inv (suggested e follows value written) _ h' in
    write_entries-Spared e following entries next other h'' later s
    ∙ suggested-Spared e follows value written other n (Spared-and following _ other s)
    ∙ get_at-set_at-Diverge draft path other value w here

-- Once the slug is typed by hand, and while a row is edited, typing elsewhere leaves the slug alone.
-- Typing at any path, the slug following or not, changes nothing at the paths that part from those
-- typed at and from the slug.
pub apply_entries-Spared :
    (e : Setting) (entries : Entries) (f : EditorForm) (other : Text) {g : EditorForm}
    → apply_entries e entries f ≡ some g
    → All (λ path. Diverge (split_dot path) (split_dot other)) (paths_of entries)
    → (suggests e f ≡ false) ⊎ Diverge (split_dot slug_key) (split_dot other)
    → get_at g.draft other ≡ get_at f.draft other
apply_entries-Spared e entries f other h apart s =
    write_entries-Spared e (suggests e f) entries f.draft other (apply_entries-inv e entries f h)
      apart s

other_way-Apart : (w x : Text) → Apart w x → Apart x w
other_way-Apart w x (ne, apart) = (
  λ h. ne (sym h),
  elim (Option-cases (to_index x)) [
    | inl nowhere ↦ inl nowhere
    | inr (i, there) ↦ inr (by_place i there apart)
  ],
)
  where
    by_place :
        (i : ℕ)
        → to_index x ≡ some i
        → (to_index w ≡ none) ⊎ (to_index w ≢ to_index x)
        → to_index x ≢ to_index w
    by_place i there (inl nowhere) =
        λ h. absurd (let bad : none ≡ some i = sym nowhere ∙ sym h ∙ there in cc)
    by_place i there (inr other) = λ h. other (sym h)

other_way-Diverge : (ws xs : List Text) → Diverge ws xs → Diverge xs ws
other_way-Diverge [] xs h = absurd h
other_way-Diverge (w ∷ ws) [] h = absurd h
other_way-Diverge (w ∷ ws) (x ∷ xs) (inl apart) = inl (other_way-Apart w x apart)
other_way-Diverge (w ∷ ws) (x ∷ xs) (inr (same, later)) =
    inr (sym same, other_way-Diverge ws xs later)

module _ (e : Setting) (source value : Text)
    (from : slug_source e.collection.fields ≡ some source) where
  suggested-here :
      (b : Bool) (draft : Json)
      → b ≡ true
      → suggested e (b && is_source (slug_source e.collection.fields) source) (str value) draft
        ≡ set_at draft slug_key (str (slugify e.fold value))
  suggested-here b draft h = rw (h, from, text_eq_refl source) refl

  write_source :
      (b : Bool) (draft : Json) {written next : Json}
      → b ≡ true
      → set_at draft source (str value) ≡ some written
      → set_at written slug_key (str (slugify e.fold value)) ≡ some next
      → write_entries e b ((source, str value) ∷ []) draft ≡ some next
  unfolding write_entries
  write_source b draft {written} h w n = rw (w, suggested-here b written h, n) refl

  -- While the slug is not typed by hand, and where the draft has a slug and the field that it follows: what is typed
  -- in that field is applied, the slug becomes the suggestion for it, and the field holds what was typed.
  pub apply_entries-suggests :
      (f : EditorForm) {u v : Json}
      → suggests e f ≡ true
      → get_at f.draft source ≡ some u
      → get_at f.draft slug_key ≡ some v
      → Diverge (split_dot slug_key) (split_dot source)
      → (g : EditorForm) × (apply_entries e ((source, str value) ∷ []) f ≡ some g)
        × (get_string g.draft slug_key ≡ slugify e.fold value)
        × (get_string g.draft source ≡ value)
  unfolding write_entries get_string
  apply_entries-suggests f {u} {v} free there also apart =
      let (written, w) = set_at-some f.draft source u (str value) there in
      let suggestion = str (slugify e.fold value) in
      let still =
        get_at-set_at-Diverge f.draft source slug_key (str value) w
          (other_way-Diverge (split_dot slug_key) (split_dot source) apart)
        ∙ also in
      let (next, n) = set_at-some written slug_key v suggestion still in
      let wrote = write_source (suggests e f) f.draft free w n in
      let (g, applied) = apply_entries-some e ((source, str value) ∷ []) f wrote in
      let made = apply_entries-inv e ((source, str value) ∷ []) f applied in
      let same : next ≡ g.draft = (let both : some next ≡ some g.draft = sym wrote ∙ made in cc) in
      (
        g,
        applied,
        ap (λ d. get_string d slug_key) (sym same)
            ∙ ap as_string (get_at-set_at written slug_key suggestion n),
        ap (λ d. get_string d source) (sym same)
            ∙ ap as_string (
                get_at-set_at-Diverge written slug_key source suggestion n apart
                ∙ get_at-set_at f.draft source (str value) w),
      )

-- A slug emptied by hand follows its source again; any other text typed there stops the suggestion.
pub edit_slug-suggests :
    (e : Setting) (value : Text) (f : EditorForm) {g : EditorForm}
    → edit_slug e value f ≡ some g
    → (get_string g.draft slug_key ≡ value)
      × (suggests e g ≡ (is_create (mode_of (item_of f)) && text_eq value []))
unfolding edit_slug suggests item_of get_string
edit_slug-suggests e value f {g} h =
    let (d, w, same) = bind-inv (set_at f.draft slug_key (str value)) _ h in
    let here : record f {
      draft = d;
      slug_edited = not (text_eq value []);
      errors = clear_errors f.errors (slug_key ∷ []);
    }
        ≡ g =
      cc in
    rw (← here) (
      ap as_string (get_at-set_at f.draft slug_key (str value) w),
      rw (not-not (text_eq value [])) refl,
    )
