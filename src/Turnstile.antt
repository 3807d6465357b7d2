-- ===== src/Turnstile.antt =====
-- frontend/src/components/useTurnstile.ts: the token of one widget that follows theme and language.
-- A widget is known by its key, `${theme}:${language}`.
use anthonyzng_web.Base.{◌≡◌, ◌≢◌, refl, sym, ◌↔◌, Option, none, some, if◌then◌else◌, inl, inr}
use anthonyzng_web.Base.Text.{Text, text_eq}
use anthonyzng_web.Base.Text.Laws.{text_eq-cases, text_eq_ne}

pub record Turnstile : Type 0 where
  pub issued : Option (Text × Text)
  pub widget_key : Text

-- `issued?.widget === widgetKey ? issued.token : null`
abbrev pub token_for : Text → Option (Text × Text) → Option Text
token_for key none = none
token_for key (some (token, widget)) = if text_eq widget key then some token else none

unfoldable pub current_token : Turnstile → Option Text
current_token s = token_for s.widget_key s.issued

-- `onToken`
unfoldable pub on_token : Text → Turnstile → Turnstile
on_token token s = record { issued = some (token, s.widget_key); widget_key = s.widget_key }

-- `clear`, `onLapse`, and the part of `reset` that concerns the state
unfoldable pub clear : Turnstile → Turnstile
clear s = record { issued = none; widget_key = s.widget_key }

-- The page's theme or language changes: the widget renders anew under another key.
unfoldable pub switch : Text → Turnstile → Turnstile
switch key s = record { issued = s.issued; widget_key = key }

token_for_iff :
    (key : Text) (o : Option (Text × Text)) (t : Text)
    → (token_for key o ≡ some t) ↔ (o ≡ some (t, key))
token_for_iff key none t = (λ h. absurd (cc), λ h. absurd (cc))
token_for_iff key (some (token, widget)) t = elim (text_eq-cases widget key) [
  | inl (same, e) ↦ (λ h. (let k : some token ≡ some t = rw e at h in cc), λ h. rw e (cc h))
  | inr (other, e) ↦
      (λ h. absurd (let k : none ≡ some t = rw e at h in cc), λ h. absurd (other (cc h)))
]

-- A token is given out exactly where it was issued under the present theme and language.
pub current_token_iff :
    (s : Turnstile) (t : Text) → (current_token s ≡ some t) ↔ (s.issued ≡ some (t, s.widget_key))
unfolding current_token
current_token_iff s t = token_for_iff s.widget_key s.issued t

-- A change of theme or language withdraws the token.
pub switch-withdraws :
    (key : Text) (t : Text) (s : Turnstile)
    → current_token s ≡ some t
    → key ≢ s.widget_key
    → current_token (switch key s) ≡ none
unfolding current_token switch
switch-withdraws key t s h n =
    let (to, from) = token_for_iff s.widget_key s.issued t in
    rw (to h, text_eq_ne (λ (e : s.widget_key ≡ key). n (sym e))) refl

-- A change there and back gives the token out again that was issued before both.
pub switch-back :
    (other : Text) (s : Turnstile)
    → current_token (switch s.widget_key (switch other s)) ≡ current_token s
unfolding current_token switch
switch-back other s = refl
