-- ===== src/SignIn/Code/Ends.antt =====
-- When a code is sent, and how its answer ends the step.
use anthonyzng_web.Base.{
  ◌≡◌, ◌≢◌, refl, sym, ap, ◌∙◌, ◌↔◌, inl, inr, Bool, true, false, ◌&&◌, ◌==◌, Option, none, some,
  if_both, ==_iff, Bool-cases,
}
use anthonyzng_web.Base.Text.{Text, text_eq}
use anthonyzng_web.Client.{
  Result, done, failed, Failure, aborted, network_error, payload_error, http_error, HttpError,
}
use anthonyzng_web.Codes.{CodeError, is_code, normalize_code, code_error, code_error-none}
use anthonyzng_web.SignIn.Code.{
  CodeStep, CodeEnd, stays, signs_in, hands_back, is_verifying, checked_code, verify_unless, verify,
  code_refused, code_answer, totp_invalid,
}

checked_code-sends :
    (o : Option CodeError) (s : CodeStep) (c : Text)
    → ((checked_code o s).1 ≡ some c) ↔ ((o ≡ none) × (c ≡ normalize_code s.code))
checked_code-sends none s c = (λ h. (refl, cc), λ (_, e). ap some (sym e))
checked_code-sends (some p) s c = (λ h. absurd (cc), λ (h, _). absurd (cc))

verify_unless-sends :
    (b : Bool) (s : CodeStep) (c : Text)
    → ((verify_unless b s).1 ≡ some c)
      ↔ ((b ≡ false) × (is_code (normalize_code s.code) ≡ true) × (c ≡ normalize_code s.code))
verify_unless-sends true s c = (λ h. absurd (cc), λ (h, _, _). absurd (cc))
verify_unless-sends false s c =
    let (to, from) = checked_code-sends (code_error s.code) s c in
    let (fits, passes) = code_error-none s.code in
    (λ h. let (n, e) = to h in (refl, fits n, e), λ (_, fit, e). from (passes fit, e))

-- A code is sent exactly where none is on its way and six digits are left of it without its white
-- space, and those digits are sent.
pub verify-sends :
    (s : CodeStep) (c : Text)
    → ((verify s).1 ≡ some c) ↔ (
        (is_verifying s.status ≡ false)
        × (is_code (normalize_code s.code) ≡ true)
        × (c ≡ normalize_code s.code))
unfolding verify
verify-sends s c = verify_unless-sends (is_verifying s.status) s c

-- The answer that takes the step away: a 401.
abbrev pub IsRevoked : Result Text → Type 0
IsRevoked r = (h : HttpError) × (r ≡ failed (http_error h)) × (h.status ≡ 401)

abbrev verifying_after : CodeEnd → Bool
verifying_after (stays t) = is_verifying t.status
verifying_after _ = false

code_refused-free : (h : HttpError) (s : CodeStep) → is_verifying (code_refused h s).status ≡ false
code_refused-free h s =
    let Free : CodeStep → Type 0 = λ t. is_verifying t.status ≡ false in
    if_both Free (h.status == 400 && text_eq h.code totp_invalid) refl (
      if_both Free (h.status == 422) refl
        (if_both Free (h.status == 429) refl (if_both Free (h.status == 503) refl refl)))

-- What an end says of the answer it came from.
abbrev Ends : Result Text → CodeEnd → Type 0
Ends r o =
    ((a : Text) → (o ≡ signs_in a) ↔ (r ≡ done a))
    × ((o ≡ hands_back true) ↔ IsRevoked r)
    × ((t : CodeStep) → o ≡ stays t → r ≢ failed aborted → is_verifying t.status ≡ false)

failed-Ends :
    (f : Failure) (s : CodeStep)
    → ((f ≢ aborted) → is_verifying s.status ≡ false)
    → (IsRevoked (failed f) → ⊥)
    → Ends (failed f) (stays s)
failed-Ends f s free other = (
  λ a. (λ h. absurd (cc), λ h. absurd (cc)),
  (λ h. absurd (cc), λ h. absurd (other h)),
  λ t h n. ap verifying_after (sym h) ∙ free (λ e. n (ap (λ x. failed x) e)),
)

http-Ends :
    (h : HttpError) (s : CodeStep)
    → Ends (failed (http_error h)) (code_answer (failed (http_error h)) s)
unfolding code_answer
http-Ends h s = elim (Bool-cases (h.status == 401)) [
  | inl t ↦ rw t (
    λ a. (λ k. absurd (cc), λ k. absurd (cc)),
    (λ k. (h, refl, (==_iff h.status 401).0 t), λ k. refl),
    λ u k n. absurd (cc),
  )
  | inr t ↦ rw t (
      failed-Ends (http_error h) (code_refused h s) (λ n. code_refused-free h s)
        (λ (g, e, is_401).
          let same : h ≡ g = cc in
          let bad : true ≡ false =
            sym ((==_iff h.status 401).1 (ap (λ (x : HttpError). x.status) same ∙ is_401)) ∙ t in
          cc))
]

-- The answers: a sign-in exactly for a code that was taken, the way back to the password exactly for a
-- 401, and after every other failure but an abort the step can be tried again.
pub code_answer-ends :
    (r : Result Text) (s : CodeStep)
    → ((a : Text) → (code_answer r s ≡ signs_in a) ↔ (r ≡ done a))
      × ((code_answer r s ≡ hands_back true) ↔ IsRevoked r)
      × ((t : CodeStep)
          → code_answer r s ≡ stays t
          → r ≢ failed aborted
          → is_verifying t.status ≡ false)
unfolding code_answer
code_answer-ends (done a) s =
    (λ b. (λ h. cc, λ h. cc), (λ h. absurd (cc), λ (h, e, _). absurd (cc)), λ t h n. absurd (cc))
code_answer-ends (failed aborted) s =
    failed-Ends aborted s (λ n. absurd (n refl)) (λ (h, e, _). absurd (cc))
code_answer-ends (failed network_error) s =
    failed-Ends network_error _ (λ n. refl) (λ (h, e, _). absurd (cc))
code_answer-ends (failed payload_error) s =
    failed-Ends payload_error _ (λ n. refl) (λ (h, e, _). absurd (cc))
code_answer-ends (failed (http_error h)) s = http-Ends h s
