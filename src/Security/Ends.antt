-- ===== src/Security/Ends.antt =====
-- How the answer to a confirmation ends it.
use anthonyzng_web.Base.{
  ℕ, ◌≡◌, ◌≢◌, ◌↔◌, refl, sym, ap, ◌∙◌, inl, inr, Bool, true, false, ◌&&◌, ◌==◌, Bool-cases,
  if_both, ==_iff,
}
use anthonyzng_web.Base.Text.{text_eq}
use anthonyzng_web.Client.{
  Result, done, failed, Failure, aborted, network_error, payload_error, http_error, HttpError,
}
use anthonyzng_web.SignIn.Code.{totp_invalid}
use anthonyzng_web.Security.{
  error, ConfirmForm, ConfirmEnd, stays, changes, conflicts, expires, is_confirming, confirm_answer,
  refused_confirm, flag_named, named_errors, fields_or_none, finds_none, wrong_password_code,
}

-- The answer is an error of this status.
abbrev pub HasStatus {ℓ} : {A : Type ℓ} → ℕ → Result A → Type ℓ
HasStatus n r = (h : HttpError) × (r ≡ failed (http_error h)) × (h.status ≡ n)

abbrev confirming_after {ℓ} : {A : Type ℓ} → ConfirmEnd A → Bool
confirming_after (stays f) = is_confirming f.status
confirming_after _ = false

flag_named-free :
    (h : HttpError) (f : ConfirmForm)
    → is_confirming (flag_named (named_errors (fields_or_none h.fields)) f).status ≡ false
flag_named-free h f =
    if_both (λ (g : ConfirmForm). is_confirming g.status ≡ false)
      (finds_none (named_errors (fields_or_none h.fields))) refl refl

refused_confirm-free :
    (h : HttpError) (f : ConfirmForm) → is_confirming (refused_confirm h f).status ≡ false
refused_confirm-free h f =
    let Free : ConfirmForm → Type 0 = λ g. is_confirming g.status ≡ false in
    if_both Free (h.status == 400 && text_eq h.code wrong_password_code) refl (
      if_both Free (h.status == 400 && text_eq h.code totp_invalid) refl (
        if_both Free (h.status == 422) (flag_named-free h f)
          (if_both Free (h.status == 429) refl (if_both Free (h.status == 503) refl refl))))

-- What an end says of the answer it came from.
abbrev pub EndsAs {ℓ} : {A : Type ℓ} → Result A → ConfirmEnd A → Type ℓ
EndsAs {A = A} r o =
    ((a : A) → (o ≡ changes a) ↔ (r ≡ done a))
    × ((o ≡ expires) ↔ HasStatus 401 r)
    × ((o ≡ conflicts) ↔ HasStatus 409 r)
    × ((g : ConfirmForm) → o ≡ stays g → r ≢ failed aborted → is_confirming g.status ≡ false)

module _ {ℓ} {A : Type ℓ} where
  stays-EndsAs :
      (e : Failure) (f : ConfirmForm)
      → ((e ≢ aborted) → is_confirming f.status ≡ false)
      → (HasStatus {A = A} 401 (failed e) → ⊥)
      → (HasStatus {A = A} 409 (failed e) → ⊥)
      → EndsAs {A = A} (failed e) (stays f)
  stays-EndsAs e f free revoked conflicting = (
    λ a. (λ h. absurd (cc), λ h. absurd (cc)),
    (λ h. absurd (cc), λ h. absurd (revoked h)),
    (λ h. absurd (cc), λ h. absurd (conflicting h)),
    λ g h n. ap confirming_after (sym h) ∙ free (λ k. n (ap (λ x. failed x) k)),
  )

  other_status :
      (h : HttpError) (n : ℕ)
      → (h.status == n) ≡ false
      → HasStatus {A = A} n (failed (http_error h))
      → ⊥
  other_status h n t (k, e, s) =
      let inner : http_error h ≡ http_error k = cc in
      let same : h ≡ k = cc in
      let bad : false ≡ true = sym t ∙ (==_iff h.status n).1 (ap (λ x. x.status) same ∙ s) in cc

  http-EndsAs :
      (h : HttpError) (f : ConfirmForm)
      → EndsAs {A = A} (failed (http_error h)) (confirm_answer (failed (http_error h)) f)
  unfolding confirm_answer
  http-EndsAs h f = elim (Bool-cases (h.status == 401)) [
    | inl t ↦
        let is401 : h.status ≡ 401 = (==_iff h.status 401).0 t in
        rw t (
          λ a. (λ k. absurd (cc), λ k. absurd (cc)),
          (λ k. (h, refl, is401), λ k. refl),
          (λ k. absurd (cc), λ k. absurd (other_status h 409 (rw is401 refl) k)),
          λ g k n. absurd (cc),
        )
    | inr t ↦ elim (Bool-cases (h.status == 409)) [
      | inl u ↦
          let is409 : h.status ≡ 409 = (==_iff h.status 409).0 u in
          rw (t, u)
            (
              λ a. (λ k. absurd (cc), λ k. absurd (cc)),
              (λ k. absurd (cc), λ k. absurd (other_status h 401 t k)),
              (λ k. (h, refl, is409), λ k. refl),
              λ g k n. absurd (cc),
            )
      | inr u ↦
          rw (t, u)
            (stays-EndsAs (http_error h) (refused_confirm h f) (λ n. refused_confirm-free h f)
              (other_status h 401 t) (other_status h 409 u))
    ]
  ]

  -- A confirmation changes the sign-in exactly for an answer that says so, ends the session exactly for a
  -- 401 and tells of a conflict exactly for a 409; after any other answer but an abort the form stays and
  -- may be sent again.
  pub confirm_answer-ends : (r : Result A) (f : ConfirmForm) → EndsAs r (confirm_answer r f)
  unfolding confirm_answer
  confirm_answer-ends (done status) f = (
    λ a. (
      λ k. let same : status ≡ a = cc in ap (λ x. done x) same,
      λ k. let same : status ≡ a = cc in ap (λ x. changes x) same,
    ),
    (λ k. absurd (cc), λ (h, k, _). absurd (cc)),
    (λ k. absurd (cc), λ (h, k, _). absurd (cc)),
    λ g k n. absurd (cc),
  )
  confirm_answer-ends (failed aborted) f =
      stays-EndsAs aborted f (λ n. absurd (n refl)) (λ (h, k, _). absurd (cc))
        (λ (h, k, _). absurd (cc))
  confirm_answer-ends (failed network_error) f =
      stays-EndsAs network_error (record f { status = error }) (λ n. refl)
        (λ (h, k, _). absurd (cc)) (λ (h, k, _). absurd (cc))
  confirm_answer-ends (failed payload_error) f =
      stays-EndsAs payload_error (record f { status = error }) (λ n. refl)
        (λ (h, k, _). absurd (cc)) (λ (h, k, _). absurd (cc))
  confirm_answer-ends (failed (http_error h)) f = http-EndsAs h f
