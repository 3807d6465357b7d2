-- ===== src/Uploads/Serial.antt =====
-- Uploads run one after the other, and a confirmed action is sent once.
use anthonyzng_web.Base.{
  ◌≡◌, refl, sym, ◌∙◌, ◌↔◌, inl, inr, Bool, true, false, Option, none, some, Bool-cases,
}
use anthonyzng_web.Base.Text.{Text}
use anthonyzng_web.Client.{done, failed, Failure, aborted, network_error, http_error, payload_error}
use anthonyzng_web.ContentList.{is_unauthorized, is_moving}
use anthonyzng_web.Uploads.{
  UploadMessages, Uploader, pick, pick_in, settle, Step, picked, settled, Reachable, at_rest,
  and_then, Dialog, confirm, conclude, session_over, stays, is_done, counts_as_done, ended_with,
}

module _ {File Stored : Type 0} (check : File → Option Text) (messages : UploadMessages) where
  -- The page shows progress exactly while an upload is on its way.
  abbrev pub ShowsProgress : Uploader File Stored → Type 0
  ShowsProgress u = u.uploading ≡ is_moving u.request

  pick_in-ShowsProgress :
      (o : Option File) (verdict : Option Text) (file : File) (u : Uploader File Stored)
      → ShowsProgress u
      → ShowsProgress (pick_in o verdict file u)
  pick_in-ShowsProgress (some _) verdict file u h = h
  pick_in-ShowsProgress none (some _) file u h = h
  pick_in-ShowsProgress none none file u h = refl

  step-ShowsProgress :
      {u v : Uploader File Stored} → Step check messages u v → ShowsProgress u → ShowsProgress v
  unfolding pick settle
  step-ShowsProgress (picked {u} file) h = pick_in-ShowsProgress u.request (check file) file u h
  step-ShowsProgress (settled (done s) e) h = refl
  step-ShowsProgress (settled (failed f) e) h = refl

  -- At every moment the page shows progress exactly while an upload is on its way.
  pub uploader-ShowsProgress :
      (u : Uploader File Stored) → Reachable check messages u → ShowsProgress u
  uploader-ShowsProgress _ at_rest = refl
  uploader-ShowsProgress _ (and_then r s) = step-ShowsProgress s (uploader-ShowsProgress _ r)

  pick_in-keeps :
      (verdict : Option Text) (file : File) (u : Uploader File Stored) {first : File}
      (o : Option File)
      → o ≡ some first
      → ((pick_in o verdict file u).request ≡ u.request)
        × ((pick_in o verdict file u).uploading ≡ u.uploading)
        × ((pick_in o verdict file u).error ≡ u.error)
  pick_in-keeps verdict file u none h = absurd (cc)
  pick_in-keeps verdict file u (some _) h = (refl, refl, refl)

  -- A pick during an upload leaves that upload, and what the page shows of it, as they are.
  pub pick-keeps :
      (u : Uploader File Stored) (first second : File)
      → u.request ≡ some first
      → ((pick check second u).request ≡ u.request)
        × ((pick check second u).uploading ≡ u.uploading)
        × ((pick check second u).error ≡ u.error)
  unfolding pick
  pick-keeps u first second h = pick_in-keeps (check second) second u (u.request) h

module _ {Target : Type 0} where
  -- Whatever the dialog is, confirming it a second time before the answer sends nothing.
  pub confirm-once : (d : Option (Dialog Target)) → (confirm (confirm d).0).1 ≡ none
  unfolding confirm
  confirm-once none = refl
  confirm-once (some d) = elim (Bool-cases d.busy) [
    | inl e ↦ rw (e, confirm) refl
    | inr e ↦ rw e refl
  ]

  ended_with-is_done :
      (flag : Bool) (target : Target) (e : Failure)
      → ((ended_with flag target e).1 ≡ is_done)
        ↔ ((is_unauthorized e ≡ false) × (counts_as_done flag e ≡ true))
  ended_with-is_done flag target e = elim (Bool-cases (is_unauthorized e)) [
    | inl p ↦ (
      λ h. absurd (let k : session_over ≡ is_done = rw p at h in cc),
      λ (q, r). absurd (let bad : true ≡ false = sym p ∙ q in cc),
    )
    | inr p ↦ elim (Bool-cases (counts_as_done flag e)) [
      | inl q ↦ (λ h. (p, q), λ h. rw (p, q) refl)
      | inr q ↦ (
        λ h. absurd (let k : stays ≡ is_done = rw (p, q) at h in cc),
        λ (r, s). absurd (let bad : false ≡ true = sym q ∙ s in cc),
      )
    ]
  ]

  -- A request that failed has done the action exactly where its status counts as success for it, as
  -- a 404 does for a deletion; neither an abort nor the end of the session does.
  pub conclude-is_done :
      (R : Type 0) (flag : Bool) (d : Dialog Target) (e : Failure)
      → ((conclude {R = R} flag d (failed e)).1 ≡ is_done)
        ↔ ((is_unauthorized e ≡ false) × (counts_as_done flag e ≡ true))
  unfolding conclude
  conclude-is_done R true d aborted = (λ h. absurd (cc), λ (p, q). absurd (cc))
  conclude-is_done R false d aborted = (λ h. absurd (cc), λ (p, q). absurd (cc))
  conclude-is_done R flag d network_error = ended_with-is_done flag d.target network_error
  conclude-is_done R flag d payload_error = ended_with-is_done flag d.target payload_error
  conclude-is_done R flag d (http_error e) = ended_with-is_done flag d.target (http_error e)
