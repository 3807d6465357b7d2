-- ===== src/Client/Outcome.antt =====
-- When `requestJson` (frontend/src/api/client.ts) returns, rethrows an abort, or reports a status.
use mathlib.Core.Path.{subst}
use anthonyzng_web.Base.{
  ℕ, ◌≡◌, ◌≢◌, refl, ◌⊎◌, ◌↔◌, inl, inr, true, false, Option, none, some, arith, ◌==◌, ==_iff,
  Bool-cases, ap, sym, ◌∙◌,
}
use anthonyzng_web.Base.Text.{Text}
use anthonyzng_web.Base.Text.Laws.{text_eq_iff}
use anthonyzng_web.Json.{Json}
use anthonyzng_web.Client.{
  BodyRead, parsed, threw, Response, Fetched, rejected, answered, ErrorBody, aborted, http_error,
  Result, done, failed, is_named, abort_name, is_ok, data_of, read_body, accepted, accept,
  body_failure, fetch_failure, request_json, to_http_error,
}

-- The body that a schema has to accept: none for a 204, else the JSON value.
abbrev pub Body : Response → Option Json → Type 0
Body r d =
    (r.status ≡ 204) × (d ≡ none)
    ⊎ (r.status ≢ 204) × ((v : Json) × (r.body ≡ parsed v) × (d ≡ some v))

is_named_iff : (name : Text) (n : Option Text) → (is_named name n ≡ true) ↔ (n ≡ some name)
unfolding is_named
is_named_iff name none = (λ h. absurd (cc), λ h. absurd (cc))
is_named_iff name (some n) =
    (λ h. ap some ((text_eq_iff n name).0 h), λ h. (text_eq_iff n name).1 (cc h))

body_failure-aborted : (n : Option Text) → (body_failure n ≡ aborted) ↔ (n ≡ some abort_name)
body_failure-aborted n =
    let (to, from) = is_named_iff abort_name n in (λ h. to (ground arith), λ e. rw (from e) refl)

fetch_failure-aborted : (n : Option Text) → (fetch_failure n ≡ aborted) ↔ (n ≡ some abort_name)
fetch_failure-aborted n =
    let (to, from) = is_named_iff abort_name n in (λ h. to (ground arith), λ e. rw (from e) refl)

read_body-done :
    (b : BodyRead) (d : Option Json)
    → (read_body b ≡ done d) ↔ ((v : Json) × (b ≡ parsed v) × (d ≡ some v))
read_body-done (parsed v) d = (λ h. (v, refl, cc h), λ (w, p, q). let same : v ≡ w = cc p in cc)
read_body-done (threw n) d = (λ h. absurd (cc), λ (w, p, q). absurd (cc p))

read_body-aborted : (b : BodyRead) → (read_body b ≡ failed aborted) ↔ (b ≡ threw (some abort_name))
read_body-aborted (parsed v) = (λ h. absurd (cc), λ h. absurd (cc))
read_body-aborted (threw n) =
    let (to, from) = body_failure-aborted n in
    (λ h. ap threw (to (cc h)), λ h. ap failed (from (cc h)))

data_of-done : (r : Response) (d : Option Json) → (data_of r ≡ done d) ↔ Body r d
unfolding data_of
data_of-done r d =
    let (to, from) = read_body-done r.body d in
    let (same, to_test) = ==_iff r.status 204 in
    elim (Bool-cases (r.status == 204)) [
      | inl e ↦ (
        λ h. inl (same e, (let k : done none ≡ done d = rw e at h in cc)),
        λ h. elim h [ inl (s, p) ↦ rw (e, p) refl | inr (n, w) ↦ absurd (n (same e)) ],
      )
      | inr e ↦ (
        λ h. inr ((λ s. cc (to_test s)), to (rw e at h)),
        λ h. elim h [
          | inl (s, p) ↦ absurd (let k : true ≡ false = sym (to_test s) ∙ e in cc)
          | inr (n, w) ↦ rw e (from w)
        ],
      )
    ]

data_of-aborted :
    (r : Response)
    → (data_of r ≡ failed aborted) ↔ ((r.status ≢ 204) × (r.body ≡ threw (some abort_name)))
unfolding data_of
data_of-aborted r =
    let (to, from) = read_body-aborted r.body in
    let (same, to_test) = ==_iff r.status 204 in
    elim (Bool-cases (r.status == 204)) [
      | inl e ↦ (
        λ h. absurd (let k : done none ≡ failed aborted = rw e at h in cc),
        λ (n, w). absurd (n (same e)),
      )
      | inr e ↦ ((λ h. ((λ s. cc (to_test s)), to (rw e at h))), λ (n, w). rw e (from w))
    ]

accepted-done : {T : Type 0} (o : Option T) (t : T) → (accepted o ≡ done t) ↔ (o ≡ some t)
accepted-done none t = (λ h. absurd (cc), λ h. absurd (cc))
accepted-done (some u) t = (λ h. cc h, λ h. cc h)

accepted-aborted : {T : Type 0} (o : Option T) → accepted o ≢ failed aborted
accepted-aborted none h = absurd (cc)
accepted-aborted (some u) h = absurd (cc)

module _ {T : Type 0} (schema : Option Json → Option T) where
  accept-done :
      (o : Result (Option Json)) (t : T)
      → (accept schema o ≡ done t) ↔ ((d : Option Json) × (o ≡ done d) × (schema d ≡ some t))
  accept-done (failed e) t = (λ h. absurd (cc), λ (d, p, q). absurd (cc p))
  accept-done (done d) t =
      let (to, from) = accepted-done (schema d) t in
      (λ h. (d, refl, to h), λ (d', p, q). let same : d ≡ d' = cc p in from (ap schema same ∙ q))

  accept-aborted :
      (o : Result (Option Json)) → (accept schema o ≡ failed aborted) ↔ (o ≡ failed aborted)
  accept-aborted (failed e) = (λ h. cc h, λ h. cc h)
  accept-aborted (done d) = (λ h. absurd (accepted-aborted (schema d) h), λ h. absurd (cc))

  module _ (read_error : Json → Option ErrorBody) (integer : Text → Option ℕ) where
    -- A value is returned exactly where the server answered with a 2xx status and the schema
    -- accepts the body, which for a 204 is no body at all.
    pub request_json-done :
        (f : Fetched) (t : T)
        → (request_json schema read_error integer f ≡ done t) ↔ (
            (r : Response) × (f ≡ answered r)
            × (is_ok r ≡ true)
            × ((d : Option Json) × Body r d × (schema d ≡ some t)))
    unfolding request_json
    request_json-done (rejected n) t = (λ h. absurd (cc), λ (r, p, w, v). absurd (cc p))
    request_json-done (answered r) t = elim (Bool-cases (is_ok r)) [
      | inl e ↦
          let (to, from) = accept-done (data_of r) t in
          (
            λ h. let (d, p, q) = to (rw e at h) in (r, refl, e, (d, (data_of-done r d).0 p, q)),
            λ (r', p, ok, (d, w, q)).
                let here : r' ≡ r = cc p in
                rw e (from (d, (data_of-done r d).1 (subst (λ x. Body x d) here w), q)),
          )
      | inr e ↦ (
        λ h. absurd (
            let k : failed (http_error (to_http_error read_error integer r)) ≡ done t = rw e at h in
            cc),
        λ (r', p, ok, w).
            absurd (
              let here : r ≡ r' = cc p in
              let bad : false ≡ true = sym e ∙ ap is_ok here ∙ ok in cc),
      )
    ]

    -- The caller's abort is rethrown exactly where `fetch` itself, or reading the body of a 2xx
    -- answer, was aborted; the abort of an error answer's body is reported as that answer's status.
    pub request_json-aborted :
        (f : Fetched)
        → (request_json schema read_error integer f ≡ failed aborted) ↔ (
            (f ≡ rejected (some abort_name))
            ⊎ ((r : Response) × (f ≡ answered r)
                × (is_ok r ≡ true)
                × (r.status ≢ 204)
                × (r.body ≡ threw (some abort_name))))
    unfolding request_json
    request_json-aborted (rejected n) =
        let (to, from) = fetch_failure-aborted n in
        (
          λ h. inl (ap rejected (to (cc h))),
          λ h. elim h [ inl e ↦ ap failed (from (cc e)) | inr (r, p, w, v, u) ↦ absurd (cc p) ],
        )
    request_json-aborted (answered r) = elim (Bool-cases (is_ok r)) [
      | inl e ↦
          let (to, from) = accept-aborted (data_of r) in
          let (split, join) = data_of-aborted r in
          (
            λ h. let (n, b) = split (to (rw e at h)) in inr (r, refl, e, n, b),
            λ h. elim h [
              | inl q ↦ absurd (cc q)
              | inr (r', p, ok, n, b) ↦
                  let here : r ≡ r' = cc p in
                  rw e (
                    from (
                      join
                        ((λ s. n (sym (ap (λ x. x.status) here) ∙ s)), ap (λ x. x.body) here ∙ b)))
            ],
          )
      | inr e ↦ (
        λ h. absurd (
            let k : failed (http_error (to_http_error read_error integer r)) ≡ failed aborted =
              rw e at h in
            cc),
        λ h. elim h [
          | inl q ↦ absurd (cc q)
          | inr (r', p, ok, n, b) ↦ absurd (
              let here : r ≡ r' = cc p in let bad : false ≡ true = sym e ∙ ap is_ok here ∙ ok in cc)
        ],
      )
    ]
