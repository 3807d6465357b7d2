-- ===== src/Query/Lifetime.antt =====
-- What a page shows of its data, through reloads that fail and changes of the key.
use anthonyzng_web.Base.{
  ℕ, suc, ◌≡◌, ◌≢◌, refl, sym, ap, ◌∙◌, inl, inr, Bool, true, false, ◌&&◌, [], Option, none, some,
  ◌==◌, arith, Bool-cases, and_split,
}
use anthonyzng_web.Base.Text.{Text, text_eq}
use anthonyzng_web.Base.Text.Laws.{text_eq_refl, text_eq_iff, text_eq-cases}
use anthonyzng_web.Client.{done, failed, Failure, aborted, network_error, http_error, payload_error}
use anthonyzng_web.ContentList.{is_unauthorized}
use anthonyzng_web.Query.{
  is_loading, is_failed, is_ready, Outcome, Query, data_for, ended_for, state_from, query_state,
  show_key, reload, retry, edit_loaded, edit_data, ended, failed_query, take_answer, Step,
  key_changed, reloaded, retried, edited, came, Reachable, at_first, after,
}

ended_for_self :
    (key : Text) (n : ℕ) (ok : Bool)
    → ended_for key n (some (record { outcome_key = key; outcome_attempt = n; ok = ok })) ≡ some ok
ended_for_self key n ok = ground (arith, text_eq_refl key)

-- An attempt that ended says nothing of the next one.
ended_for-next :
    (key : Text) (n : ℕ) (o : Option Outcome) {ok : Bool}
    → ended_for key n o ≡ some ok
    → ended_for key (suc n) o ≡ none
ended_for-next key n none h = refl
ended_for-next key n (some o) h = ground arith

-- The outcome behind a success of the present attempt.
ended_for-true :
    (key : Text) (n : ℕ) (o : Option Outcome)
    → ended_for key n o ≡ some true
    → (x : Outcome) × (o ≡ some x) × (x.outcome_key ≡ key) × (x.ok ≡ true)
ended_for-true key n none h = absurd (cc)
ended_for-true key n (some x) h =
    elim (Bool-cases (text_eq x.outcome_key key && x.outcome_attempt == n)) [
      | inl e ↦
          let k : some x.ok ≡ some true = rw e at h in
          (x, refl, (text_eq_iff x.outcome_key key).0 (and_split _ _ e).0, cc k)
      | inr e ↦ absurd (let k : none ≡ some true = rw e at h in cc)
    ]

-- The parts of an outcome, for outcomes that are known to be there.
abbrev ok_of : Option Outcome → Bool
ok_of none = false
ok_of (some o) = o.ok

abbrev key_of : Option Outcome → Text
key_of none = []
key_of (some o) = o.outcome_key

module _ {T : Type 0} where
  data_for_self : (key : Text) (d : T) → data_for key (some (key, d)) ≡ some d
  data_for_self key d = rw (text_eq_refl key) refl

  state_from-ready :
      (o : Option Bool) (c : Option T) (d : T)
      → state_from o c ≡ is_ready d
      → (o ≡ some true) × (c ≡ some d)
  state_from-ready none c d h = absurd (cc)
  state_from-ready (some true) none d h = absurd (cc)
  state_from-ready (some true) (some c) d h = (refl, cc h)
  state_from-ready (some false) c d h = absurd (cc)

  -- An answer is on screen as soon as it comes, whatever was there.
  pub query_state-take_answer :
      (q : Query T) (d : T) → query_state (take_answer (done d) q) ≡ is_ready d
  unfolding query_state take_answer
  query_state-take_answer q d =
      ap (λ o. state_from o (data_for q.key (some (q.key, d))))
        (ended_for_self q.key q.attempt true)
      ∙ ap (state_from (some true)) (data_for_self q.key d)

  failed_query-keeps :
      (e : Failure) (q : Query T)
      → e ≢ aborted
      → is_unauthorized e ≡ false
      → query_state (failed_query e q) ≡ is_failed (data_for q.key q.loaded)
  unfolding query_state
  failed_query-keeps aborted q n h = absurd (n refl)
  failed_query-keeps network_error q n h =
      ap (λ o. state_from o (data_for q.key q.loaded)) (ended_for_self q.key q.attempt false)
  failed_query-keeps payload_error q n h =
      ap (λ o. state_from o (data_for q.key q.loaded)) (ended_for_self q.key q.attempt false)
  failed_query-keeps (http_error e) q n h =
      rw h (ap (λ o. state_from o (data_for q.key q.loaded)) (ended_for_self q.key q.attempt false))

  -- Data that is on screen stays there while a reload runs, and when the reload fails, other than
  -- by an abort or the end of the session.
  pub query_state-reload :
      (q : Query T) (d : T) (e : Failure)
      → query_state q ≡ is_ready d
      → e ≢ aborted
      → is_unauthorized e ≡ false
      → (query_state (reload q) ≡ is_loading (some d))
        × (query_state (take_answer (failed e) (reload q)) ≡ is_failed (some d))
  unfolding query_state reload take_answer
  query_state-reload q d e h n u =
      let (o, c) = state_from-ready _ _ d h in
      (
        ap (λ x. state_from x (data_for q.key q.loaded))
              (ended_for-next q.key q.attempt q.outcome o)
            ∙ ap (state_from none) c,
        failed_query-keeps e (reload q) n u ∙ ap is_failed c,
      )

  -- A success has its data: what was loaded under its key.
  abbrev HasData : Query T → Type 0
  HasData q =
      (o : Outcome)
      → q.outcome ≡ some o
      → o.ok ≡ true
      → (d : T) × (q.loaded ≡ some (o.outcome_key, d))

  edit_loaded-HasData :
      (update : T → T) (shown k : Text) (l : Option (Text × T)) (d : T)
      → l ≡ some (k, d)
      → (d' : T) × (edit_loaded update shown l ≡ some (k, d'))
  edit_loaded-HasData update shown k none d h = absurd (cc)
  edit_loaded-HasData update shown k (some (j, c)) d h =
      let same : j ≡ k = cc h in
      elim (text_eq-cases j shown) [
        | inl (e, t) ↦ rw t (update c, ap (λ x. some (x, update c)) (sym e ∙ same))
        | inr (_, t) ↦ rw t (c, ap (λ x. some (x, c)) same)
      ]

  ended-HasData : (ok : Bool) (q : Query T) → ok ≡ false → HasData (ended ok q)
  ended-HasData ok q h = λ o e t. absurd (let bad : false ≡ true = sym h ∙ ap ok_of e ∙ t in cc)

  failed_query-HasData : (e : Failure) (q : Query T) → HasData q → HasData (failed_query e q)
  failed_query-HasData aborted q h = h
  failed_query-HasData network_error q h = ended-HasData false q refl
  failed_query-HasData payload_error q h = ended-HasData false q refl
  failed_query-HasData (http_error e) q h = elim (Bool-cases (is_unauthorized (http_error e))) [
    | inl u ↦ rw u h
    | inr u ↦ rw u (ended-HasData false q refl)
  ]

  step-HasData : {q p : Query T} → Step q p → HasData q → HasData p
  unfolding show_key reload retry edit_data take_answer
  step-HasData (key_changed k) h = h
  step-HasData reloaded h = h
  step-HasData retried h = h
  step-HasData (edited {q} update) h =
      λ o e t. let (d, l) = h o e t in edit_loaded-HasData update q.key o.outcome_key q.loaded d l
  step-HasData (came {q} (done d)) h = λ o e t. (d, ap (λ x. some (x, d)) (ap key_of e))
  step-HasData (came {q} (failed e)) h = failed_query-HasData e q h

  query-HasData : (q : Query T) → Reachable q → HasData q
  query-HasData _ (at_first k) = λ o e t. absurd (cc e)
  query-HasData _ (after r s) = step-HasData s (query-HasData _ r)

  -- In every reachable state, a present attempt that succeeded shows its data: the failure that the
  -- code falls back to where it finds none does not occur.
  pub query_state-IsReady :
      (q : Query T)
      → Reachable q
      → ended_for q.key q.attempt q.outcome ≡ some true
      → (d : T) × (query_state q ≡ is_ready d)
  unfolding query_state
  query_state-IsReady q r h =
      let (o, e, k, t) = ended_for-true q.key q.attempt q.outcome h in
      let (d, l) = query-HasData q r o e t in
      (
        d,
        ap (λ x. state_from x (data_for q.key q.loaded)) h
            ∙ ap (λ x. state_from (some true) (data_for q.key x)) (l ∙ ap (λ x. some (x, d)) k)
            ∙ ap (state_from (some true)) (data_for_self q.key d),
      )
