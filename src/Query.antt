-- ===== src/Query.antt =====
-- frontend/src/admin/hooks/useAdminQuery.ts: a page's data by key, with reloads, retries and edits.
-- A change of the key and a new attempt abort the request before, so that an answer is always to the
-- request of the present key and attempt. `announcing` says that the attempt is the user's Retry.
pub mod Lifetime
use anthonyzng_web.Base.{
  ℕ, zero, suc, ◌+◌, ◌≡◌, Bool, true, false, ◌&&◌, Option, none, some, ◌==◌, if◌then◌else◌,
}
use anthonyzng_web.Base.Text.{Text, text_eq}
use anthonyzng_web.Client.{
  Result, done, failed, Failure, aborted, network_error, http_error, payload_error, HttpError,
}
use anthonyzng_web.ContentList.{is_unauthorized}

pub data QueryState {ℓ} (T : Type ℓ) : Type ℓ where
  is_loading : Option T → QueryState T
  is_failed : Option T → QueryState T
  is_ready : T → QueryState T

pub record Outcome : Type 0 where
  pub outcome_key : Text
  pub outcome_attempt : ℕ
  pub ok : Bool

pub record Query {ℓ} (T : Type ℓ) : Type ℓ where
  pub key : Text
  pub attempt : ℕ
  pub loaded : Option (Text × T)
  pub outcome : Option Outcome
  pub announcing : Bool
  pub announced : ℕ
  pub signed_out : Bool

-- How the present attempt ended, if it has.
abbrev pub ended_for : Text → ℕ → Option Outcome → Option Bool
ended_for key attempt none = none
ended_for key attempt (some o) =
    if text_eq o.outcome_key key && o.outcome_attempt == attempt then some o.ok else none

module _ {ℓ} {T : Type ℓ} where
  -- `loaded?.key === key ? loaded : null`
  abbrev pub data_for : Text → Option (Text × T) → Option T
  data_for key none = none
  data_for key (some (k, d)) = if text_eq k key then some d else none

  abbrev pub state_from : Option Bool → Option T → QueryState T
  state_from none current = is_loading current
  state_from (some true) (some d) = is_ready d
  state_from (some _) current = is_failed current

  -- `state`
  unfoldable pub query_state : Query T → QueryState T
  query_state q = state_from (ended_for q.key q.attempt q.outcome) (data_for q.key q.loaded)

  unfoldable pub show_key : Text → Query T → Query T
  show_key k q = record q { key = k; announcing = false }

  unfoldable pub reload : Query T → Query T
  reload q = record q { attempt = suc q.attempt; announcing = false }

  unfoldable pub retry : Query T → Query T
  retry q = record q { attempt = suc q.attempt; announcing = true }

  abbrev pub edit_loaded : (T → T) → Text → Option (Text × T) → Option (Text × T)
  edit_loaded update shown none = none
  edit_loaded update shown (some (k, d)) =
      if text_eq k shown then some (shown, update d) else some (k, d)

  -- `setData`
  unfoldable pub edit_data : (T → T) → Query T → Query T
  edit_data update q = record q { loaded = edit_loaded update q.key q.loaded }

  abbrev pub ended : Bool → Query T → Query T
  ended ok q = record q {
    outcome = some (record { outcome_key = q.key; outcome_attempt = q.attempt; ok = ok });
  }

  abbrev pub failed_query : Failure → Query T → Query T
  failed_query aborted q = q
  failed_query e q = if is_unauthorized e then record q { signed_out = true } else ended false q

  -- The answer to the request of the present key and attempt
  unfoldable pub take_answer : Result T → Query T → Query T
  take_answer (done d) q = ended true (record q {
    loaded = some (q.key, d);
    announced = if q.announcing then suc q.announced else q.announced;
  })
  take_answer (failed e) q = failed_query e q

  abbrev pub fresh : Text → Query T
  fresh k = record {
    key = k;
    attempt = 0;
    loaded = none;
    outcome = none;
    announcing = false;
    announced = 0;
    signed_out = false;
  }

  pub data Step : Query T → Query T → Type ℓ where
    key_changed : {q : Query T} (k : Text) → Step q (show_key k q)
    reloaded : {q : Query T} → Step q (reload q)
    retried : {q : Query T} → Step q (retry q)
    edited : {q : Query T} (update : T → T) → Step q (edit_data update q)
    came : {q : Query T} (r : Result T) → Step q (take_answer r q)

  pub data Reachable : Query T → Type ℓ where
    at_first : (k : Text) → Reachable (fresh k)
    after : {q p : Query T} → Reachable q → Step q p → Reachable p
