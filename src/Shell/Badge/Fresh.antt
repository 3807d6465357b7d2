-- ===== src/Shell/Badge/Fresh.antt =====
-- The badge never goes back to an older count, and a forced refresh is always heard.
use anthonyzng_web.Base.{
  ◌⊎◌, ℕ, ◌≡◌, ◌<◌, ◌≤◌, refl, ap, ◌∙◌, inl, inr, arith, Bool, true, false, ◌||◌, Option, none,
  some, List, [], ◌∷◌, ◌==◌, ==_iff, if_both, Bool-cases, Option-cases,
}
use anthonyzng_web.Client.{
  Result, done, failed, Failure, aborted, network_error, payload_error, http_error,
}
use anthonyzng_web.Shell.Badge.{
  updated, take_running, UnreadUpdate, Badge, loading, refresh, load_unless, set_unread,
  take_summary, answered, follow_up, with_summary, without_summary,
}

pub data BadgeEvent : Badge → Badge → Type 0 where
  refreshed : {b : Badge} (force : Bool) → BadgeEvent b (refresh force b).0
  counted : {b : Badge} (update : UnreadUpdate) → BadgeEvent b (set_unread update b)
  summary_came : {b : Badge} (r : Result ℕ) → BadgeEvent b (take_summary r b).0

abbrev pub first_badge : Badge
first_badge = record {
  summary = none;
  summary_status = loading;
  unread = none;
  version = 0;
  running = none;
  again = false;
  has_expired = false;
}

pub data BadgeReached : Badge → Type 0 where
  at_first : BadgeReached first_badge
  then_event : {b c : Badge} → BadgeReached b → BadgeEvent b c → BadgeReached c

-- The request was made at an inbox version that has been.
abbrev pub InOrder : Badge → Type 0
InOrder b = (v : ℕ) → b.running ≡ some v → v ≤ b.version

load_unless-InOrder :
    (o : Option ℕ) (force : Bool) (b : Badge)
    → b.running ≡ o
    → InOrder b
    → InOrder (load_unless o force b).0
load_unless-InOrder none force b same h v k =
    let here : b.version ≡ v = (let both : some b.version ≡ some v = k in cc) in omega (arith, here)
load_unless-InOrder (some w) force b same h v k = h v k

-- What an answer leaves alone.
abbrev KeepsRequests : Badge → Badge → Type 0
KeepsRequests b c = (c.version ≡ b.version) × (c.again ≡ b.again)

without_summary-keeps :
    (e : Failure) (b : Badge)
    → KeepsRequests b (without_summary e b) × ((without_summary e b).unread ≡ b.unread)
without_summary-keeps aborted b = ((refl, refl), refl)
without_summary-keeps network_error b = ((refl, refl), refl)
without_summary-keeps payload_error b = ((refl, refl), refl)
without_summary-keeps (http_error h) b =
    if_both (λ (c : Badge). KeepsRequests b c × (c.unread ≡ b.unread)) (h.status == 401)
      ((refl, refl), refl) ((refl, refl), refl)

answered-keeps : (r : Result ℕ) (v : ℕ) (b : Badge) → KeepsRequests b (answered r v b)
answered-keeps (done count) v b = (refl, refl)
answered-keeps (failed e) v b = (without_summary-keeps e b).0

follow_up-InOrder : (a : Bool) (b : Badge) → InOrder (follow_up a b).0
follow_up-InOrder true b v k =
    let here : b.version ≡ v = (let both : some b.version ≡ some v = k in cc) in omega (arith, here)
follow_up-InOrder false b v k = absurd (cc)

take_running-InOrder :
    (o : Option ℕ) (r : Result ℕ) (b : Badge) → InOrder b → InOrder (take_running o r b).0
take_running-InOrder none r b h = h
take_running-InOrder (some v) r b h = follow_up-InOrder (answered r v b).again (answered r v b)

pub badge-InOrder : (b : Badge) → BadgeReached b → InOrder b
unfolding refresh set_unread take_summary
badge-InOrder _ at_first v k = absurd (cc)
badge-InOrder _ (then_event r (refreshed {b} force)) v k =
    load_unless-InOrder b.running force b refl (badge-InOrder b r) v k
badge-InOrder _ (then_event r (counted {b} update)) v k = omega (arith, badge-InOrder b r v k)
badge-InOrder _ (then_event r (summary_came {b} s)) v k =
    take_running-InOrder b.running s b (badge-InOrder b r) v k

-- An answer in which the running request was made at some version.
take_summary-running :
    (r : Result ℕ) (b : Badge) {v : ℕ}
    → b.running ≡ some v
    → take_summary r b ≡ follow_up (answered r v b).again (answered r v b)
unfolding take_summary
take_summary-running r b h = ap (λ o. take_running o r b) h

follow_up-unread : (a : Bool) (b : Badge) → (follow_up a b).0.unread ≡ b.unread
follow_up-unread true b = refl
follow_up-unread false b = refl

with_summary-older :
    (count v : ℕ) (b : Badge) → v < b.version → (with_summary count v b).unread ≡ b.unread
with_summary-older count v b h = elim (Bool-cases (b.version == v)) [
  | inl t ↦ absurd (omega (arith, h, (==_iff b.version v).0 t))
  | inr t ↦ rw t refl
]

answered-older :
    (r : Result ℕ) (v : ℕ) (b : Badge) → v < b.version → (answered r v b).unread ≡ b.unread
answered-older (done count) v b h = with_summary-older count v b h
answered-older (failed e) v b h = (without_summary-keeps e b).1

-- Any number of calls of `refresh`.
unfoldable pub refresh_all : List Bool → Badge → Badge
refresh_all [] b = b
refresh_all (force ∷ forces) b = refresh_all forces (refresh force b).0

refresh_all-running :
    (forces : List Bool) (b : Badge) {v : ℕ}
    → b.running ≡ some v
    → let c = refresh_all forces b in
      (c.running ≡ some v) × (c.version ≡ b.version) × (c.unread ≡ b.unread)
unfolding refresh_all refresh
refresh_all-running [] b h = (h, refl, refl)
refresh_all-running (force ∷ forces) b {v} h =
    let joined : load_unless b.running force b ≡ load_unless (some v) force b =
      ap (λ o. load_unless o force b) h in
    let (p, q, s) =
      refresh_all-running forces (load_unless b.running force b).0
        (ap (λ x. x.0.running) joined ∙ h) in
    (p, q ∙ ap (λ x. x.0.version) joined, s ∙ ap (λ x. x.0.unread) joined)

-- A count that the inbox sets while a request runs is not overwritten by that request's answer, however
-- often the summary is asked for in between.
pub take_summary-older :
    (b : Badge) (update : UnreadUpdate) (forces : List Bool) (r : Result ℕ) {v : ℕ}
    → BadgeReached b
    → b.running ≡ some v
    → (take_summary r (refresh_all forces (set_unread update b))).0.unread ≡ updated update b.unread
unfolding set_unread
take_summary-older b update forces r {v} reached h =
    let c = refresh_all forces (set_unread update b) in
    let (running, version, unread) = refresh_all-running forces (set_unread update b) h in
    let older : v < c.version = omega (arith, badge-InOrder b reached v h, version) in
    ap (λ x. x.0.unread) (take_summary-running r c running)
    ∙ follow_up-unread _ (answered r v c)
    ∙ answered-older r v c older
    ∙ unread

or_true : (a : Bool) → (a || true) ≡ true
or_true true = refl
or_true false = refl

abbrev pub FollowsUp : Badge × Bool → Type 0
FollowsUp c = (c.1 ≡ true) × (c.0.running ≡ some c.0.version)

joined_is_heard :
    (r : Result ℕ) (b : Badge) {v : ℕ}
    → b.running ≡ some v
    → b.again ≡ true
    → FollowsUp (take_summary r b)
joined_is_heard r b {v} running again =
    let asked : (answered r v b).again ≡ true = (answered-keeps r v b).1 ∙ again in
    let follows : take_summary r b ≡ follow_up true (answered r v b) =
      take_summary-running r b running ∙ ap (λ a. follow_up a (answered r v b)) asked in
    rw follows (refl, refl)

-- A forced call is heard: it makes a request, or else the answer to the running one is followed by
-- another, made at the inbox version of that moment.
pub refresh-IsHeard :
    (b : Badge)
    → ((refresh true b).1 ≡ true) ⊎ ((r : Result ℕ) → FollowsUp (take_summary r (refresh true b).0))
unfolding refresh
refresh-IsHeard b = elim (Option-cases b.running) [
  | inl n ↦ inl (ap (λ o. (load_unless o true b).1) n)
  | inr (v, s) ↦ inr (λ r.
      let joined : (load_unless b.running true b).0 ≡ record b { again = b.again || true } =
        ap (λ o. (load_unless o true b).0) s in
      rw joined (joined_is_heard r (record b { again = b.again || true }) s (or_true b.again)))
]
