-- ===== src/ContentList/Moves.antt =====
-- Moves: what they ask of the server, and that a failed one is undone.
use mathlib.Core.List.{Perm}
use mathlib.Core.List.Perm
use mathlib.Core.Option
use anthonyzng_web.Base.{
  ℕ, ◌<◌, ◌≡◌, ◌≢◌, refl, ◌∙◌, sym, ap, inl, inr, ◌⊎◌, Bool, true, false, Option, none, some, List,
  map, length, ltb, ltb→lt, Bool-cases,
}
use anthonyzng_web.Base.Text.{Text}
use anthonyzng_web.Client.{Failure, aborted, network_error, http_error, payload_error}
use anthonyzng_web.Draft.{swapped}
use anthonyzng_web.Draft.Rows.{swapped-perm}
use anthonyzng_web.ContentList.{
  Direction, target_of, Screen, busy, move, move_in, move_to, moved, move_failed, move_failed_with,
  is_unauthorized, rolled_back,
}

module _ {Item : Type 0} (slug : Item → Text) where
  -- A move of a row of the list on screen to a place in the list: the screen that it leaves and the
  -- slugs that it sends.
  abbrev IsMove : List Item → ℕ → Option ℕ → Screen Item → Screen Item → List Text → Type 0
  IsMove items index place before after sent =
      (target : ℕ) × (place ≡ some target)
      × (target < length items)
      × (after ≡ moved items (swapped items index target) before)
      × (sent ≡ map slug (swapped items index target))

  move_to-IsMove :
      (items : List Item) (index : ℕ) (o : Option ℕ) (s : Screen Item) {s' : Screen Item}
      {sent : List Text}
      → move_to slug items index o s ≡ (s', some sent)
      → IsMove items index o s s' sent
  move_to-IsMove items index none s {s'} {sent} h = absurd (let bad = ap (λ p. p.1) h in cc)
  move_to-IsMove items index (some target) s {s'} {sent} h =
      elim (Bool-cases (ltb target (length items))) [
        | inl e ↦
            let k : (
              moved items (swapped items index target) s,
              some (map slug (swapped items index target)),
            )
                ≡ (s', some sent) =
              rw e at h in
            (
              target,
              refl,
              ltb→lt target (length items) e,
              sym (ap (λ p. p.0) k),
              cc (ap (λ p. p.1) k),
            )
        | inr e ↦ absurd (let k : (s, none) ≡ (s', some sent) = rw e at h in cc (ap (λ p. p.1) k))
      ]

  move_in-IsMove :
      (items : List Item) (index : ℕ) (d : Direction) (s : Screen Item) {s' : Screen Item}
      {sent : List Text}
      → move_in slug (some items) index d s ≡ (s', some sent)
      → (busy s ≡ false) × IsMove items index (target_of d index) s s' sent
  move_in-IsMove items index d s {s'} {sent} h = elim (Bool-cases (busy s)) [
    | inl e ↦ absurd (let k : (s, none) ≡ (s', some sent) = rw e at h in cc (ap (λ p. p.1) k))
    | inr e ↦ (e, move_to-IsMove items index (target_of d index) s (rw e at h))
  ]

  -- What a move sends are exactly the slugs of the list on screen, in another order.
  pub move-perm :
      (index : ℕ) (d : Direction) (s s' : Screen Item) (items : List Item) (sent : List Text)
      → s.items ≡ some items
      → move slug index d s ≡ (s', some sent)
      → Perm sent (map slug items)
  unfolding move
  move-perm index d s s' items sent shown h =
      let (idle, (target, p, lt, after, q)) =
        move_in-IsMove items index d s (sym (ap (λ o. move_in slug o index d s) shown) ∙ h) in
      rw q (Perm.map slug (swapped-perm items index target))

  -- No move is sent while another one or a reload is on its way, or to a place off the list.
  pub move-waits :
      (index : ℕ) (d : Direction) (s s' : Screen Item) (items : List Item) (sent : List Text)
      → s.items ≡ some items
      → move slug index d s ≡ (s', some sent)
      → (busy s ≡ false)
        × ((target : ℕ) × (target_of d index ≡ some target) × (target < length items))
  unfolding move
  move-waits index d s s' items sent shown h =
      let (idle, (target, p, lt, after, q)) =
        move_in-IsMove items index d s (sym (ap (λ o. move_in slug o index d s) shown) ∙ h) in
      (idle, (target, p, lt))

  -- The list from before is on screen, no move is on its way, and it is fetched again or the
  -- session has ended.
  abbrev pub IsUndone : List Item → Screen Item → Type 0
  IsUndone items s =
      (s.items ≡ some items) × (s.moving ≡ none) × ((s.loading ≡ true) ⊎ (s.expired ≡ true))

  rolled_back-IsUndone :
      (unauthorized : Bool) (items next : List Item) (s : Screen Item)
      → s.items ≡ some next
      → IsUndone items (rolled_back unauthorized items s)
  rolled_back-IsUndone true items next s h = (rw h refl, refl, inr refl)
  rolled_back-IsUndone false items next s h = (rw h refl, refl, inl refl)

  failed_with-IsUndone :
      (e : Failure) (items next : List Item) (s : Screen Item)
      → e ≢ aborted
      → s.items ≡ some next
      → IsUndone items (move_failed_with e items s)
  failed_with-IsUndone aborted items next s n h = absurd (n refl)
  failed_with-IsUndone network_error items next s n h = rolled_back-IsUndone false items next s h
  failed_with-IsUndone payload_error items next s n h = rolled_back-IsUndone false items next s h
  failed_with-IsUndone (http_error e) items next s n h =
      rolled_back-IsUndone (is_unauthorized (http_error e)) items next s h

  -- A move that was sent and failed, other than by an abort, leaves the list as it was before it,
  -- and the list is fetched again or the session has ended.
  pub move-move_failed :
      (index : ℕ) (d : Direction) (s s' : Screen Item) (items : List Item) (sent : List Text)
      (e : Failure)
      → s.items ≡ some items
      → move slug index d s ≡ (s', some sent)
      → e ≢ aborted
      → IsUndone items (move_failed e s')
  unfolding move move_failed
  move-move_failed index d s s' items sent e shown h n =
      let (idle, (target, p, lt, after, q)) =
        move_in-IsMove items index d s (sym (ap (λ o. move_in slug o index d s) shown) ∙ h) in
      rw after (
        failed_with-IsUndone e items (swapped items index target)
          (moved items (swapped items index target) s) n
          (ap (Option.map (λ _. swapped items index target)) shown))
