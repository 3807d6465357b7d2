-- ===== src/RowEditors/EndMonth.antt =====
-- frontend/src/admin/editor/EndMonthField.tsx: an end month, or none while the role is current.
use anthonyzng_web.Base.{◌>>=◌, ◌≡◌, ap, sym, ◌∙◌, Bool, true, false, Option, some, bind-inv}
use anthonyzng_web.Base.Text.{Text}
use anthonyzng_web.Json.{Json, null, str}
use anthonyzng_web.Draft.{get_at, as_string, set_at}
use anthonyzng_web.Draft.Access.{get_at-set_at}
use anthonyzng_web.Validation.{end_key}

-- What the field holds besides the draft: `lastMonth`.
pub record EndMonth : Type 0 where
  pub draft : Json
  pub last_month : Text

unfoldable pub open_month : Json → EndMonth
open_month draft = record { draft = draft; last_month = as_string (get_at draft end_key) }

abbrev pub end_value : Bool → Text → Json
end_value true month = null
end_value false month = str month

-- The checkbox: `api.update('end', checked ? null : lastMonth.current)`
unfoldable pub tick : Bool → EndMonth → Option EndMonth
tick checked m = do
  draft ← set_at m.draft end_key (end_value checked m.last_month)
  some (record m { draft = draft })

-- The month control.
unfoldable pub type_month : Text → EndMonth → Option EndMonth
type_month value m = do
  draft ← set_at m.draft end_key (str value)
  some (record { draft = draft; last_month = value })

-- A tick and its undoing bring back the month that the field last held, whatever was ticked before.
pub tick-tick :
    (m : EndMonth) {a b : EndMonth}
    → tick true m ≡ some a
    → tick false a ≡ some b
    → (get_at a.draft end_key ≡ some null)
      × (get_at b.draft end_key ≡ some (str m.last_month))
      × (b.last_month ≡ m.last_month)
unfolding tick
tick-tick m {a} {b} h k =
    let (d, w, same) = bind-inv (set_at m.draft end_key null) _ h in
    let same' : record m { draft = d } ≡ a = cc in
    let kept : m.last_month ≡ a.last_month = ap (λ (x : EndMonth). x.last_month) same' in
    let (d', w', same'') = bind-inv (set_at a.draft end_key (str a.last_month)) _ k in
    let last : record a { draft = d' } ≡ b = cc in
    (
      rw (← same') (get_at-set_at m.draft end_key null w),
      rw (← last)
          (get_at-set_at a.draft end_key (str a.last_month) w' ∙ ap (λ s. some (str s)) (sym kept)),
      rw (← last) (sym kept),
    )
