-- ===== src/Presentation/ProgressRenderer/Rate.antt =====
-- How often a chat's status message changes, and what it shows then.
use cpp_mirror_leech_bot.Prelude.{
  ℕ, ◌+◌, ◌≤◌, ◌≡◌, ◌⊎◌, inl, inr, Bool, true, false, not, ◌&&◌, Option, none, some, Bytes, List,
  [], ◌∷◌, arith, Bool-cases, if◌then◌else◌, is_empty, bytes_eq, All,
}
use mathlib.Core.Path.{subst}
use cpp_mirror_leech_bot.Prelude.Integers.{pos, eq_ℤ}
use cpp_mirror_leech_bot.Core.Error.{Result, ok, err}
use cpp_mirror_leech_bot.Domain.Identifiers.{MessageId}
use cpp_mirror_leech_bot.Presentation.ProgressRenderer.{
  ChatState, Tick, Call, edit_html, send_html, Rendering, have_message, send_fresh, edit_or_send,
  render,
}

-- The messenger names no message 0.
abbrev pub IsNumber : Result MessageId → Type 0
IsNumber (ok id) = eq_ℤ id (pos 0) ≡ false
IsNumber (err e) = Unit {0}

abbrev pub IsNumbered : Tick → Type 0
IsNumbered t = IsNumber t.sent

abbrev is_ok {ℓ} : {A : Type ℓ} → Result A → Bool
is_ok (ok a) = true
is_ok (err e) = false

-- The rendering changed what the chat shows.
abbrev pub is_update : Rendering → Bool
is_update r = is_ok r.result && not (is_empty r.calls)

-- The times at which those of a sequence of renderings that changed what the chat shows were begun.
unfoldable pub updates : ℕ → List Tick → ChatState → List ℕ
updates throttle [] s = []
updates throttle (t ∷ ticks) s =
    let r = render throttle t s in
    let rest = updates throttle ticks r.state in if is_update r then t.now ∷ rest else rest

-- Each time comes `throttle` or more after the one before it, and the first after `since`.
abbrev pub IsSpaced : ℕ → ℕ → List ℕ → Type 0
IsSpaced throttle since [] = Unit {0}
IsSpaced throttle since (time ∷ times) = (since + throttle ≤ time) × IsSpaced throttle time times

render-update :
    (throttle : ℕ) (t : Tick) (s : ChatState)
    → IsNumbered t
    → is_update (render throttle t s) ≡ true
    → (have_message s ≡ true → s.last_edit + throttle ≤ t.now)
      × (have_message (render throttle t s).state ≡ true)
      × ((render throttle t s).state.last_edit ≡ t.now)
unfolding render edit_or_send send_fresh
render-update throttle t s numbered h = ground arith

render-quiet :
    (throttle : ℕ) (t : Tick) (s : ChatState)
    → is_update (render throttle t s) ≡ false
    → (render throttle t s).state ≡ s
unfolding render edit_or_send send_fresh
render-quiet throttle t s h = ground arith

updates-IsSpaced :
    (throttle : ℕ) (ticks : List Tick) (s : ChatState)
    → All IsNumbered ticks
    → have_message s ≡ true
    → IsSpaced throttle s.last_edit (updates throttle ticks s)
unfolding updates
updates-IsSpaced throttle [] s h k = tt
updates-IsSpaced throttle (t ∷ ticks) s h k =
    let up = render-update throttle t s h.0 in
    let same = render-quiet throttle t s in
    let rest = updates-IsSpaced throttle ticks (render throttle t s).state h.1 in
    elim (Bool-cases (is_update (render throttle t s))) [
      | inl changed ↦
          (let (due, shown, edited) = up changed in
            rw changed (
              due k,
              subst
                  (λ since.
                    IsSpaced throttle since (updates throttle ticks (render throttle t s).state))
                  edited (rest shown),
            ))
      | inr kept ↦ rw (kept, same kept) (updates-IsSpaced throttle ticks s h.1 k)
    ]

abbrev pub AllSpaced : ℕ → List ℕ → Type 0
AllSpaced throttle [] = Unit {0}
AllSpaced throttle (time ∷ times) = IsSpaced throttle time times

-- In any sequence of renderings that are not forced, and whatever the messenger replies and however long
-- it takes, two renderings that change a chat's status message are begun at least the throttle apart,
-- where the messenger names no message 0.
pub updates-AllSpaced :
    (throttle : ℕ) (ticks : List Tick) (s : ChatState)
    → All IsNumbered ticks
    → AllSpaced throttle (updates throttle ticks s)
unfolding updates
updates-AllSpaced throttle [] s h = tt
updates-AllSpaced throttle (t ∷ ticks) s h =
    let up = render-update throttle t s h.0 in
    let same = render-quiet throttle t s in
    let later = updates-IsSpaced throttle ticks (render throttle t s).state h.1 in
    elim (Bool-cases (is_update (render throttle t s))) [
      | inl changed ↦
          (let (due, shown, edited) = up changed in
            rw changed (
              subst
                (λ since.
                  IsSpaced throttle since (updates throttle ticks (render throttle t s).state))
                edited (later shown)))
      | inr kept ↦ rw (kept, same kept) (updates-AllSpaced throttle ticks s h.1)
    ]

-- What the messenger was asked to show, and where: the last call decides, and a fresh message has the
-- identifier that the messenger gave it.
abbrev pub shown : Tick → List Call → Option (MessageId × Bytes)
shown t [] = none
shown t (edit_html id html ∷ calls) = some (id, html)
shown t (send_html html ∷ calls) = elim t.sent [ ok id ↦ some (id, html) | err e ↦ none ]

-- A rendering that succeeds and calls the messenger asked it to show the HTML of the moment, in a message
-- that the chat's state names and with a text that it remembers; and that was new, where there was a
-- message before: where the messenger names no message 0.
pub render-shows :
    (throttle : ℕ) (t : Tick) (s : ChatState)
    → IsNumbered t
    → is_update (render throttle t s) ≡ true
    → let r = render throttle t s in
      (shown t r.calls ≡ some (r.state.status_message_id, t.html))
      × (have_message r.state ≡ true)
      × (r.state.last_rendered_html ≡ t.html)
      × ((have_message s ≡ false) ⊎ (bytes_eq t.html s.last_rendered_html ≡ false))
unfolding render edit_or_send send_fresh
render-shows throttle t s numbered h = ground arith
