-- ===== src/Examples/Progress.antt =====
-- Three renderings in one chat, the second too soon.
use cpp_mirror_leech_bot.Prelude.{
  ℕ, ◌+◌, some, ◌≡◌, ◌⊎◌, refl, true, false, List, [], ◌∷◌, bytes_eq,
}
use cpp_mirror_leech_bot.Prelude.Integers.{pos}
use cpp_mirror_leech_bot.Core.Error.{ok}
use cpp_mirror_leech_bot.Presentation.ProgressRenderer.{
  new_chat, Tick, have_message, send_fresh, edit_or_send, render,
}
use cpp_mirror_leech_bot.Presentation.ProgressRenderer.Rate.{
  is_update, shown, updates, AllSpaced, updates-AllSpaced, render-shows,
}

abbrev tick : ℕ → ℕ → Tick
tick now shown = record {
  busy = false;
  now = now;
  later = now + 1;
  html = shown ∷ [];
  edited = ok tt;
  sent = ok (pos 9);
}

abbrev three : List Tick
three = tick 10 1 ∷ tick 12 2 ∷ tick 15 3 ∷ []

-- The first and the third change the message.
three-updates : updates 5 three new_chat ≡ 10 ∷ 15 ∷ []
unfolding updates render send_fresh edit_or_send bytes_eq
three-updates = refl

updates-AllSpaced_example : AllSpaced 5 (updates 5 three new_chat)
updates-AllSpaced_example = updates-AllSpaced 5 three new_chat (refl, (refl, (refl, tt)))

first-changes : is_update (render 5 (tick 10 1) new_chat) ≡ true
unfolding render send_fresh edit_or_send
first-changes = refl

render-shows_example :
    (shown (tick 10 1) (render 5 (tick 10 1) new_chat).calls
      ≡ some ((render 5 (tick 10 1) new_chat).state.status_message_id, 1 ∷ []))
    × (have_message (render 5 (tick 10 1) new_chat).state ≡ true)
    × ((render 5 (tick 10 1) new_chat).state.last_rendered_html ≡ 1 ∷ [])
    × ((have_message new_chat ≡ false) ⊎ (bytes_eq (1 ∷ []) [] ≡ false))
render-shows_example = render-shows 5 (tick 10 1) new_chat refl first-changes
