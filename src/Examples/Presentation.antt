-- ===== src/Examples/Presentation.antt =====
-- A command with its mention, and what it reaches.
use cpp_mirror_leech_bot.Prelude.{
  ◌≡◌, refl, Option, none, some, [], ◌∷◌, ◌++◌, Bytes, bytes, bytes_eq, is_space, to_lower,
}
use cpp_mirror_leech_bot.Prelude.Integers.{ℤ, pos}
use cpp_mirror_leech_bot.Domain.Authority.{Authority, can_run, contains}
use cpp_mirror_leech_bot.Domain.Authority.Laws.{Allowed}
use cpp_mirror_leech_bot.Presentation.CommandParser.{CommandRequest, to_lower_ascii, parse}
use cpp_mirror_leech_bot.Presentation.CommandParser.RoundTrip.{
  command_text, IsArguments, parse-command_text,
}
use cpp_mirror_leech_bot.Presentation.CommandDispatcher.{
  cancel_task, invokes, dispatch, token, skip_blank, is_blank,
}
use cpp_mirror_leech_bot.Presentation.CommandDispatcher.Builtins.{
  find_entry, commands, resolve, aliases,
}
use cpp_mirror_leech_bot.Presentation.CommandDispatcher.Access.{demands, dispatch-Allowed}

-- `Cancel`, and `t1`.
abbrev name : Bytes
name = b'C' ∷ b'a' ∷ b'n' ∷ b'c' ∷ b'e' ∷ b'l' ∷ []

abbrev argument : Bytes
argument = b't' ∷ b'1' ∷ []

argument-IsArguments : IsArguments argument
unfolding is_space
argument-IsArguments = record { present = refl; begins = refl; ends = refl }

abbrev typed : Bytes
typed = (b' ' ∷ []) ++ (command_text name (some (b'B' ∷ [])) argument ++ (b' ' ∷ []))

abbrev request : CommandRequest
request = record {
  command = to_lower_ascii name;
  arguments = argument;
  full_text = typed;
  sender = pos 7;
  chat = pos 100;
  source_message = pos 3;
}

parse-command_text_example : parse typed (pos 7) (pos 100) (pos 3) ≡ some request
unfolding is_space
parse-command_text_example =
    parse-command_text (b' ' ∷ []) (b' ' ∷ []) name (some (b'B' ∷ [])) argument (pos 7) (pos 100)
      (pos 3) (refl, tt) (refl, tt) refl
      (
        (refl, refl),
        ((refl, refl), ((refl, refl), ((refl, refl), ((refl, refl), ((refl, refl), tt))))),
      )
      (refl, tt) argument-IsArguments

abbrev bot : Authority
bot = record { owner_id = pos 1; sudo_users = []; authorized_chats = pos 100 ∷ [] }

abbrev no_number : Bytes → Option ℤ
no_number text = none

dispatched : dispatch no_number bot request ≡ invokes (cancel_task argument (pos 100))
unfolding dispatch find_entry commands bytes_eq bytes resolve aliases to_lower_ascii to_lower
    can_run contains token skip_blank is_blank
dispatched = refl

dispatch-Allowed_example : Allowed bot (pos 7) (pos 100) (demands (cancel_task argument (pos 100)))
dispatch-Allowed_example =
    dispatch-Allowed no_number bot request (cancel_task argument (pos 100)) dispatched
