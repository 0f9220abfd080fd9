-- ===== src/Presentation/CommandDispatcher/Builtins.antt =====
-- The commands and aliases that `register_builtins_` of src/presentation/command_dispatcher.cpp
-- installs, with what each demands of the sender.
use cpp_mirror_leech_bot.Prelude.{
  Option, none, some, List, [], ◌∷◌, if◌then◌else◌, Bytes, bytes, bytes_eq,
}
use cpp_mirror_leech_bot.Domain.Authority.{Permission, anyone, user, admin, owner}

pub data Builtin : Type 0 where
  mirror qbmirror leech qbleech clone count del cancel cancelall pause resume status : Builtin
  settings botsettings help start_command stats version ping log rss : Builtin

pub record Entry : Type 0 where
  pub name : Bytes
  pub required : Permission
  pub handler : Builtin

abbrev entry : Bytes → Permission → Builtin → Entry
entry name required handler = record { name = name; required = required; handler = handler }

-- `commands_`.
unfoldable pub commands : List Entry
commands =
    entry (bytes "mirror") user mirror
    ∷ entry (bytes "qbmirror") user qbmirror
    ∷ entry (bytes "leech") user leech
    ∷ entry (bytes "qbleech") user qbleech
    ∷ entry (bytes "clone") user clone
    ∷ entry (bytes "count") user count
    ∷ entry (bytes "del") admin del
    ∷ entry (bytes "cancel") user cancel
    ∷ entry (bytes "cancelall") admin cancelall
    ∷ entry (bytes "pause") user pause
    ∷ entry (bytes "resume") user resume
    ∷ entry (bytes "status") user status
    ∷ entry (bytes "settings") anyone settings
    ∷ entry (bytes "botsettings") admin botsettings
    ∷ entry (bytes "help") anyone help
    ∷ entry (bytes "start") anyone start_command
    ∷ entry (bytes "stats") user stats
    ∷ entry (bytes "version") anyone version
    ∷ entry (bytes "ping") anyone ping
    ∷ entry (bytes "log") owner log
    ∷ entry (bytes "rss") user rss
    ∷ []

-- `aliases_`.
unfoldable pub aliases : List (Bytes × Bytes)
aliases =
    (bytes "m", bytes "mirror")
    ∷ (bytes "qm", bytes "qbmirror")
    ∷ (bytes "l", bytes "leech")
    ∷ (bytes "ql", bytes "qbleech")
    ∷ []

-- `commands_.find(name)`.
unfoldable pub find_entry : Bytes → List Entry → Option Entry
find_entry name [] = none
find_entry name (e ∷ entries) = if bytes_eq e.name name then some e else find_entry name entries

-- The alias's command, and any other name itself.
unfoldable pub resolve : Bytes → List (Bytes × Bytes) → Bytes
resolve name [] = name
resolve name ((alias, canonical) ∷ rest) =
    if bytes_eq alias name then canonical else resolve name rest
