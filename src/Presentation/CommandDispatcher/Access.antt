-- ===== src/Presentation/CommandDispatcher/Access.antt =====
-- Which use cases a sender reaches.
use cpp_mirror_leech_bot.Prelude.{
  ◌≡◌, inl, inr, refl, true, Option, none, some, List, [], ◌∷◌, bytes, Bytes, bytes_eq, arith, All,
  Bool-cases,
}
use mathlib.Core.Path.{subst}
use cpp_mirror_leech_bot.Prelude.Integers.{ℤ}
use cpp_mirror_leech_bot.Domain.Authority.{
  Permission, anyone, user, admin, owner, Authority, can_run,
}
use cpp_mirror_leech_bot.Domain.Authority.Laws.{Allowed, can_run_iff}
use cpp_mirror_leech_bot.Presentation.CommandParser.{CommandRequest}
use cpp_mirror_leech_bot.Presentation.CommandDispatcher.Builtins.{
  Builtin, del, cancelall, settings, botsettings, help, start_command, version, ping, log, rss,
  Entry, commands, aliases, find_entry, resolve,
}
use cpp_mirror_leech_bot.Presentation.CommandDispatcher.{
  Invocation, mirror_url, leech_url, clone_resource, count_resource, delete_resource, cancel_task,
  pause_task, resume_task, cancel_all, show_status, read_user_settings, read_bot_settings,
  show_help, greet, show_stats, show_version, answer_ping, send_log, rss_add, rss_list, rss_remove,
  invokes, with_feed_id, handle_rss, handle, dispatch_entry, dispatch,
}

-- What a use case demands, read off the use case and not off the table of commands.
abbrev pub demands : Invocation → Permission
demands (mirror_url url sender chat msg qb) = user
demands (leech_url url sender chat msg qb) = user
demands (clone_resource url sender chat) = user
demands (count_resource url sender chat) = user
demands (delete_resource url sender chat) = admin
demands (cancel_task id chat) = user
demands (pause_task id chat) = user
demands (resume_task id chat) = user
demands (cancel_all chat) = admin
demands (show_status sender chat id everyone) = user
demands (read_user_settings sender chat) = anyone
demands (read_bot_settings chat) = admin
demands (show_help chat) = anyone
demands (greet chat) = anyone
demands (show_stats chat) = user
demands (show_version chat) = anyone
demands (answer_ping chat) = anyone
demands (send_log chat) = owner
demands (rss_add url chat) = user
demands (rss_list chat) = user
demands (rss_remove id sender chat) = user

-- The demands of the handlers.
abbrev handler_demands : Builtin → Permission
handler_demands del = admin
handler_demands cancelall = admin
handler_demands botsettings = admin
handler_demands log = owner
handler_demands settings = anyone
handler_demands help = anyone
handler_demands start_command = anyone
handler_demands version = anyone
handler_demands ping = anyone
handler_demands _ = user

with_feed_id-demands :
    (req : CommandRequest) (o : Option ℤ) (i : Invocation)
    → with_feed_id req o ≡ invokes i
    → demands i ≡ user
with_feed_id-demands req none i h = ground arith
with_feed_id-demands req (some id) i h = ground arith

handle_rss-demands :
    (stoll : Bytes → Option ℤ) (req : CommandRequest) (i : Invocation)
    → handle_rss stoll req ≡ invokes i
    → demands i ≡ user
unfolding handle_rss
handle_rss-demands stoll req i h = ground arith

handle-demands :
    (stoll : Bytes → Option ℤ) (a : Authority) (b : Builtin) (req : CommandRequest) (i : Invocation)
    → handle stoll a b req ≡ invokes i
    → demands i ≡ handler_demands b
unfolding handle handle_rss
handle-demands stoll a rss req i h = handle_rss-demands stoll req i h
handle-demands stoll a _ req i h = ground arith

IsFair : Entry → Type 0
IsFair e = handler_demands e.handler ≡ e.required

find_entry-All :
    (P : Entry → Type 0) (name : Bytes) (entries : List Entry) (e : Entry)
    → All P entries
    → find_entry name entries ≡ some e
    → P e
unfolding find_entry
find_entry-All P name [] e h f = ground arith
find_entry-All P name (d ∷ entries) e h f = elim (Bool-cases (bytes_eq d.name name)) [
  | inl same ↦ subst P (ground arith) h.0
  | inr other ↦ find_entry-All P name entries e h.1 (ground arith)
]

commands-IsFair : All IsFair commands
unfolding commands IsFair
commands-IsFair = ground arith

dispatch_entry-demands :
    (stoll : Bytes → Option ℤ) (a : Authority) (req : CommandRequest) (name : Bytes)
    (o : Option Entry) (i : Invocation)
    → find_entry name commands ≡ o
    → dispatch_entry stoll a req name o ≡ invokes i
    → can_run a req.sender req.chat (demands i) ≡ true
unfolding IsFair
dispatch_entry-demands stoll a req name none i f h = ground arith
dispatch_entry-demands stoll a req name (some e) i f h =
    let fair = find_entry-All IsFair name commands e commands-IsFair f in
    let same = handle-demands stoll a e.handler req i in ground arith

-- Whatever the text of a command, the use case that it reaches is one that the access lists allow
-- its sender to run.
pub dispatch-Allowed :
    (stoll : Bytes → Option ℤ) (a : Authority) (req : CommandRequest) (i : Invocation)
    → dispatch stoll a req ≡ invokes i
    → Allowed a req.sender req.chat (demands i)
unfolding dispatch
dispatch-Allowed stoll a req i h = (can_run_iff a req.sender req.chat (demands i)).0 (
    dispatch_entry-demands stoll a req (resolve req.command aliases)
      (find_entry (resolve req.command aliases) commands) i refl h)

-- An alias stands for a registered command, and is no command itself.
IsAlias : Bytes × Bytes → Type 0
IsAlias a =
    (find_entry a.0 commands ≡ none)
    × ((e : Entry) × (find_entry (resolve a.0 aliases) commands ≡ some e))

aliases-IsAlias : All IsAlias aliases
unfolding aliases IsAlias commands find_entry resolve bytes bytes_eq
aliases-IsAlias =
    ((refl, (_, refl)), ((refl, (_, refl)), ((refl, (_, refl)), ((refl, (_, refl)), tt))))
