-- ===== src/Presentation/CommandDispatcher.antt =====
-- src/presentation/command_dispatcher.cpp: the commands, who may give them, and which use case each
-- asks for. A handler either refuses with a hint or calls a use case; what the use case answers is
-- the handler's result, and is not part of this model. `std::stoll` is a parameter.
pub mod Builtins
pub mod Access
use cpp_mirror_leech_bot.Prelude.{
  ℕ, Bool, true, false, ◌||◌, Option, none, some, List, [], ◌∷◌, ◌++◌, if◌then◌else◌, ◌==◌, leb,
  is_empty, Bytes, bytes, bytes_eq,
}
use cpp_mirror_leech_bot.Prelude.Integers.{ℤ}
use cpp_mirror_leech_bot.Core.Error.{AppError, ErrorCode, invalid_argument, permission_denied}
use cpp_mirror_leech_bot.Core.Truncate.{truncate_for_display}
use cpp_mirror_leech_bot.Domain.Identifiers.{UserId, ChatId, MessageId, TaskId}
use cpp_mirror_leech_bot.Domain.Authority.{
  Permission, anyone, user, admin, owner, Authority, can_run,
}
use cpp_mirror_leech_bot.Presentation.CommandParser.{CommandRequest}
use cpp_mirror_leech_bot.Presentation.HtmlRenderer.{render_notice, render_usage}
use Builtins.{
  Builtin, mirror, qbmirror, leech, qbleech, clone, count, del, cancel, cancelall, pause, resume,
  status, settings, botsettings, help, start_command, stats, version, ping, log, rss, Entry,
  commands, aliases, find_entry, resolve,
}

-- The requests, as the handlers fill them.
pub data Invocation : Type 0 where
  mirror_url leech_url :
      (url : Bytes) → UserId → ChatId → MessageId → (use_qbittorrent : Bool) → Invocation
  clone_resource count_resource delete_resource :
      (source_url : Bytes) → UserId → ChatId → Invocation
  cancel_task pause_task resume_task : TaskId → ChatId → Invocation
  cancel_all : ChatId → Invocation
  show_status : UserId → ChatId → Option TaskId → (include_all_users : Bool) → Invocation
  read_user_settings : UserId → ChatId → Invocation
  read_bot_settings show_help greet show_stats show_version answer_ping send_log :
      ChatId → Invocation
  rss_add : (url : Bytes) → ChatId → Invocation
  rss_list : ChatId → Invocation
  rss_remove : ℤ → UserId → ChatId → Invocation

pub data Handling : Type 0 where
  invokes : Invocation → Handling
  refuses : (html : Bytes) → AppError → Handling

-- " \t\r\n".
unfoldable pub is_blank : ℕ → Bool
is_blank c = c == b' ' || (c == 9 || (c == 13 || c == 10))

unfoldable pub skip_blank : Bytes → Bytes
skip_blank [] = []
skip_blank (c ∷ s) = if is_blank c then skip_blank s else c ∷ s

unfoldable pub token : Bytes → Bytes
token [] = []
token (c ∷ s) = let rest = token s in if is_blank c then [] else c ∷ rest

unfoldable pub past_token : Bytes → Bytes
past_token [] = []
past_token (c ∷ s) = if is_blank c then skip_blank s else past_token s

-- The first token and what follows it.
unfoldable pub split_first_token : Bytes → Bytes × Bytes
split_first_token text = (token (skip_blank text), past_token (skip_blank text))

abbrev refuse : Bytes → Bytes → Handling
refuse html message = refuses html (record { code = invalid_argument; message = message })

-- `require_arg`.
abbrev with_argument : CommandRequest → Bytes → Bytes → Bytes → Invocation → Handling
with_argument req command syntax message call =
    if is_empty req.arguments then refuse (render_usage command syntax) message else invokes call

-- The first token as a task's identifier.
abbrev with_task : CommandRequest → Bytes → Bytes → (TaskId → ChatId → Invocation) → Handling
with_task req command message call =
    let id = (split_first_token req.arguments).0 in
    if is_empty id
    then refuse (render_usage command (bytes "<task_id>")) message
    else invokes (call id req.chat)

abbrev with_feed_id : CommandRequest → Option ℤ → Handling
with_feed_id req none =
    refuse (render_notice (bytes "RSS Error") (bytes "Feed id must be a number."))
      (bytes "feed id is not a number")
with_feed_id req (some id) = invokes (rss_remove id req.sender req.chat)

module _ (stoll : Bytes → Option ℤ) where
  -- `/rss`.
  unfoldable pub handle_rss : CommandRequest → Handling
  unfolding split_first_token
  handle_rss req =
      let sub = (split_first_token req.arguments).0 in
      let tail = (split_first_token req.arguments).1 in
      let id = (split_first_token tail).0 in
      if bytes_eq sub (bytes "add")
      then (if is_empty tail
          then refuse (render_usage (bytes "rss add") (bytes "<url>"))
              (bytes "/rss add requires a url")
          else invokes (rss_add tail req.chat))
      else if bytes_eq sub (bytes "list")
      then invokes (rss_list req.chat)
      else if bytes_eq sub (bytes "remove")
          || (bytes_eq sub (bytes "delete") || bytes_eq sub (bytes "del"))
      then (if is_empty id
          then refuse (render_usage (bytes "rss remove") (bytes "<id>"))
              (bytes "/rss remove requires a feed id")
          else with_feed_id req (stoll id))
      else refuse (render_usage (bytes "rss") (bytes "add <url> | list | remove <id>"))
          (bytes "unknown rss subcommand")

  unfoldable pub handle : Authority → Builtin → CommandRequest → Handling
  unfolding split_first_token handle_rss
  handle a mirror req =
      with_argument req (bytes "mirror") (bytes "<url|magnet>") (bytes "/mirror requires a url")
        (mirror_url req.arguments req.sender req.chat req.source_message false)
  handle a qbmirror req =
      with_argument req (bytes "qbmirror") (bytes "<magnet|torrent_url>")
        (bytes "/qbmirror requires a magnet/url")
        (mirror_url req.arguments req.sender req.chat req.source_message true)
  handle a leech req =
      with_argument req (bytes "leech") (bytes "<url|magnet>") (bytes "/leech requires a url")
        (leech_url req.arguments req.sender req.chat req.source_message false)
  handle a qbleech req =
      with_argument req (bytes "qbleech") (bytes "<magnet|torrent_url>")
        (bytes "/qbleech requires a magnet/url")
        (leech_url req.arguments req.sender req.chat req.source_message true)
  handle a clone req =
      with_argument req (bytes "clone") (bytes "<drive_url>") (bytes "/clone requires a drive url")
        (clone_resource req.arguments req.sender req.chat)
  handle a count req =
      with_argument req (bytes "count") (bytes "<drive_url>") (bytes "/count requires a drive url")
        (count_resource req.arguments req.sender req.chat)
  handle a del req =
      with_argument req (bytes "del") (bytes "<drive_url>") (bytes "/del requires a drive url")
        (delete_resource req.arguments req.sender req.chat)
  handle a cancel req =
      with_task req (bytes "cancel") (bytes "/cancel requires a task id") cancel_task
  handle a cancelall req = invokes (cancel_all req.chat)
  handle a pause req = with_task req (bytes "pause") (bytes "/pause requires a task id") pause_task
  handle a resume req =
      with_task req (bytes "resume") (bytes "/resume requires a task id") resume_task
  handle a status req =
      let id = (split_first_token req.arguments).0 in
      invokes (
        show_status req.sender req.chat (if is_empty id then none else some id)
          (can_run a req.sender req.chat admin))
  handle a settings req = invokes (read_user_settings req.sender req.chat)
  handle a botsettings req = invokes (read_bot_settings req.chat)
  handle a help req = invokes (show_help req.chat)
  handle a start_command req = invokes (greet req.chat)
  handle a stats req = invokes (show_stats req.chat)
  handle a version req = invokes (show_version req.chat)
  handle a ping req = invokes (answer_ping req.chat)
  handle a log req = invokes (send_log req.chat)
  handle a rss req = handle_rss req

  abbrev required_label : Permission → Bytes
  required_label anyone = bytes "anyone"
  required_label user = bytes "authorized user"
  required_label admin = bytes "admin (sudo)"
  required_label owner = bytes "owner"

  abbrev dispatch_entry : Authority → CommandRequest → Bytes → Option Entry → Handling
  dispatch_entry a req name none =
      refuse
        (render_notice (bytes "Unknown Command") (
          bytes "/"
          ++ (truncate_for_display name 64
              ++ bytes " is not registered. Use /help to see available commands.")))
        (bytes "Unknown command: " ++ name)
  dispatch_entry a req name (some e) =
      if can_run a req.sender req.chat e.required
      then handle a e.handler req
      else refuses
          (render_notice (bytes "Permission Denied") (
            bytes "/"
            ++ (name ++ (bytes " requires " ++ (required_label e.required ++ bytes " access.")))))
          (record {
            code = permission_denied;
            message = bytes "Sender lacks permission for command: " ++ name;
          })

  unfoldable pub dispatch : Authority → CommandRequest → Handling
  unfolding handle
  dispatch a req =
      let name = resolve req.command aliases in dispatch_entry a req name (find_entry name commands)
