-- ===== src/Presentation/ProgressRenderer.antt =====
-- src/presentation/progress_renderer.cpp: the live status message of a chat. A chat's strand and its
-- token let one rendering run at a time, so each is one step; `busy` says that another one holds the
-- token. The HTML of the moment, the replies of the messenger, and the clock before and after
-- they are awaited are a `Tick`. Times of the steady clock count from its start.
pub mod Rate
use cpp_mirror_leech_bot.Prelude.{
  ℕ, ◌+◌, Bool, true, false, not, ◌&&◌, List, [], ◌∷◌, if◌then◌else◌, ltb, Bytes, bytes_eq,
}
use cpp_mirror_leech_bot.Prelude.Integers.{pos, eq_ℤ}
use cpp_mirror_leech_bot.Core.Error.{AppError, Result, ok, err}
use cpp_mirror_leech_bot.Domain.Identifiers.{MessageId}

-- `ChatState`; no message is the identifier 0.
pub record ChatState : Type 0 where
  pub status_message_id : MessageId
  pub last_edit : ℕ
  pub last_rendered_html : Bytes

abbrev pub new_chat : ChatState
new_chat = record { status_message_id = pos 0; last_edit = 0; last_rendered_html = [] }

pub record Tick : Type 0 where
  pub busy : Bool
  pub now : ℕ
  pub later : ℕ
  pub html : Bytes
  pub edited : Result (Unit {0})
  pub sent : Result MessageId

-- What the messenger was asked.
pub data Call : Type 0 where
  edit_html : MessageId → Bytes → Call
  send_html : Bytes → Call

pub record Rendering : Type 0 where
  pub result : Result (Unit {0})
  pub state : ChatState
  pub calls : List Call

abbrev quiet : ChatState → Rendering
quiet s = record { result = ok tt; state = s; calls = [] }

-- `status_message_id.value() != 0`.
abbrev pub have_message : ChatState → Bool
have_message s = not (eq_ℤ s.status_message_id (pos 0))

-- A fresh message, after the calls made so far, with the time that is kept of it.
unfoldable pub send_fresh : ℕ → Tick → ChatState → List Call → Result MessageId → Rendering
send_fresh edit t s calls (err e) = record {
  result = err e;
  state = s;
  calls = send_html t.html ∷ calls;
}
send_fresh edit t s calls (ok id) = record {
  result = ok tt;
  state = record { status_message_id = id; last_edit = edit; last_rendered_html = t.html };
  calls = send_html t.html ∷ calls;
}

-- The message edited, or replaced where it cannot be.
unfoldable pub edit_or_send : ℕ → Tick → ChatState → Result (Unit {0}) → Rendering
unfolding send_fresh
edit_or_send edit t s (ok done) = record {
  result = ok tt;
  state = record s { last_edit = edit; last_rendered_html = t.html };
  calls = edit_html s.status_message_id t.html ∷ [];
}
edit_or_send edit t s (err e) =
    send_fresh edit t s (edit_html s.status_message_id t.html ∷ []) t.sent

-- `do_render_impl`: dropped while another rendering runs, soon after the last one, and where nothing
-- is new.
unfoldable pub render : ℕ → Tick → ChatState → Rendering
unfolding send_fresh edit_or_send
render throttle t s =
    if t.busy
    then quiet s
    else if have_message s && ltb t.now (s.last_edit + throttle)
    then quiet s
    else if have_message s && bytes_eq t.html s.last_rendered_html
    then quiet s
    else if have_message s
    then edit_or_send t.now t s t.edited
    else send_fresh t.now t s [] t.sent

-- `do_force_refresh_impl`, which waits for the token and is not throttled. It keeps the time after the
-- messenger replied, and `do_render_impl` the one before it was called.
unfoldable pub force_refresh : Tick → ChatState → Rendering
unfolding send_fresh edit_or_send
force_refresh t s =
    if have_message s && bytes_eq t.html s.last_rendered_html
    then quiet (record s { last_edit = t.later })
    else if have_message s
    then edit_or_send t.later t s t.edited
    else send_fresh t.later t s [] t.sent
