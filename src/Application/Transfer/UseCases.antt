-- ===== src/Application/Transfer/UseCases.antt =====
-- `MirrorUrl::execute` and `LeechUrl::execute` from the poll loop on: the shared transfer with what is
-- particular to each. A leech keeps no results of its uploads, and never reads those kept here.
use cpp_mirror_leech_bot.Prelude.{ℕ, Bool, ◌++◌, Bytes, bytes}
use cpp_mirror_leech_bot.Core.Escape.{escape_html}
use cpp_mirror_leech_bot.Application.Transfer.{to_cloud, to_telegram, Transfer, Input, finish}
use cpp_mirror_leech_bot.Application.Transfer.Steps.{resume}

-- The announcement of the uploader, whose name is escaped.
unfoldable pub cloud_announcement : Bytes → Bytes
cloud_announcement name =
    bytes "<b><u>Uploading</u></b>\n<blockquote>Destination: "
    ++ (escape_html name ++ bytes "</blockquote>")

unfoldable pub telegram_announcement : Bytes
telegram_announcement =
    bytes "<b><u>Uploading</u></b>\n<blockquote>Destination: Telegram</blockquote>"

-- A step of the mirror: `pool` uploads at most, `pipelining` as the downloader allows, and the
-- uploader's name.
unfoldable pub mirror_step : ℕ → Bool → Bytes → Input → Transfer → Transfer
mirror_step pool pipelining name i c =
    resume
      (record {
        flavour = to_cloud;
        pool = pool;
        pipelining = pipelining;
        announcement = cloud_announcement name;
      })
      i c

-- A step of the leech.
unfoldable pub leech_step : ℕ → Bool → Input → Transfer → Transfer
leech_step pool pipelining i c =
    resume
      (record {
        flavour = to_telegram;
        pool = pool;
        pipelining = pipelining;
        announcement = telegram_announcement;
      })
      i c

unfoldable pub mirror_finish : Bytes → Input → Transfer → Transfer
mirror_finish name i c = finish to_cloud (cloud_announcement name) i c

unfoldable pub leech_finish : Input → Transfer → Transfer
leech_finish i c = finish to_telegram telegram_announcement i c
