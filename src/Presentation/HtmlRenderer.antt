-- ===== src/Presentation/HtmlRenderer.antt =====
-- The helpers of src/presentation/html_renderer.cpp that the answers to commands are made of.
use cpp_mirror_leech_bot.Prelude.{[], ◌∷◌, ◌++◌, if◌then◌else◌, ◌==◌, is_empty, Bytes, bytes}
use cpp_mirror_leech_bot.Prelude.{Option, none, some}
use cpp_mirror_leech_bot.Prelude.Integers.{ℤ}
use cpp_mirror_leech_bot.Core.Escape.{escape_html}
use cpp_mirror_leech_bot.Domain.UploadDestination.{to_string}
use cpp_mirror_leech_bot.Persistence.UserSettings.{UserSettingsRecord}

unfoldable pub render_heading : Bytes → Bytes
render_heading text = bytes "<b><u>" ++ (escape_html text ++ bytes "</u></b>")

unfoldable pub render_code : Bytes → Bytes
render_code text = bytes "<code>" ++ (escape_html text ++ bytes "</code>")

unfoldable pub render_quote : Bytes → Bytes
render_quote text = bytes "<blockquote>" ++ (escape_html text ++ bytes "</blockquote>")

-- A leading slash is dropped.
abbrev normalized : Bytes → Bytes
normalized [] = []
normalized (c ∷ command) = if c == b'/' then command else c ∷ command

unfoldable pub render_usage : Bytes → Bytes → Bytes
unfolding render_heading render_code
render_usage command syntax =
    render_heading (bytes "Usage")
    ++ (bytes "\n" ++ render_code (bytes "/" ++ (normalized command ++ (bytes " " ++ syntax))))

unfoldable pub render_notice : Bytes → Bytes → Bytes
unfolding render_heading render_quote
render_notice title detail =
    if is_empty detail
    then render_heading title
    else render_heading title ++ (bytes "\n" ++ render_quote detail)

abbrev or_none : Option Bytes → Bytes
or_none none = bytes "(none)"
or_none (some text) = text

-- `show` is `fmt`'s `{}` for a number. The optional texts are not escaped.
unfoldable pub render_user_settings : (ℤ → Bytes) → UserSettingsRecord → Bytes
unfolding render_heading render_quote
render_user_settings show s =
    render_heading (bytes "User Settings")
    ++ bytes "\n"
    ++ render_quote (bytes "Personal defaults used for new mirror and leech tasks.")
    ++ bytes "\n<b>User id:</b> <code>"
    ++ show s.user_id
    ++ bytes "</code>\n<b>Leech destination:</b> <code>"
    ++ to_string s.leech_destination
    ++ bytes "</code>\n<b>Mirror destination:</b> <code>"
    ++ to_string s.mirror_destination
    ++ bytes "</code>\n<b>Upload as document:</b> <code>"
    ++ (if s.upload_as_document then bytes "yes" else bytes "no")
    ++ bytes "</code>\n<b>Rclone remote:</b> <code>"
    ++ or_none s.rclone_remote
    ++ bytes "</code>\n<b>GDrive folder id:</b> <code>"
    ++ or_none s.gdrive_folder_id
    ++ bytes "</code>\n<b>Default thumbnail:</b> <code>"
    ++ or_none s.default_thumb_path
    ++ bytes "</code>"
