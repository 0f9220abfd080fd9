-- ===== src/Domain/UploadDestination.antt =====
-- include/cmlb/domain/upload_destination.hpp: where a finished download goes.
use cpp_mirror_leech_bot.Prelude.{
  ◌≡◌, refl, Bool, false, ◌||◌, List, [], ◌∷◌, ◌++◌, map, if◌then◌else◌, Bytes, bytes, bytes_eq,
  to_lower,
}
use cpp_mirror_leech_bot.Core.Error.{Result, ok, error, invalid_argument}

pub data UploadDestination : Type 0 where
  telegram google_drive rclone : UploadDestination

unfoldable pub to_string : UploadDestination → Bytes
unfolding bytes
to_string telegram = bytes "telegram"
to_string google_drive = bytes "gdrive"
to_string rclone = bytes "rclone"

-- `std::ranges::find(aliases, lower) != aliases.end()`.
listed : List Bytes → Bytes → Bool
listed [] lower = false
listed (alias ∷ rest) lower = bytes_eq alias lower || listed rest lower

telegram_aliases : List Bytes
telegram_aliases = bytes "telegram" ∷ bytes "tg" ∷ bytes "leech" ∷ []

gdrive_aliases : List Bytes
gdrive_aliases = bytes "gdrive" ∷ bytes "googledrive" ∷ bytes "google_drive" ∷ bytes "drive" ∷ []

rclone_aliases : List Bytes
rclone_aliases = bytes "rclone" ∷ bytes "mirror" ∷ []

-- The searches of `parse_upload_destination`, on the input and its lower-cased form.
parse_lower : Bytes → Bytes → Result UploadDestination
unfolding listed bytes bytes_eq telegram_aliases gdrive_aliases rclone_aliases
parse_lower input lower =
    if listed telegram_aliases lower
    then ok telegram
    else if listed gdrive_aliases lower
    then ok google_drive
    else if listed rclone_aliases lower
    then ok rclone
    else error invalid_argument (bytes "Unknown upload destination: " ++ input)

unfoldable pub parse_upload_destination : Bytes → Result UploadDestination
unfolding parse_lower to_lower
parse_upload_destination input = parse_lower input (map to_lower input)

parse_lower-to_string :
    (d : UploadDestination) (input : Bytes) → parse_lower input (to_string d) ≡ ok d
unfolding parse_lower to_string
parse_lower-to_string telegram input = refl
parse_lower-to_string google_drive input = refl
parse_lower-to_string rclone input = refl

-- A printed destination is read back, in any mix of upper and lower case.
pub parse_upload_destination-to_string :
    (d : UploadDestination) (input : Bytes)
    → map to_lower input ≡ to_string d
    → parse_upload_destination input ≡ ok d
unfolding parse_upload_destination
parse_upload_destination-to_string d input h = rw h (parse_lower-to_string d input)
