-- ===== src/Examples/Drive.antt =====
-- A link to a file, and its identifier.
use cpp_mirror_leech_bot.Prelude.{◌≡◌, refl, bytes, starts_with}
use cpp_mirror_leech_bot.Application.DriveResource.{
  is_id_char, id_run, literal, file_lead, group_at, regex_search, folder_lead, query_lead,
  extract_drive_id,
}

file_id : extract_drive_id (bytes "https://drive/file/d/1aB_-9/view?id=2") ≡ bytes "1aB_-9"
unfolding extract_drive_id regex_search group_at file_lead folder_lead query_lead literal id_run
    is_id_char bytes starts_with
file_id = refl

query_id : extract_drive_id (bytes "https://drive/open?id=2cD&x=1") ≡ bytes "2cD"
unfolding extract_drive_id regex_search group_at file_lead folder_lead query_lead literal id_run
    is_id_char bytes starts_with
query_id = refl
