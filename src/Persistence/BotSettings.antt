-- ===== src/Persistence/BotSettings.antt =====
-- include/cmlb/infrastructure/persistence/bot_settings_repository.hpp and
-- src/infrastructure/persistence/sqlite_bot_settings_repository.cpp: the one row of the table
-- `bot_settings`. `nlohmann::json` is a parameter: how an array of numbers is printed, and what a text
-- is parsed to.
use cpp_mirror_leech_bot.Prelude.{
  ◌≡◌, refl, arith, map, Option, none, some, List, [], ◌∷◌, ◌++◌, Bytes, bytes,
}
use cpp_mirror_leech_bot.Prelude.Integers.{ℤ, pos}
use cpp_mirror_leech_bot.Core.Error.{
  AppError, Result, ok, err, error, deserialization, json_parse, ◌>>=◌,
}
use cpp_mirror_leech_bot.Domain.Task.{TimePoint}
use cpp_mirror_leech_bot.Application.Ports.{IsDated, whole_ms}
use cpp_mirror_leech_bot.Persistence.TimeCodec.{TimeCodec}

pub record BotSettingsRecord : Type 0 where
  pub owner_id : ℤ
  pub sudo_users : List ℤ
  pub authorized_chats : List ℤ
  pub download_dir : Bytes
  pub leech_split_size : ℤ
  pub upload_limit_bytes : ℤ
  pub status_update_interval : ℤ
  pub rss_poll_interval : ℤ
  pub updated_at : TimePoint

abbrev pub default_bot_settings : BotSettingsRecord
default_bot_settings = record {
  owner_id = pos 0;
  sudo_users = [];
  authorized_chats = [];
  download_dir = bytes "downloads";
  leech_split_size = pos 2000000000;
  upload_limit_bytes = pos 0;
  status_update_interval = pos 5000;
  rss_poll_interval = pos 60000;
  updated_at = pos 0;
}

pub record BotRow : Type 0 where
  pub owner_id : ℤ
  pub sudo_users : Bytes
  pub authorized_chats : Bytes
  pub download_dir : Bytes
  pub leech_split_size : ℤ
  pub upload_limit_bytes : ℤ
  pub status_update_interval_ms : ℤ
  pub rss_poll_interval_ms : ℤ
  pub updated_at : Bytes

-- An entry of an array: a 64-bit integer, or anything else.
pub data JsonEntry : Type 0 where
  integer : ℤ → JsonEntry
  other : JsonEntry

-- What a text is parsed to: an array, another value, or the message of the exception.
pub data JsonText : Type 0 where
  array : List JsonEntry → JsonText
  scalar : JsonText
  broken : Bytes → JsonText

pub record Json : Type 0 where
  pub dump : List ℤ → Bytes
  pub parse : Bytes → JsonText
  pub parse-dump : (ids : List ℤ) → parse (dump ids) ≡ array (map integer ids)

integers : List JsonEntry → Result (List ℤ)
unfolding bytes
integers [] = ok []
integers (other ∷ rest) =
    error deserialization (bytes "bot_settings ID array contains non-integer entry")
integers (integer n ∷ rest) = do ns ← integers rest; ok (n ∷ ns)

module _ (codec : TimeCodec) (json : Json) where
  decoded : Bytes → JsonText → Result (List ℤ)
  unfolding integers bytes
  decoded text (array entries) = integers entries
  decoded text scalar =
      error deserialization (bytes "bot_settings ID array is not a JSON array: " ++ text)
  decoded text (broken what) =
      error json_parse (bytes "bot_settings ID array parse failed: " ++ what)

  unfoldable pub decode_id_array : Bytes → Result (List ℤ)
  unfolding decoded
  decode_id_array text = decoded text (json.parse text)

  unfoldable pub row_of : BotSettingsRecord → BotRow
  row_of s = record {
    owner_id = s.owner_id;
    sudo_users = json.dump s.sudo_users;
    authorized_chats = json.dump s.authorized_chats;
    download_dir = s.download_dir;
    leech_split_size = s.leech_split_size;
    upload_limit_bytes = s.upload_limit_bytes;
    status_update_interval_ms = s.status_update_interval;
    rss_poll_interval_ms = s.rss_poll_interval;
    updated_at = codec.to_iso8601 s.updated_at;
  }

  unfoldable pub settings_of_row : BotRow → Result BotSettingsRecord
  settings_of_row r = do
    sudo ← decode_id_array r.sudo_users
    chats ← decode_id_array r.authorized_chats
    updated ← codec.parse_iso8601 r.updated_at
    ok (record {
      owner_id = r.owner_id;
      sudo_users = sudo;
      authorized_chats = chats;
      download_dir = r.download_dir;
      leech_split_size = r.leech_split_size;
      upload_limit_bytes = r.upload_limit_bytes;
      status_update_interval = r.status_update_interval_ms;
      rss_poll_interval = r.rss_poll_interval_ms;
      updated_at = updated;
    })

  -- Without a row, the defaults.
  unfoldable pub load : Option AppError → Option BotRow → Result BotSettingsRecord
  load (some e) row = err e
  load none none = ok default_bot_settings
  load none (some r) = settings_of_row r

  unfoldable pub save :
      Option AppError
      → TimePoint
      → BotSettingsRecord
      → Option BotRow
      → Option BotRow × Result (Unit {0})
  save (some e) now s row = (row, err e)
  save none now s row = (some (row_of (record s { updated_at = now })), ok tt)

  integers-map : (ids : List ℤ) → integers (map integer ids) ≡ ok ids
  unfolding integers
  integers-map [] = refl
  integers-map (n ∷ ids) = ground (arith, integers-map ids)

  decode-dump : (ids : List ℤ) → decode_id_array (json.dump ids) ≡ ok ids
  unfolding decode_id_array decoded
  decode-dump ids = ground (arith, json.parse-dump ids, integers-map ids)

  -- The settings that were saved are loaded, with the millisecond of the save.
  pub load-save :
      (now : TimePoint) (s : BotSettingsRecord) (row : Option BotRow)
      → IsDated now
      → load none (save none now s row).0 ≡ ok (record s { updated_at = whole_ms now })
  unfolding load save settings_of_row row_of
  load-save now s row dated =
      ground
        (arith, decode-dump s.sudo_users, decode-dump s.authorized_chats, codec.parse-to now dated)
