-- ===== src/Examples/Data.antt =====
-- A task, and a codec of times, that the examples share.
use cpp_mirror_leech_bot.Prelude.{◌+◌, ◌*◌, ◌/◌, ◌≡◌, refl, none, some, [], ◌∷◌, Bytes, arith}
use cpp_mirror_leech_bot.Prelude.Integers.{pos, negsuc}
use cpp_mirror_leech_bot.Core.Error.{Result, ok, error, deserialization}
use cpp_mirror_leech_bot.Domain.Task.{
  downloading, queued, mirror, aria2, no_downloader, TimePoint, TaskMetadata, Task,
}
use cpp_mirror_leech_bot.Application.Ports.{IsDated, whole_ms, IsStorable}
use cpp_mirror_leech_bot.Persistence.TimeCodec.{TimeCodec}

abbrev pub first_id : Bytes
first_id = b't' ∷ b'1' ∷ []

abbrev pub first_metadata : TaskMetadata
first_metadata = record {
  id = first_id;
  user = pos 7;
  chat = pos 100;
  status_message = pos 1;
  kind = mirror;
  source_url = b'u' ∷ [];
  created_at = pos 10000007;
  updated_at = pos 20000009;
}

-- A task that aria2 downloads.
abbrev pub bound_task : Task
bound_task = record {
  metadata = first_metadata;
  state = downloading;
  error_message = none;
  downloader_id = some (b'g' ∷ []);
  downloader_kind = aria2;
}

-- A task that waits.
abbrev pub waiting_task : Task
waiting_task = record {
  metadata = first_metadata;
  state = queued;
  error_message = none;
  downloader_id = none;
  downloader_kind = no_downloader;
}

pub bound_task-IsStorable : IsStorable bound_task
bound_task-IsStorable = record {
  valid = record { message = refl; binding = λ h. cc };
  bound = λ h. cc;
  created = omega arith;
  updated = omega arith;
}

-- A time as the sign and the size of its milliseconds.
unfoldable pub print_time : TimePoint → Bytes
print_time (pos n) = n / 1000000 ∷ []
print_time (negsuc n) = 0 ∷ n / 1000000 ∷ []

unfoldable pub read_time : Bytes → Result TimePoint
read_time (n ∷ []) = ok (pos (n * 1000000))
read_time (z ∷ n ∷ []) = ok (negsuc (n * 1000000 + 999999))
read_time _ = error deserialization []

pub read-print : (t : TimePoint) → IsDated t → read_time (print_time t) ≡ ok (whole_ms t)
unfolding read_time print_time
read-print (pos n) h = refl
read-print (negsuc n) h = refl

unfoldable pub plain_codec : TimeCodec
unfolding print_time read_time
plain_codec = record { to_iso8601 = print_time; parse_iso8601 = read_time; parse-to = read-print }
