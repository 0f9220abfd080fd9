-- ===== src/Examples/Domain.antt =====
-- Permissions, sizes, destinations and the lifecycle of a task.
use cpp_mirror_leech_bot.Prelude.{◌≡◌, ◌↔◌, refl, [], ◌∷◌, Bytes, bytes}
use cpp_mirror_leech_bot.Prelude.Integers.{pos, negsuc}
use cpp_mirror_leech_bot.Core.Error.{ok, invalid_state, AppError}
use cpp_mirror_leech_bot.Domain.Authority.{Authority}
use cpp_mirror_leech_bot.Domain.ByteSize.{ByteSize}
use cpp_mirror_leech_bot.Domain.Task.{queued, uploading, downloading, new}
use cpp_mirror_leech_bot.Domain.Task.Machine.{
  start, upload, complete, cancel, call, Edge, call-iff-Edge,
}
use cpp_mirror_leech_bot.Domain.Task.Runs.{
  Calls, run, visited, IsValid, Route, run-IsValid, completed-Route,
}
use cpp_mirror_leech_bot.Examples.Data.{first_metadata, bound_task}

abbrev bot : Authority
bot = record { owner_id = pos 1; sudo_users = pos 2 ∷ []; authorized_chats = negsuc 99 ∷ [] }

abbrev large : ByteSize
large = record { count = 9223372036854775800 }

-- `GDrive`
abbrev shouted : Bytes
shouted = b'G' ∷ b'D' ∷ b'r' ∷ b'i' ∷ b'v' ∷ b'e' ∷ []

call-iff-Edge_example :
    (((call upload (pos 30) bound_task).1 ≡ ok tt)
      × ((call upload (pos 30) bound_task).0.state ≡ uploading))
    ↔ Edge upload downloading uploading
call-iff-Edge_example = call-iff-Edge upload (pos 30) bound_task uploading

abbrev refused_error : AppError
refused_error = record {
  code = invalid_state;
  message = bytes "Invalid task transition: Downloading -> Completed";
}

abbrev whole_run : Calls
whole_run =
    (start, pos 1) ∷ (complete, pos 2) ∷ (upload, pos 3) ∷ (complete, pos 4) ∷ (cancel, pos 5) ∷ []

run-IsValid_example : IsValid (run whole_run (new first_metadata))
run-IsValid_example = run-IsValid whole_run first_metadata

completed-Route_example : Route queued (visited whole_run (new first_metadata))
unfolding run call new
completed-Route_example = completed-Route whole_run first_metadata refl
