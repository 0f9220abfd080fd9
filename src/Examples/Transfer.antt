-- ===== src/Examples/Transfer.antt =====
-- A mirror with room for one upload, whose download completes with two files at once.
use cpp_mirror_leech_bot.Prelude.{◌≡◌, refl, true, false, [], ◌∷◌, Bytes, bytes_eq}
use cpp_mirror_leech_bot.Prelude.Integers.{pos}
use cpp_mirror_leech_bot.Core.Error.{Result, ok}
use cpp_mirror_leech_bot.Domain.Task.{begin_upload, mark_completed}
use cpp_mirror_leech_bot.Application.Transfer.Status.{
  DownloadStatus, no_status, complete, UploadResult,
}
use cpp_mirror_leech_bot.Application.Transfer.Uploads.{
  is_queued, can_spawn_more, spawn_upload, finish_upload,
}
use cpp_mirror_leech_bot.Application.Transfer.{
  to_cloud, finished, Transfer, Input, start, poll, on_status, on_state, accept_status, feed,
  enter_upload, check, finish, succeed,
}
use cpp_mirror_leech_bot.Application.Transfer.Steps.{
  Setting, resume, resume_at, with_result, Reach, here, next, runs, upload_ends,
}
use cpp_mirror_leech_bot.Application.Transfer.Pool.{IsSound, Reach-IsSound}
use cpp_mirror_leech_bot.Application.Transfer.Ending.{IsEnded, Reach-IsEnded}
use cpp_mirror_leech_bot.Application.Transfer.Frozen.{is_feeding, Reach-queued}
use cpp_mirror_leech_bot.Application.Transfer.Settling.{IsSettling, uploads_end, settles}
use cpp_mirror_leech_bot.Domain.Identifiers.{TaskId}
use cpp_mirror_leech_bot.Examples.Data.{first_id, bound_task}

abbrev file_a : Bytes
file_a = b'a' ∷ []

abbrev file_b : Bytes
file_b = b'a' ∷ b'b' ∷ []

abbrev one_slot : Setting
one_slot = record { flavour = to_cloud; pool = 1; pipelining = true; announcement = [] }

abbrev uploaded : UploadResult
uploaded = record { file_id = b'f' ∷ []; link = []; size = pos 1; duration = pos 1 }

abbrev both_files : DownloadStatus
both_files = record no_status { state = complete; files = file_a ∷ file_b ∷ [] }

abbrev reply : Input
reply = record {
  now = pos 50;
  cancelled = false;
  status = ok both_files;
  directory = ok [];
  file = ok uploaded;
}

-- The first file is taken; there is no room for the second.
abbrev taken : Transfer
taken = resume one_slot reply (resume one_slot reply (resume one_slot reply (start bound_task)))

-- The upload ends while the coroutine waits.
abbrev delivered : Transfer
delivered = with_result (ok uploaded) (resume one_slot reply taken)

abbrev ended : Transfer
ended = resume one_slot reply (resume one_slot reply (resume one_slot reply delivered))

taken-Reach : Reach one_slot (start bound_task) taken
taken-Reach = next (next (next here (runs reply)) (runs reply)) (runs reply)

in_flight_one : (resume one_slot reply taken).pipeline.in_flight ≡ 1
unfolding resume resume_at start poll on_status on_state accept_status feed enter_upload
    spawn_upload is_queued can_spawn_more check begin_upload
in_flight_one = refl

after_taken : Reach one_slot taken ended
after_taken =
    next
      (next
        (next (next (next here (runs reply)) (upload_ends (ok uploaded) in_flight_one))
          (runs reply))
        (runs reply))
      (runs reply)

from_start : Reach one_slot (start bound_task) ended
from_start =
    next
      (next
        (next (next (next taken-Reach (runs reply)) (upload_ends (ok uploaded) in_flight_one))
          (runs reply))
        (runs reply))
      (runs reply)

ended-point : ended.point ≡ finished (ok first_id)
unfolding resume resume_at start poll on_status on_state accept_status feed enter_upload
    spawn_upload is_queued can_spawn_more check begin_upload finish_upload finish succeed
    mark_completed
ended-point = refl

taken_complete : taken.download_complete ≡ true
unfolding resume resume_at start poll on_status on_state accept_status feed enter_upload
    spawn_upload is_queued can_spawn_more check begin_upload
taken_complete = refl

taken-past : is_feeding taken.point ≡ false
unfolding resume resume_at start poll on_status on_state accept_status feed enter_upload
    spawn_upload is_queued can_spawn_more check begin_upload
taken-past = refl

Reach-IsSound_example : IsSound 1 ended.pipeline
Reach-IsSound_example = Reach-IsSound one_slot bound_task from_start

Reach-IsEnded_example : IsEnded (ok first_id) ended
Reach-IsEnded_example = Reach-IsEnded one_slot bound_task (ok first_id) refl from_start ended-point

-- The task is completed, and the second file was never queued.
second_file-dropped : is_queued file_b ended.pipeline.queued ≡ false
unfolding resume resume_at start poll on_status on_state accept_status feed enter_upload
    spawn_upload is_queued can_spawn_more check begin_upload finish_upload finish succeed
    mark_completed bytes_eq
second_file-dropped = refl

Reach-queued_example : ended.pipeline.queued ≡ taken.pipeline.queued
Reach-queued_example = Reach-queued one_slot taken taken_complete taken-past after_taken

taken-IsSettling : IsSettling taken.point taken.download_complete
unfolding resume resume_at start poll on_status on_state accept_status feed enter_upload
    spawn_upload is_queued can_spawn_more check begin_upload
taken-IsSettling = refl

settles_example :
    let d = resume one_slot reply (
      resume one_slot reply
        (resume one_slot reply (uploads_end (λ n. ok uploaded) taken.pipeline.in_flight taken))) in
    ((r : Result TaskId) × (d.point ≡ finished r)) × Reach one_slot taken d
settles_example = settles one_slot (λ n. ok uploaded) reply reply reply taken taken-IsSettling
