-- ===== src/Examples/Control.antt =====
-- Pausing and resuming the task that aria2 downloads.
use cpp_mirror_leech_bot.Prelude.{◌≡◌, [], ◌∷◌, Bytes, arith}
use cpp_mirror_leech_bot.Prelude.Integers.{pos}
use cpp_mirror_leech_bot.Core.Error.{ok}
use cpp_mirror_leech_bot.Domain.Task.{is_terminal}
use cpp_mirror_leech_bot.Application.World.{
  World, Call, find_task, send_html, require, ignore, backend, send, ◌>>=◌,
}
use cpp_mirror_leech_bot.Application.BackendControl.{ControlRequest, pause, resume}
use cpp_mirror_leech_bot.Examples.Data.{first_id}
use cpp_mirror_leech_bot.Examples.Cancel.{calm, parked, parked-find, repo}

abbrev ours : ControlRequest
ours = record { task_id = first_id; chat = pos 100 }

abbrev theirs : ControlRequest
theirs = record { task_id = first_id; chat = pos 5 }

abbrev Asks : Call → Bytes → World repo → Type 0
Asks call html w = w.calls ≡ send_html (pos 100) html ∷ call ∷ find_task first_id ∷ []

pause_succeeds : (pause calm ours parked).0 ≡ ok tt
unfolding pause require ignore backend send ◌>>=◌ is_terminal
pause_succeeds = ground (arith, parked-find)

resume_succeeds : (resume calm ours parked).0 ≡ ok tt
unfolding resume require ignore backend send ◌>>=◌ is_terminal
resume_succeeds = ground (arith, parked-find)
