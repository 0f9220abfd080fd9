-- ===== src/Examples/Cancel.antt =====
-- Cancellations in a world with one task in the table.
use cpp_mirror_leech_bot.Prelude.{
  ◌≡◌, refl, ap, ◌∙◌, true, false, none, some, [], ◌∷◌, arith, bytes_eq,
}
use cpp_mirror_leech_bot.Prelude.Integers.{pos}
use cpp_mirror_leech_bot.Core.Error.{Result, ok}
use cpp_mirror_leech_bot.Domain.Task.{Task, cancelled, is_terminal, mark_cancelled}
use cpp_mirror_leech_bot.Application.Ports.{TaskRepository, IsStorable}
use cpp_mirror_leech_bot.Application.Registry
use cpp_mirror_leech_bot.Application.Registry.{Registry, empty, slot, register_task}
use cpp_mirror_leech_bot.Application.World.{
  Environment, World, Call, find, ignore, backend, time, send, ◌>>=◌,
}
use cpp_mirror_leech_bot.Application.World
use cpp_mirror_leech_bot.Application.CancelTask.{
  CancelTaskRequest, release, teardown, execute, cancel_all,
}
use cpp_mirror_leech_bot.Application.CancelTask.Outcomes.{
  asked, execute_parked, Refusal, IsCancellable, execute_refused, execute_then_find,
}
use cpp_mirror_leech_bot.Application.CancelTask.Scope.{AllInScope, cancel_all-InScope}
use cpp_mirror_leech_bot.Persistence.TaskRepository.RoundTrip.{read_at}
use cpp_mirror_leech_bot.Persistence.TaskRepository.Store.{save, find-save_self}
use cpp_mirror_leech_bot.Persistence.TaskRepository.Implements.{sqlite_repository}
use cpp_mirror_leech_bot.Examples.Data.{plain_codec, first_id, bound_task, bound_task-IsStorable}

abbrev pub repo : TaskRepository
repo = sqlite_repository plain_codec (λ rows. rows)

-- Every call succeeds, at one time.
abbrev pub calm : Environment
calm = record {
  fault = λ calls. none;
  backend = λ calls. ok tt;
  sent = λ calls. ok (pos 1);
  now = λ calls. pos 90;
  show = λ n. n ∷ [];
}

abbrev pub parked : World repo
parked = record { store = (save plain_codec none bound_task []).0; registry = empty; calls = [] }

-- The same, while the task's coroutine runs.
abbrev running : World repo
running = record parked { registry = (register_task first_id empty).1 }

-- The task as it is read.
abbrev pub read_task : Task
read_task = read_at (pos 90) bound_task

read_task-IsStorable : IsStorable read_task
read_task-IsStorable = record {
  valid = record { message = refl; binding = λ h. cc };
  bound = λ h. cc;
  created = omega arith;
  updated = omega arith;
}

abbrev ours : CancelTaskRequest
ours = record { task_id = first_id; chat = pos 100 }

abbrev theirs : CancelTaskRequest
theirs = record { task_id = first_id; chat = pos 5 }

pub parked-find : (find calm first_id parked).0 ≡ ok (some read_task)
unfolding find
parked-find = find-save_self plain_codec bound_task [] (pos 90) bound_task-IsStorable

running-find : (find calm first_id running).0 ≡ ok (some read_task)
unfolding find
running-find = find-save_self plain_codec bound_task [] (pos 90) bound_task-IsStorable

refused : ¬ IsCancellable theirs (find calm first_id parked).0
unfolding find
refused = rw parked-find (λ h. ground (arith, h.0))

execute_refused_example :
    Refusal theirs (find calm first_id parked).0 (execute calm theirs parked).0
    × ((execute calm theirs parked).1 ≡ (find calm first_id parked).1)
execute_refused_example = execute_refused calm theirs parked refused

running-found : (Registry.cancel first_id running.registry).0 ≡ true
unfolding Registry.cancel slot bytes_eq register_task
running-found = refl

read_task-live : is_terminal read_task ≡ false
unfolding is_terminal
read_task-live = refl

parked-absent : (Registry.cancel first_id parked.registry).0 ≡ false
unfolding Registry.cancel slot
parked-absent = refl

teardown-success : (teardown calm ours read_task (asked calm ours parked)).0 ≡ ok tt
unfolding teardown release ignore backend time save send mark_cancelled is_terminal ◌>>=◌ World.save
teardown-success = refl

parked-success : (execute calm ours parked).0 ≡ ok tt
parked-success =
    ap (λ (p : Result (Unit {0}) × World repo). p.0)
      (execute_parked calm ours parked read_task parked-find refl read_task-live parked-absent)
    ∙ teardown-success

execute_then_find_example :
    (c : Task) × (repo.find none (pos 95) first_id (execute calm ours parked).1.store ≡ ok (some c))
    × (c.state ≡ cancelled)
execute_then_find_example =
    execute_then_find calm ours parked read_task parked-find refl read_task-live parked-absent refl
      read_task-IsStorable (λ calls. omega arith) parked-success (pos 95)

cancel_all-InScope_example : AllInScope calm (pos 100) (cancel_all calm (pos 100) parked).1
cancel_all-InScope_example = cancel_all-InScope calm (pos 100) parked tt
