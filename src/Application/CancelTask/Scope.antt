-- ===== src/Application/CancelTask/Scope.antt =====
-- `/cancel` and `/cancelall` act on one chat only.
use cpp_mirror_leech_bot.Prelude.{
  ℕ, suc, ◌+◌, ◌≡◌, ◌≢◌, inl, inr, refl, Option, none, some, List, [], ◌∷◌, arith, if◌then◌else◌,
  All, Bool-cases,
}
use cpp_mirror_leech_bot.Prelude.Integers.{eq_ℤ, eq_ℤ_iff}
use cpp_mirror_leech_bot.Core.Error.{Result, ok, err}
use cpp_mirror_leech_bot.Domain.Identifiers.{ChatId, Gid}
use cpp_mirror_leech_bot.Domain.Task.{Task, DownloaderKind, is_terminal, mark_cancelled}
use cpp_mirror_leech_bot.Application.Ports.{TaskRepository}
use cpp_mirror_leech_bot.Application.World.{
  Environment, World, Call, save_task, send_html, edit_html, find, save, incomplete, signal, ignore,
  backend, send, time, ◌>>=◌,
}
use cpp_mirror_leech_bot.Application.Registry
use cpp_mirror_leech_bot.Application.CancelTask.Outcomes.{
  asked, execute_foreign, execute_ended, execute_running, execute_parked,
}
use cpp_mirror_leech_bot.Application.CancelTask.{
  CancelTaskRequest, CancelAllResult, release, teardown, acknowledge, execute, sweep_one, sweep,
  cancel_all,
}

-- A call that changes a task or shows something only in this chat.
abbrev pub InScope : ChatId → Call → Type 0
InScope chat (save_task t) = t.metadata.chat ≡ chat
InScope chat (send_html c html) = c ≡ chat
InScope chat (edit_html c message html) = c ≡ chat
InScope chat _ = Unit {0}

module _ {repo : TaskRepository} (env : Environment) where
  abbrev pub AllInScope : ChatId → World repo → Type 0
  AllInScope chat w = All (InScope chat) w.calls

  release-InScope :
      (chat : ChatId) (kind : DownloaderKind) (id : Option Gid) (w : World repo)
      → AllInScope chat w
      → AllInScope chat (release env kind id w).1
  unfolding release ignore backend ◌>>=◌
  release-InScope chat kind id w h = ground arith

  teardown-InScope :
      (request : CancelTaskRequest) (t : Task) (w : World repo)
      → t.metadata.chat ≡ request.chat
      → AllInScope request.chat w
      → AllInScope request.chat (teardown env request t w).1
  unfolding teardown ignore send time save mark_cancelled ◌>>=◌
  teardown-InScope request t w same h =
      ground (arith, release-InScope request.chat t.downloader_kind t.downloader_id w h)

  asked-InScope :
      (request : CancelTaskRequest) (w : World repo)
      → AllInScope request.chat w
      → AllInScope request.chat (asked env request w)
  unfolding signal find
  asked-InScope request w h = (tt, h)

  execute_unloaded :
      (request : CancelTaskRequest) (w : World repo)
      → ((t : Task) → (find env request.task_id w).0 ≢ ok (some t))
      → (execute env request w).1 ≡ (find env request.task_id w).1
  unfolding execute ◌>>=◌
  execute_unloaded request w h = by_lookup (find env request.task_id w).0 refl
    where
      by_lookup :
          (r : Result (Option Task))
          → (find env request.task_id w).0 ≡ r
          → (execute env request w).1 ≡ (find env request.task_id w).1
      by_lookup (err e) q = ground arith
      by_lookup (ok none) q = ground arith
      by_lookup (ok (some t)) q = absurd (h t q)

  loaded-InScope :
      (request : CancelTaskRequest) (w : World repo) (t : Task)
      → (find env request.task_id w).0 ≡ ok (some t)
      → AllInScope request.chat w
      → AllInScope request.chat (execute env request w).1
  unfolding acknowledge ignore send find
  loaded-InScope request w t q h = elim (Bool-cases (eq_ℤ t.metadata.chat request.chat)) [
    | inr other ↦ rw (execute_foreign env request w t q other) (tt, h)
    | inl same ↦ elim (Bool-cases (is_terminal t)) [
      | inl ended ↦ rw (execute_ended env request w t q same ended) (tt, h)
      | inr live ↦ elim (Bool-cases (Registry.cancel request.task_id w.registry).0) [
        | inl runs ↦
            rw (execute_running env request w t q same live runs) (refl, asked-InScope request w h)
        | inr parked ↦ rw (execute_parked env request w t q same live parked) (
            teardown-InScope request t (asked env request w)
              ((eq_ℤ_iff t.metadata.chat request.chat).0 same) (asked-InScope request w h))
      ]
    ]
  ]

  -- A cancellation saves no task of another chat and shows nothing there.
  pub execute-InScope :
      (request : CancelTaskRequest) (w : World repo)
      → AllInScope request.chat w
      → AllInScope request.chat (execute env request w).1
  unfolding find
  execute-InScope request w h = by_lookup (find env request.task_id w).0 refl
    where
      by_lookup :
          (r : Result (Option Task))
          → (find env request.task_id w).0 ≡ r
          → AllInScope request.chat (execute env request w).1
      by_lookup (ok (some t)) q = loaded-InScope request w t q h
      by_lookup (ok none) q = rw (execute_unloaded request w (λ t k. cc)) (tt, h)
      by_lookup (err e) q = rw (execute_unloaded request w (λ t k. cc)) (tt, h)

  sweep-InScope :
      (chat : ChatId) (tasks : List Task) (s : CancelAllResult × World repo)
      → AllInScope chat s.1
      → AllInScope chat (sweep env chat tasks s).1
  unfolding sweep sweep_one
  sweep-InScope chat [] s h = h
  sweep-InScope chat (t ∷ rest) s h =
      sweep-InScope chat rest (sweep_one env chat t s)
        (ground (arith, execute-InScope (record { task_id = t.metadata.id; chat = chat }) s.1 h))

  -- `/cancelall` in a chat saves no task of another chat and shows nothing there, whatever the
  -- repository lists and however the calls fail: where no call so far did, none does after it.
  pub cancel_all-InScope :
      (chat : ChatId) (w : World repo)
      → AllInScope chat w
      → AllInScope chat (cancel_all env chat w).1
  unfolding cancel_all incomplete ignore send ◌>>=◌
  cancel_all-InScope chat w h = by_list (incomplete env w).0 refl
    where
      by_list :
          (r : Result (List Task))
          → (incomplete env w).0 ≡ r
          → AllInScope chat (cancel_all env chat w).1
      by_list (ok tasks) q = ground (
        arith,
        sweep-InScope chat tasks (record { cancelled = 0; failed = 0 }, (incomplete env w).1)
            (tt, h),
      )
      by_list (err e) q = ground arith

-- How many tasks of the list are of the chat.
abbrev pub count_in : ChatId → List Task → ℕ
count_in chat [] = 0
count_in chat (t ∷ rest) =
    let n = count_in chat rest in if eq_ℤ t.metadata.chat chat then suc n else n

module _ {repo : TaskRepository} (env : Environment) where
  -- The sweep counts every task of the chat once, as cancelled or as failed, and no other task.
  pub sweep_counts :
      (chat : ChatId) (tasks : List Task) (s : CancelAllResult × World repo)
      → (sweep env chat tasks s).0.cancelled + (sweep env chat tasks s).0.failed
        ≡ s.0.cancelled + s.0.failed + count_in chat tasks
  unfolding sweep sweep_one
  sweep_counts chat [] s = omega arith
  sweep_counts chat (t ∷ rest) s = ground (arith, sweep_counts chat rest (sweep_one env chat t s))
