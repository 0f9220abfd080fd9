-- ===== src/Application/ShowStatus/Hidden.antt =====
-- What a requester may not see leaves no trace in the reply to `/status`.
use cpp_mirror_leech_bot.Prelude.{
  ◌≡◌, ◌≢◌, ◌⊎◌, refl, ap, inl, inr, false, arith, Bool-cases, Option, none, some, List, [], ◌∷◌,
  if◌then◌else◌,
}
use cpp_mirror_leech_bot.Prelude.Integers.{eq_ℤ_iff}
use cpp_mirror_leech_bot.Core.Error.{Result, ok}
use cpp_mirror_leech_bot.Domain.Identifiers.{TaskId}
use cpp_mirror_leech_bot.Domain.Task.{Task}
use cpp_mirror_leech_bot.Application.Ports.{TaskRepository}
use cpp_mirror_leech_bot.Application.Transfer.Status.{DownloadStatus}
use cpp_mirror_leech_bot.Application.World.{
  Environment, Action, World, Call, list_incomplete, incomplete, send, ◌>>=◌,
}
use cpp_mirror_leech_bot.Application.ShowStatus.{
  StatusRequest, Figures, visible_to_request, downloader_for, look, gather, gathered, post,
  show_one, show_all, execute,
}

-- What a requester may not see: a task of another chat, and one of another user unless all are asked for.
abbrev pub IsHidden : StatusRequest → Task → Type 0
IsHidden request t =
    (t.metadata.chat ≢ request.chat)
    ⊎ ((request.include_all_users ≡ false) × (t.metadata.user ≢ request.user))

-- Two lists that differ only in tasks that the requester may not see.
pub data SameSeen (request : StatusRequest) : List Task → List Task → Type 0 where
  nothing : SameSeen request [] []
  both :
      (t : Task) {ts us : List Task} → SameSeen request ts us → SameSeen request (t ∷ ts) (t ∷ us)
  only_left :
      {t : Task} {ts us : List Task}
      → IsHidden request t
      → SameSeen request ts us
      → SameSeen request (t ∷ ts) us
  only_right :
      {t : Task} {ts us : List Task}
      → IsHidden request t
      → SameSeen request ts us
      → SameSeen request ts (t ∷ us)

IsHidden-visible_to_request :
    (request : StatusRequest) (t : Task) → IsHidden request t → visible_to_request t request ≡ false
unfolding visible_to_request
IsHidden-visible_to_request request t (inl other) =
    ground (arith, other, eq_ℤ_iff t.metadata.chat request.chat)
IsHidden-visible_to_request request t (inr other) =
    ground (arith, other.0, other.1, eq_ℤ_iff t.metadata.user request.user)

-- The tasks that the code takes for visible, in order.
abbrev visible : StatusRequest → List Task → List Task
visible request [] = []
visible request (t ∷ rest) =
    let others = visible request rest in if visible_to_request t request then t ∷ others else others

SameSeen-visible :
    (request : StatusRequest) {ts us : List Task}
    → SameSeen request ts us
    → visible request ts ≡ visible request us
SameSeen-visible request nothing = refl
SameSeen-visible request (both t h) =
    ap (λ others. if visible_to_request t request then t ∷ others else others)
      (SameSeen-visible request h)
SameSeen-visible request (only_left {t = t} hidden h) =
    rw (IsHidden-visible_to_request request t hidden) (SameSeen-visible request h)
SameSeen-visible request (only_right {t = t} hidden h) =
    rw (IsHidden-visible_to_request request t hidden) (SameSeen-visible request h)

gather-visible :
    (report : List Call → Result DownloadStatus) (request : StatusRequest) (tasks : List Task)
    (calls : List Call)
    → gather report request tasks calls ≡ gather report request (visible request tasks) calls
unfolding gather
gather-visible report request [] calls = refl
gather-visible report request (t ∷ rest) calls = elim (Bool-cases (visible_to_request t request)) [
  | inl e ↦
      let calls' = (look report (downloader_for t.downloader_kind t.downloader_id) calls).1 in
      rw (e, gather-visible report request rest calls') (rw e refl)
  | inr e ↦ rw e (gather-visible report request rest calls)
]

module _ {repo : TaskRepository} (env : Environment) (figures : Figures)
    (report : List Call → Result DownloadStatus) where
  -- Without an identifier the list is shown.
  execute_listed :
      (request : StatusRequest) (w : World repo)
      → request.task_id ≡ none
      → execute env figures report request w ≡ show_all env figures report request w
  unfolding execute
  execute_listed request w listed =
      ap
        (λ (id : Option TaskId).
          (elim id as (λ x. Action repo (Unit {0})) [
            | none ↦ show_all env figures report request
            | some id ↦ show_one env figures report request id
          ])
            w)
        listed

  show_all-visible :
      (request : StatusRequest) (w : World repo) (s : repo.Store) (tasks tasks' : List Task)
      → (incomplete env w).0 ≡ ok tasks
      → (incomplete env (record w { store = s })).0 ≡ ok tasks'
      → visible request tasks ≡ visible request tasks'
      → ((show_all env figures report request w).0
          ≡ (show_all env figures report request (record w { store = s })).0)
        × ((show_all env figures report request w).1.calls
            ≡ (show_all env figures report request (record w { store = s })).1.calls)
  unfolding show_all gathered incomplete send post ◌>>=◌
  show_all-visible request w s tasks tasks' h h' same =
      let calls = list_incomplete ∷ w.calls in
      rw
        (
          h,
          h',
          gather-visible report request tasks calls,
          gather-visible report request tasks' calls,
          same,
        )
        (refl, refl)

  -- Two stores whose lists of incomplete tasks differ only in tasks of other chats, and of other users
  -- where the requester did not ask for all of them, give the same result of `/status` without an
  -- identifier and the same calls, the text that is sent among them.
  pub execute-visible :
      (request : StatusRequest) (w : World repo) (s : repo.Store) (tasks tasks' : List Task)
      → request.task_id ≡ none
      → (incomplete env w).0 ≡ ok tasks
      → (incomplete env (record w { store = s })).0 ≡ ok tasks'
      → SameSeen request tasks tasks'
      → ((execute env figures report request w).0
          ≡ (execute env figures report request (record w { store = s })).0)
        × ((execute env figures report request w).1.calls
            ≡ (execute env figures report request (record w { store = s })).1.calls)
  execute-visible request w s tasks tasks' listed h h' same =
      rw (execute_listed request w listed, execute_listed request (record w { store = s }) listed)
        (show_all-visible request w s tasks tasks' h h' (SameSeen-visible request same))
