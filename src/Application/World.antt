-- ===== src/Application/World.antt =====
-- What the use cases act on: the repository's contents, the registry of running tasks, and the calls
-- made so far of the other ports, latest first. The replies of these are an environment that may
-- answer every call in its own way, seeing all calls before it.
use cpp_mirror_leech_bot.Prelude.{ℕ, Bool, true, false, Option, List, ◌∷◌, Bytes}
use cpp_mirror_leech_bot.Core.Error.{AppError, ErrorCode, Result, ok, err, error}
use cpp_mirror_leech_bot.Domain.Identifiers.{ChatId, MessageId, UserId, Gid, TaskId}
use cpp_mirror_leech_bot.Domain.Task.{DownloaderKind, TimePoint, Task}
use cpp_mirror_leech_bot.Application.Ports.{TaskRepository}
use cpp_mirror_leech_bot.Application.Registry
use cpp_mirror_leech_bot.Application.Registry.{Registry}

-- A call of a port: the repository, a download backend, or the messenger.
pub data Call : Type 0 where
  find_task : TaskId → Call
  save_task : Task → Call
  list_incomplete : Call
  remove_download : DownloaderKind → Gid → Bool → Call
  pause_download : DownloaderKind → Gid → Call
  resume_download : DownloaderKind → Gid → Call
  send_html : ChatId → Bytes → Call
  edit_html : ChatId → MessageId → Bytes → Call
  get_settings : UserId → Call
  add_uri : DownloaderKind → Bytes → Call
  query_status : DownloaderKind → Gid → Call
  copy_drive : Bytes → Bytes → Call
  count_drive : Bytes → Call
  remove_drive : Bytes → Call

-- The replies, each decided by the calls so far; `show` is `fmt`'s `{}` for a number.
pub record Environment : Type 0 where
  pub fault : List Call → Option AppError
  pub backend : List Call → Result (Unit {0})
  pub sent : List Call → Result MessageId
  pub now : List Call → TimePoint
  pub show : ℕ → Bytes

module _ (repo : TaskRepository) where
  pub record World : Type 0 where
    pub store : repo.Store
    pub registry : Registry
    pub calls : List Call

  abbrev pub Action : Type 0 → Type 0
  Action A = World → Result A × World

  abbrev pub log : Call → World → World
  log c w = record w { calls = c ∷ w.calls }

module _ {repo : TaskRepository} where
  pub pure : {A : Type 0} → A → Action repo A
  pure a w = (ok a, w)

  -- `co_return error(code, message)`.
  pub raise : {A : Type 0} → ErrorCode → Bytes → Action repo A
  raise code message w = (error code message, w)

  pub lift : {A : Type 0} → Result A → Action repo A
  lift r w = (r, w)

  abbrev continue : {A B : Type 0} → Result A → (A → Action repo B) → Action repo B
  continue (ok a) f w = f a w
  continue (err e) f w = (err e, w)

  infixl 10 ◌>>=◌ ◌>>◌
  -- The next step where the one before gave a value. Opening this opens `pure`, `raise`, `lift`.
  unfoldable pub ◌>>=◌ : {A B : Type 0} → Action repo A → (A → Action repo B) → Action repo B
  unfolding pure raise lift
  ◌>>=◌ m f w = let (r, w') = m w in continue r f w'

  abbrev pub ◌>>◌ : {A B : Type 0} → Action repo A → Action repo B → Action repo B
  m >> n = m >>= λ _. n

  -- `if (!test) co_return error(code, message);`
  unfoldable pub require : Bool → ErrorCode → Bytes → Action repo (Unit {0})
  require true code message w = (ok tt, w)
  require false code message w = (error code message, w)

  -- The result of an action as a value, for a caller that goes on after an error.
  unfoldable pub attempt : {A : Type 0} → Action repo A → Action repo (Result A)
  attempt m w = let (r, w') = m w in (ok r, w')

  -- `(void)co_await …`: what was done stays done, and the result is not looked at.
  unfoldable pub ignore : {A : Type 0} → Action repo A → Action repo (Unit {0})
  ignore m w = (ok tt, (m w).1)

  module _ (env : Environment) where
    unfoldable pub find : TaskId → Action repo (Option Task)
    find id w =
        let calls = find_task id ∷ w.calls in
        (repo.find (env.fault calls) (env.now calls) id w.store, log repo (find_task id) w)

    unfoldable pub save : Task → Action repo (Unit {0})
    save t w =
        let calls = save_task t ∷ w.calls in
        let (store', r) = repo.save (env.fault calls) t w.store in
        (r, record w { store = store'; calls = calls })

    unfoldable pub incomplete : Action repo (List Task)
    incomplete w =
        let calls = list_incomplete ∷ w.calls in
        (repo.incomplete (env.fault calls) (env.now calls) w.store, log repo list_incomplete w)

    -- A call of a download backend.
    unfoldable pub backend : Call → Action repo (Unit {0})
    backend c w = (env.backend (c ∷ w.calls), log repo c w)

    unfoldable pub send : ChatId → Bytes → Action repo MessageId
    send chat html w = (env.sent (send_html chat html ∷ w.calls), log repo (send_html chat html) w)

    -- The clock, read between two calls.
    unfoldable pub time : Action repo TimePoint
    time w = (ok (env.now w.calls), w)

  -- `active_tasks_.cancel(id)`.
  unfoldable pub signal : TaskId → Action repo Bool
  signal id w =
      let (found, registry') = Registry.cancel id w.registry in
      (ok found, record w { registry = registry' })
