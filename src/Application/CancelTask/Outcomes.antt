-- ===== src/Application/CancelTask/Outcomes.antt =====
-- What `/cancel` does on each of its branches.
use cpp_mirror_leech_bot.Prelude.{
  ◌≡◌, ◌≢◌, inl, inr, refl, sym, ap, ◌∙◌, Bool-cases, true, false, Option, none, some, List, ◌∷◌,
  arith, bytes,
}
use cpp_mirror_leech_bot.Core.Error.{
  AppError, Result, ok, err, error, not_found, permission_denied, invalid_state,
}
use cpp_mirror_leech_bot.Prelude.Integers.{eq_ℤ, eq_ℤ_iff}
use cpp_mirror_leech_bot.Domain.Task.{
  Task, TimePoint, cancelled, is_terminal, mark_cancelled, DownloaderKind,
}
use cpp_mirror_leech_bot.Application.Ports.{TaskRepository, as_read, IsDated, IsStorable}
use cpp_mirror_leech_bot.Application.Registry
use cpp_mirror_leech_bot.Application.Registry.{Registry}
use cpp_mirror_leech_bot.Domain.Identifiers.{Gid, TaskId}
use cpp_mirror_leech_bot.Domain.Task.Runs.{IsValid, call-IsValid}
use cpp_mirror_leech_bot.Domain.Task.Machine.{call, cancel}
use cpp_mirror_leech_bot.Application.World.{
  Environment, World, find, save, signal, require, ignore, backend, send, time, ◌>>=◌, Call,
  save_task,
}
use cpp_mirror_leech_bot.Application.CancelTask.{
  CancelTaskRequest, execute, acknowledge, teardown, release,
}

module _ {repo : TaskRepository} (env : Environment) where
  release_lem :
      (kind : DownloaderKind) (id : Option Gid) (u : World repo)
      → ((release env kind id u).0 ≡ ok tt)
        × ((release env kind id u).1.store ≡ u.store)
        × ((release env kind id u).1.registry ≡ u.registry)
  unfolding release ignore backend ◌>>=◌
  release_lem kind id u = ground arith

  teardown_saves :
      (request : CancelTaskRequest) (t : Task) (u : World repo)
      → is_terminal t ≡ false
      → (calls : List Call) × (fault : Option AppError) × ((teardown env request t u).0
          ≡ (repo.save fault (mark_cancelled (env.now calls) t).0 u.store).1)
        × ((teardown env request t u).1.store
            ≡ (repo.save fault (mark_cancelled (env.now calls) t).0 u.store).0)
        × ((teardown env request t u).1.registry ≡ u.registry)
  unfolding teardown ignore send time save mark_cancelled ◌>>=◌
  teardown_saves request t u live =
      let (done, store, registry) = release_lem t.downloader_kind t.downloader_id u in
      let r = (release env t.downloader_kind t.downloader_id u).1 in
      let now = env.now r.calls in
      (
        r.calls,
        env.fault (save_task (mark_cancelled now t).0 ∷ r.calls),
        ground arith,
        ground arith,
        ground arith,
      )

module _ (repo : TaskRepository) where
  -- A save that succeeded is found again.
  saved_is_found :
      (fault : Option AppError) (c : Task) (s s' : repo.Store) (id : TaskId) (later : TimePoint)
      → (repo.save fault c s).1 ≡ ok tt
      → s' ≡ (repo.save fault c s).0
      → c.metadata.id ≡ id
      → IsStorable c
      → (x : Task) × (repo.find none later id s' ≡ ok (some x)) × (x.state ≡ c.state)
  saved_is_found none c s s' id later h es ei storable =
      let (time, e) = repo.find-save_self c s later storable in
      (as_read time c, rw (es, ← ei) e, refl)
  saved_is_found (some e) c s s' id later h es ei storable = cc (h, repo.save_fault e c s)

cancelled-IsValid : (now : TimePoint) (t : Task) → IsValid t → IsValid (mark_cancelled now t).0
unfolding call
cancelled-IsValid now t valid = call-IsValid cancel now t valid

module _ (now : TimePoint) (t : Task) where
  cancelled-IsStorable : IsDated now → IsStorable t → IsStorable (mark_cancelled now t).0
  unfolding mark_cancelled
  cancelled-IsStorable dated h = record {
    valid = cancelled-IsValid now t h.valid;
    bound = ground arith;
    created = ground arith;
    updated = ground arith;
  }

  mark_cancelled-id : (mark_cancelled now t).0.metadata.id ≡ t.metadata.id
  unfolding mark_cancelled
  mark_cancelled-id = ground arith

  mark_cancelled-state : is_terminal t ≡ false → (mark_cancelled now t).0.state ≡ cancelled
  unfolding mark_cancelled
  mark_cancelled-state h = ground arith

cancel_absent :
    (id : TaskId) (r : Registry) → (Registry.cancel id r).0 ≡ false → (Registry.cancel id r).1 ≡ r
unfolding Registry.cancel
cancel_absent id r h = ground arith

module _ {repo : TaskRepository} (env : Environment) (request : CancelTaskRequest)
    (w : World repo) where
  -- The world in which the coroutine's flag has been asked for.
  abbrev pub asked : World repo
  asked = (signal {repo = repo} request.task_id (find env request.task_id w).1).1

  module _ (t : Task) (loaded : (find env request.task_id w).0 ≡ ok (some t)) where
    pub execute_foreign :
        eq_ℤ t.metadata.chat request.chat ≡ false
        → execute env request w ≡ (
          error permission_denied (bytes "cancel: task belongs to a different chat"),
          (find env request.task_id w).1,
        )
    unfolding execute ◌>>=◌ require
    execute_foreign h = ground arith

    pub execute_ended :
        eq_ℤ t.metadata.chat request.chat ≡ true
        → is_terminal t ≡ true
        → execute env request w ≡ (
          error invalid_state (bytes "cancel: task already in a terminal state"),
          (find env request.task_id w).1,
        )
    unfolding execute ◌>>=◌ require
    execute_ended h k = ground arith

    pub execute_running :
        eq_ℤ t.metadata.chat request.chat ≡ true
        → is_terminal t ≡ false
        → (Registry.cancel request.task_id w.registry).0 ≡ true
        → execute env request w ≡ acknowledge env request asked
    unfolding execute ◌>>=◌ require signal find
    execute_running h k c = ground arith

    pub execute_parked :
        eq_ℤ t.metadata.chat request.chat ≡ true
        → is_terminal t ≡ false
        → (Registry.cancel request.task_id w.registry).0 ≡ false
        → execute env request w ≡ teardown env request t asked
    unfolding execute ◌>>=◌ require signal find
    execute_parked h k c = ground arith

    module _ (same : t.metadata.chat ≡ request.chat) (live : is_terminal t ≡ false) where
      same_chat : eq_ℤ t.metadata.chat request.chat ≡ true
      same_chat = (eq_ℤ_iff t.metadata.chat request.chat).1 same

      execute_saves :
          (Registry.cancel request.task_id w.registry).0 ≡ false
          → (calls : List Call) × (fault : Option AppError) × ((execute env request w).0
              ≡ (repo.save fault (mark_cancelled (env.now calls) t).0 w.store).1)
            × ((execute env request w).1.store
                ≡ (repo.save fault (mark_cancelled (env.now calls) t).0 w.store).0)
            × ((execute env request w).1.registry ≡ w.registry)
      unfolding signal find
      execute_saves parked =
          let (calls, fault, result, store, registry) = teardown_saves env request t asked live in
          let untouched = cancel_absent request.task_id w.registry parked in
          rw (execute_parked same_chat live parked)
            (calls, fault, result, store, registry ∙ untouched)

      -- Where a live task of the chat is found under the requested identifier, which is its own, no
      -- coroutine of it runs and the request succeeds, for a storable task and a clock that gives
      -- times that a row can hold, the task is saved as cancelled: a later lookup that does not fail
      -- finds it in that state.
      pub execute_then_find :
          (Registry.cancel request.task_id w.registry).0 ≡ false
          → t.metadata.id ≡ request.task_id
          → IsStorable t
          → ((calls : List Call) → IsDated (env.now calls))
          → (execute env request w).0 ≡ ok tt
          → (later : TimePoint)
          → (c : Task) × (repo.find none later request.task_id (execute env request w).1.store
              ≡ ok (some c))
            × (c.state ≡ cancelled)
      execute_then_find parked named storable dated success later =
          let (calls, fault, result, store, registry) = execute_saves parked in
          let now = env.now calls in
          let c = (mark_cancelled now t).0 in
          let (x, e, state) =
            saved_is_found repo fault c w.store (execute env request w).1.store request.task_id
              later (sym result ∙ success) store (mark_cancelled-id now t ∙ named)
              (cancelled-IsStorable now t (dated calls) storable) in
          (x, e, state ∙ mark_cancelled-state now t live)

-- What `/cancel` answers where it may not go on, by what the lookup gave.
abbrev pub Refusal : CancelTaskRequest → Result (Option Task) → Result (Unit {0}) → Type 0
Refusal request (err e) r = r ≡ err e
Refusal request (ok none) r = r ≡ error not_found (bytes "cancel: task not found")
Refusal request (ok (some t)) r =
    (t.metadata.chat ≢ request.chat
      → r ≡ error permission_denied (bytes "cancel: task belongs to a different chat"))
    × (t.metadata.chat ≡ request.chat
        → r ≡ error invalid_state (bytes "cancel: task already in a terminal state"))

-- The lookup gave a live task of the chat.
abbrev pub IsCancellable : CancelTaskRequest → Result (Option Task) → Type 0
IsCancellable request (err e) = ⊥
IsCancellable request (ok none) = ⊥
IsCancellable request (ok (some t)) = (t.metadata.chat ≡ request.chat) × (is_terminal t ≡ false)

module _ {repo : TaskRepository} (env : Environment) (request : CancelTaskRequest)
    (w : World repo) where
  refused_by :
      (r : Result (Unit {0}))
      → execute env request w ≡ (r, (find env request.task_id w).1)
      → ((execute env request w).0 ≡ r)
        × ((execute env request w).1 ≡ (find env request.task_id w).1)
  refused_by r e = (
    ap (λ (p : Result (Unit {0}) × World repo). p.0) e,
    ap (λ (p : Result (Unit {0}) × World repo). p.1) e,
  )

  execute_unread :
      (e : AppError)
      → (find env request.task_id w).0 ≡ err e
      → execute env request w ≡ (err e, (find env request.task_id w).1)
  unfolding execute ◌>>=◌
  execute_unread e bad = ground arith

  execute_absent :
      (find env request.task_id w).0 ≡ ok none
      → execute env request w
        ≡ (error not_found (bytes "cancel: task not found"), (find env request.task_id w).1)
  unfolding execute ◌>>=◌
  execute_absent gone = ground arith

  refused_at :
      (found : Result (Option Task))
      → (find env request.task_id w).0 ≡ found
      → ¬ IsCancellable request found
      → Refusal request found (execute env request w).0
        × ((execute env request w).1 ≡ (find env request.task_id w).1)
  refused_at (err e) given h = refused_by (err e) (execute_unread e given)
  refused_at (ok none) given h = refused_by _ (execute_absent given)
  refused_at (ok (some t)) given h = elim (Bool-cases (eq_ℤ t.metadata.chat request.chat)) [
    | inr other ↦
        let (error, world) = refused_by _ (execute_foreign env request w t given other) in
        let ne : t.metadata.chat ≢ request.chat =
          λ e. ground (arith, e, other, eq_ℤ_iff t.metadata.chat request.chat) in
        ((λ far. error, λ e. absurd (ne e)), world)
    | inl here ↦
        let same = (eq_ℤ_iff t.metadata.chat request.chat).0 here in
        elim (Bool-cases (is_terminal t)) [
          | inr live ↦ absurd (h (same, live))
          | inl ended ↦
              let (error, world) = refused_by _ (execute_ended env request w t given here ended) in
              ((λ far. absurd (far same), λ e. error), world)
        ]
  ]

  -- Unless a live task of the chat is found, `/cancel` does nothing but look it up: no flag is raised, no
  -- backend is called, nothing is sent or saved. Its error is that of the lookup, that there is no such
  -- task, that the task is of another chat, and only for a task of the chat that it has ended.
  pub execute_refused :
      ¬ IsCancellable request (find env request.task_id w).0
      → Refusal request (find env request.task_id w).0 (execute env request w).0
        × ((execute env request w).1 ≡ (find env request.task_id w).1)
  execute_refused h = refused_at (find env request.task_id w).0 refl h
