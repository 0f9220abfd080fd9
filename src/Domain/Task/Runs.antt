-- ===== src/Domain/Task/Runs.antt =====
-- What holds of a task over every sequence of calls.
use cpp_mirror_leech_bot.Prelude.{
  ◌≡◌, ◌⊎◌, inl, inr, refl, ap, Bool, true, false, Option, none, some, List, [], ◌∷◌, arith,
  if◌then◌else◌,
}
use mathlib.Core.Path.{subst}
use cpp_mirror_leech_bot.Domain.Task.{
  TaskState, queued, downloading, processing, uploading, completed, failed, cancelled,
  no_downloader, TimePoint, TaskMetadata, Task, new, is_terminal_state, is_state,
}
use cpp_mirror_leech_bot.Domain.Task.Machine.{
  Method, start, call, Edge, picked_up, downloaded, direct, processed, delivered, broken, stopped,
  rebound, call-cases,
}

abbrev pub Calls : Type 0
Calls = List (Method × TimePoint)

-- The calls in turn; a caller goes on after a refusal.
unfoldable pub run : Calls → Task → Task
run [] t = t
run ((m, now) ∷ rest) t = run rest (call m now t).0

pub run_induction :
    (P : Task → Type 0)
    → ((m : Method) (now : TimePoint) (t : Task) → P t → P (call m now t).0)
    → (calls : Calls) (t : Task) → P t
    → P (run calls t)
unfolding run
run_induction P keep [] t h = h
run_induction P keep ((m, now) ∷ rest) t h =
    run_induction P keep rest (call m now t).0 (keep m now t h)

abbrev has_failed : TaskState → Bool
has_failed failed = true
has_failed _ = false

abbrev is_some {ℓ} : {A : Type ℓ} → Option A → Bool
is_some none = false
is_some (some a) = true

-- An error message stands exactly on a failed task, and a task with no identifier at a downloader
-- is bound to none.
pub record IsValid (t : Task) : Type 0 where
  pub message : is_some t.error_message ≡ has_failed t.state
  pub binding : is_some t.downloader_id ≡ false → t.downloader_kind ≡ no_downloader

pub new-IsValid : (metadata : TaskMetadata) → IsValid (new metadata)
unfolding new
new-IsValid metadata = ground arith

pub call-IsValid : (m : Method) (now : TimePoint) (t : Task) → IsValid t → IsValid (call m now t).0
unfolding call
call-IsValid start now t h = ground arith
call-IsValid _ now t h = ground arith

-- Whatever is called on a new task, in whatever order, an error message stands exactly on a failed
-- task, and a task without an identifier at a downloader is bound to none.
pub run-IsValid : (calls : Calls) (metadata : TaskMetadata) → IsValid (run calls (new metadata))
run-IsValid calls metadata =
    run_induction IsValid call-IsValid calls (new metadata) (new-IsValid metadata)

-- What a terminal task keeps.
abbrev pub KeepsEnd : Task → Task → Type 0
KeepsEnd t u = (u.state ≡ t.state) × (u.error_message ≡ t.error_message)

call-KeepsEnd :
    (t : Task) (m : Method) (now : TimePoint) (u : Task)
    → is_terminal_state t.state ≡ true
    → KeepsEnd t u
    → KeepsEnd t (call m now u).0
unfolding call
call-KeepsEnd t start now u h k = ground arith
call-KeepsEnd t _ now u h k = ground arith

-- No call changes the state or the message of a task that is completed, failed or cancelled.
pub terminal_absorbs :
    (calls : Calls) (t : Task) → is_terminal_state t.state ≡ true → KeepsEnd t (run calls t)
terminal_absorbs calls t h =
    run_induction (KeepsEnd t) (λ m now u. call-KeepsEnd t m now u h) calls t (refl, refl)

-- The states that a task enters, in order.
abbrev enter : TaskState → TaskState → List TaskState → List TaskState
enter s s' l = if is_state s s' then l else s' ∷ l

unfoldable pub visited : Calls → Task → List TaskState
visited [] t = []
visited ((m, now) ∷ rest) t = enter t.state (call m now t).0.state (visited rest (call m now t).0)

-- The ways from a state to `completed`.
abbrev pub Route : TaskState → List TaskState → Type 0
Route queued l =
    (l ≡ downloading ∷ uploading ∷ completed ∷ [])
    ⊎ (l ≡ downloading ∷ processing ∷ uploading ∷ completed ∷ [])
Route downloading l =
    (l ≡ uploading ∷ completed ∷ []) ⊎ (l ≡ processing ∷ uploading ∷ completed ∷ [])
Route processing l = l ≡ uploading ∷ completed ∷ []
Route uploading l = l ≡ completed ∷ []
Route completed l = l ≡ []
Route failed l = ⊥
Route cancelled l = ⊥

is_state_self : (s : TaskState) → is_state s s ≡ true
is_state_self s = ground arith

Route-enter :
    {m : Method} {s s' : TaskState} (l : List TaskState)
    → Edge m s s'
    → Route s' l
    → Route s (enter s s' l)
Route-enter l picked_up (inl h) = inl (ap (λ (k : List TaskState). downloading ∷ k) h)
Route-enter l picked_up (inr h) = inr (ap (λ (k : List TaskState). downloading ∷ k) h)
Route-enter l downloaded h = inr (ap (λ (k : List TaskState). processing ∷ k) h)
Route-enter l direct h = inl (ap (λ (k : List TaskState). uploading ∷ k) h)
Route-enter l processed h = ap (λ (k : List TaskState). uploading ∷ k) h
Route-enter l delivered h = ap (λ (k : List TaskState). completed ∷ k) h
Route-enter l (broken live) h = absurd h
Route-enter l (stopped live) h = absurd h
Route-enter {s = s} l rebound h = rw is_state_self h

Route-same : {s s' : TaskState} (l : List TaskState) → s' ≡ s → Route s' l → Route s (enter s s' l)
Route-same {s' = s'} l e h = subst (λ r. Route r (enter r s' l)) e (rw is_state_self h)

Route-visited :
    (calls : Calls) (t : Task) → (run calls t).state ≡ completed → Route t.state (visited calls t)
unfolding run visited
Route-visited [] t h = rw h refl
Route-visited ((m, now) ∷ rest) t h =
    let ih = Route-visited rest (call m now t).0 h in
    elim (call-cases m now t) [
      | inl e ↦ Route-enter (visited rest (call m now t).0) e ih
      | inr e ↦ Route-same (visited rest (call m now t).0) (ap (λ (u : Task). u.state) e) ih
    ]

-- A new task that is completed after a sequence of calls was downloaded, perhaps processed, and
-- uploaded, in this order, and entered no other state.
pub completed-Route :
    (calls : Calls) (metadata : TaskMetadata)
    → (run calls (new metadata)).state ≡ completed
    → Route queued (visited calls (new metadata))
unfolding new
completed-Route calls metadata h = Route-visited calls (new metadata) h
