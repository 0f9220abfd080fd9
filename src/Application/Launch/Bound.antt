-- ===== src/Application/Launch/Bound.antt =====
-- What a launch hands to the poll loop, and what it leaves of the registry when it fails.
use cpp_mirror_leech_bot.Prelude.{◌≡◌, none, some}
use cpp_mirror_leech_bot.Core.Error.{Result, ok, err}
use cpp_mirror_leech_bot.Domain.Identifiers.{TaskId, Gid}
use cpp_mirror_leech_bot.Domain.Task.{Task, TimePoint, queued, downloading, attach_downloader}
use cpp_mirror_leech_bot.Application.Ports.{TaskRepository}
use cpp_mirror_leech_bot.Application.Registry.{Registry, Guard, slot, destroy_guard}
use cpp_mirror_leech_bot.Application.World.{Environment, World}
use cpp_mirror_leech_bot.Application.Launch.{LaunchRequest, LaunchPorts, Launched, backend_of}

-- A task that the poll loop can start with: downloading, of the request, and bound to a download of its
-- backend.
pub record IsBoundTo (request : LaunchRequest) (t : Task) : Type 0 where
  pub state : t.state ≡ downloading
  pub message : t.error_message ≡ none
  pub chat : t.metadata.chat ≡ request.chat
  pub user : t.metadata.user ≡ request.user
  pub url : t.metadata.source_url ≡ request.url
  pub kind : t.downloader_kind ≡ backend_of request
  pub gid : Gid
  pub download : t.downloader_id ≡ some gid

-- A new task of the request.
pub record IsQueuedFor (request : LaunchRequest) (t : Task) : Type 0 where
  pub state : t.state ≡ queued
  pub message : t.error_message ≡ none
  pub chat : t.metadata.chat ≡ request.chat
  pub user : t.metadata.user ≡ request.user
  pub url : t.metadata.source_url ≡ request.url

module _ {repo : TaskRepository} (env : Environment) (ports : LaunchPorts) where
  -- What a step after the guard leaves: a bound task and the registry as it was, or an error and the guard
  -- destroyed.
  abbrev Settled : Guard → LaunchRequest → Task → World repo → Result Task × World repo → Type 0
  Settled guard request t w (ok b, w') =
      ((now : TimePoint) × (gid : Gid) × (b ≡ attach_downloader gid (backend_of request) now t))
      × (w'.registry ≡ w.registry)
  Settled guard request t w (err e, w') = w'.registry ≡ destroy_guard guard w.registry

  -- What a launch leaves: a task for the loop, whose entry holds the guard's flag; or an error, and the
  -- entries as they were.
  abbrev pub Outcome : LaunchRequest → Registry → Result Launched × World repo → Type 0
  Outcome request r (ok l, w') =
      IsBoundTo request l.task × (slot l.task.metadata.id w'.registry.map ≡ some l.guard.flag)
  Outcome request r (err e, w') = (j : TaskId) → slot j w'.registry.map ≡ slot j r.map
