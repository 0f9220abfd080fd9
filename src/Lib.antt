-- ===== src/Lib.antt =====
-- The verification library of the Telegram mirror and leech bot: a model of its core in a shallow
-- embedding, with the theorems that make it correct.
--
-- The bot turns commands in a chat into tasks. A text becomes a request
-- (Presentation/CommandParser.antt, src/presentation/command_parser.cpp), the dispatcher checks
-- the sender's permission and calls a use case (Presentation/CommandDispatcher.antt,
-- src/presentation/command_dispatcher.cpp; Domain/Authority.antt, src/domain/authority.cpp), and
-- a mirror or a leech downloads, uploads and keeps its task in the repository.
--
-- Core: Core/Error.antt (include/cmlb/core/error.hpp, src/core/error.cpp), and Core/Escape.antt,
-- Core/Truncate.antt and Core/Duration.antt (src/core/formatting.cpp) over texts as lists of
-- bytes.
--
-- Domain: Domain/Task.antt is the aggregate of src/domain/task.cpp. Each method takes the time
-- that its `touch_` reads and returns the task with the result; Domain/Task/Machine.antt compares
-- them with the diagram of the lifecycle, Domain/Task/Runs.antt follows sequences of calls.
-- Domain/ByteSize.antt, Domain/UploadDestination.antt and Domain/Identifiers.antt are the headers
-- of these names in include/cmlb/domain.
--
-- Persistence: Persistence/TaskRepository.antt and its children are
-- src/infrastructure/persistence/sqlite_task_repository.cpp over a list of rows. SQLite's `ORDER
-- BY` is a parameter, and the codec of times is the interface Persistence/TimeCodec.antt, which
-- Persistence/TimeCodec/RoundTrip.antt fills, for times whose year has four digits.
-- Persistence/TaskRepository/Implements.antt fills the interface of Application/Ports.antt, over
-- which the use cases are proved.
--
-- Application: Application/Registry.antt is include/cmlb/application/active_task_registry.hpp,
-- with a shared flag as an address. Application/World.antt is what a use case sees: the
-- repository, the registry, the calls made so far, and an environment that may answer each call
-- in any way. Application/CancelTask.antt and Application/BackendControl.antt are
-- src/application/cancel_task.cpp, pause_task.cpp and resume_task.cpp as do blocks over it.
-- Application/Transfer.antt is the part of mirror_url.cpp and leech_url.cpp from the poll loop
-- on. The coroutine runs from one point where it waits or takes the lock to the next, and a
-- spawned upload may end between any two of these; the relation of
-- Application/Transfer/Steps.antt has both kinds of steps, so it covers every interleaving.
--
-- Presentation/ProgressRenderer.antt is src/presentation/progress_renderer.cpp: a rendering is a
-- function of the chat's state and of what the messenger replies.
--
-- What the rest of the bot does is beside this. Application/Launch.antt is the part of
-- mirror_url.cpp and leech_url.cpp before the poll loop. Application/ShowStatus.antt is
-- show_status.cpp, and Application/DriveResource.antt is clone_drive_resource.cpp,
-- count_drive_resource.cpp and delete_drive_resource.cpp. Persistence/RssFeeds.antt,
-- Persistence/UserSettings.antt and Persistence/BotSettings.antt are the other repositories
-- (sqlite_rss_feed_repository.cpp, sqlite_user_settings_repository.cpp,
-- sqlite_bot_settings_repository.cpp), Persistence/TimeCodec/Iso8601.antt is time_codec.hpp over
-- a calendar, and Persistence/SchemaMigrator.antt is schema_migrator.cpp with its SQL.
-- Rss/DocumentParser.antt and Rss/Poller.antt are src/infrastructure/rss,
-- Application/RssSubscription.antt and Application/UpdateSettings.antt the use cases over them,
-- and Presentation/CallbackDispatcher.antt is callback_dispatcher.cpp, where a button calls the
-- use cases above. Examples holds the theorems on concrete values.
--
-- Http/Url.antt, Http/ConnectionPool.antt and Http/Client.antt are
-- src/infrastructure/http/beast_http_client.cpp, over a transport that decides what each exchange
-- gives. Upload/GoogleDrive.antt and its children are google_drive_uploader.cpp: a drive is the
-- cached token and the requests sent, and an operation is a function of it
-- (Core/Action.antt). Upload/GoogleDrive/Plan.antt cuts a file into chunks,
-- Upload/GoogleDrive/Chunk.antt puts one of them, and Upload/GoogleDrive/Workers.antt is the pool
-- of workers that share the plan; a worker runs from one point where it waits to the next, and
-- Upload/GoogleDrive/Workers/Steps.antt takes these runs in any order.
-- Upload/GoogleDrive/Session.antt is the upload of a file over these, and
-- Upload/GoogleDrive/Directory.antt that of a directory, with a pool of files of the same kind in
-- Upload/GoogleDrive/Files.antt. Upload/GoogleDrive/Folder.antt and
-- Upload/GoogleDrive/Resource.antt are what the Drive use cases call.
--
-- Every function is total. Most are structural; three loops of the Drive uploader run on fuel and
-- answer none where it ends: the loop over the pages of a list, and those over the folders of a
-- copy and of a count. Fuel for each folder of a tree is enough for its count. The loop that cuts
-- a file has the size of the file and one more as fuel, which is always enough. The retries of a
-- chunk and the redirects of a request count down from their limit. The poll loop, which waits
-- for as long as a download lasts, is a relation of steps and not a function.
--
-- Not modelled: /stats, configuration, the connection pool of SQLite, sockets, subprocesses, the
-- clients of aria2, qBittorrent, TDLib and rclone, and of the Drive uploader the file of
-- credentials and the handlers of progress; log lines; numbers printed as floating point. A literal
-- of the source stands for its codes, which is exact for ASCII.
mod Prelude
pub mod Core
pub mod Domain
pub mod Persistence
pub mod Http
pub mod Upload
pub mod Rss
pub mod Application
pub mod Presentation
pub mod Examples
