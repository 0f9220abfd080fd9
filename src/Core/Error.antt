-- ===== src/Core/Error.antt =====
-- include/cmlb/core/error.hpp, src/core/error.cpp: the error codes and the result type of every
-- fallible operation. The source location that an `AppError` carries only reaches the log, and is
-- left out.
use cpp_mirror_leech_bot.Prelude.{◌≡◌, refl, ap, ◌⊎◌, inl, inr, Bytes, bytes}

pub data ErrorCode : Type 0 where
  no_error invalid_argument invalid_configuration invalid_state not_found already_exists : ErrorCode
  permission_denied unauthenticated cancelled_error deadline_exceeded resource_exhausted : ErrorCode
  quota_exceeded network_error timeout_error io_error file_system serialization : ErrorCode
  deserialization json_parse telegram_api aria2_rpc qbittorrent_api google_drive_api : ErrorCode
  rclone_invocation database_error migration_error subprocess_failed media_processing : ErrorCode
  archive_processing internal_error unknown_error : ErrorCode

pub record AppError : Type 0 where
  pub code : ErrorCode
  pub message : Bytes

-- `std::expected<T, AppError>`.
pub data Result {ℓ} (A : Type ℓ) : Type ℓ where
  ok : A → Result A
  err : AppError → Result A

-- `cmlb::core::error(code, message)`.
abbrev pub error {ℓ} : {A : Type ℓ} → ErrorCode → Bytes → Result A
error code message = err (record { code = code; message = message })

pub Result-cases {ℓ} :
    {A : Type ℓ} (r : Result A) → ((a : A) × (r ≡ ok a)) ⊎ ((e : AppError) × (r ≡ err e))
Result-cases (ok a) = inl (a, refl)
Result-cases (err e) = inr (e, refl)

pub ok_injective {ℓ} : {A : Type ℓ} {a b : A} → ok a ≡ ok b → a ≡ b
ok_injective {a = a} h = ap (λ r. elim r [ ok x ↦ x | err e ↦ a ]) h

-- Going on only where the step before gave a value: `if (!r) return std::unexpected(r.error());`.
infixl 5 ◌>>=◌
abbrev pub ◌>>=◌ {ℓ κ} : {A : Type ℓ} {B : Type κ} → Result A → (A → Result B) → Result B
err e >>= k = err e
ok a >>= k = k a

unfoldable pub error_code_name : ErrorCode → Bytes
unfolding bytes
error_code_name no_error = bytes "None"
error_code_name invalid_argument = bytes "InvalidArgument"
error_code_name invalid_configuration = bytes "InvalidConfiguration"
error_code_name invalid_state = bytes "InvalidState"
error_code_name not_found = bytes "NotFound"
error_code_name already_exists = bytes "AlreadyExists"
error_code_name permission_denied = bytes "PermissionDenied"
error_code_name unauthenticated = bytes "Unauthenticated"
error_code_name cancelled_error = bytes "Cancelled"
error_code_name deadline_exceeded = bytes "DeadlineExceeded"
error_code_name resource_exhausted = bytes "ResourceExhausted"
error_code_name quota_exceeded = bytes "QuotaExceeded"
error_code_name network_error = bytes "Network"
error_code_name timeout_error = bytes "Timeout"
error_code_name io_error = bytes "Io"
error_code_name file_system = bytes "FileSystem"
error_code_name serialization = bytes "Serialization"
error_code_name deserialization = bytes "Deserialization"
error_code_name json_parse = bytes "JsonParse"
error_code_name telegram_api = bytes "TelegramApi"
error_code_name aria2_rpc = bytes "Aria2Rpc"
error_code_name qbittorrent_api = bytes "QbittorrentApi"
error_code_name google_drive_api = bytes "GoogleDriveApi"
error_code_name rclone_invocation = bytes "RcloneInvocation"
error_code_name database_error = bytes "Database"
error_code_name migration_error = bytes "Migration"
error_code_name subprocess_failed = bytes "SubprocessFailed"
error_code_name media_processing = bytes "MediaProcessing"
error_code_name archive_processing = bytes "ArchiveProcessing"
error_code_name internal_error = bytes "Internal"
error_code_name unknown_error = bytes "Unknown"

-- `friendly_error_label` of src/core/formatting.cpp.
unfoldable pub friendly_error_label : ErrorCode → Bytes
unfolding bytes
friendly_error_label no_error = bytes "OK"
friendly_error_label invalid_argument = bytes "Invalid argument"
friendly_error_label invalid_configuration = bytes "Invalid configuration"
friendly_error_label invalid_state = bytes "Invalid state"
friendly_error_label not_found = bytes "Not found"
friendly_error_label already_exists = bytes "Already exists"
friendly_error_label permission_denied = bytes "Permission denied"
friendly_error_label unauthenticated = bytes "Authentication required"
friendly_error_label cancelled_error = bytes "Cancelled"
friendly_error_label deadline_exceeded = bytes "Deadline exceeded"
friendly_error_label resource_exhausted = bytes "Resource exhausted"
friendly_error_label quota_exceeded = bytes "Quota exceeded"
friendly_error_label network_error = bytes "Network error"
friendly_error_label timeout_error = bytes "Timed out"
friendly_error_label io_error = bytes "I/O error"
friendly_error_label file_system = bytes "Filesystem error"
friendly_error_label serialization = bytes "Serialization failed"
friendly_error_label deserialization = bytes "Deserialization failed"
friendly_error_label json_parse = bytes "Invalid JSON"
friendly_error_label telegram_api = bytes "Telegram error"
friendly_error_label aria2_rpc = bytes "aria2 error"
friendly_error_label qbittorrent_api = bytes "qBittorrent error"
friendly_error_label google_drive_api = bytes "Google Drive error"
friendly_error_label rclone_invocation = bytes "rclone error"
friendly_error_label database_error = bytes "Database error"
friendly_error_label migration_error = bytes "Schema migration failed"
friendly_error_label subprocess_failed = bytes "Helper process failed"
friendly_error_label media_processing = bytes "Media processing failed"
friendly_error_label archive_processing = bytes "Archive processing failed"
friendly_error_label internal_error = bytes "Internal error"
friendly_error_label unknown_error = bytes "Error"
