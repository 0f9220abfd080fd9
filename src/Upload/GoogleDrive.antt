-- ===== src/Upload/GoogleDrive.antt =====
-- src/infrastructure/upload/google_drive_uploader.cpp: the requests to Google Drive and the access token.
-- The service is what answers, decided by the requests so far: the replies, the clock in milliseconds,
-- and OpenSSL's base 64 and signature. A failure in loading the credentials leaves the uploader not
-- ready. Log lines are left out.
use cpp_mirror_leech_bot.Prelude.{
  ℕ, ◌+◌, ◌-◌, ◌*◌, ◌/◌, ◌%◌, ◌⊎◌, Bool, true, false, not, ◌&&◌, ◌||◌, ◌==◌, leb, ltb, Option, none,
  some, inl, inr, List, [], ◌∷◌, ◌++◌, if◌then◌else◌, is_empty, Bytes, bytes, suc,
}
use cpp_mirror_leech_bot.Prelude.Integers.{ℤ, pos, negsuc, plus}
use cpp_mirror_leech_bot.Prelude.Order.{lt_ℤ}
use cpp_mirror_leech_bot.Core.Action.{Action, pure, raise, lift, ◌>>=◌, ◌>>◌, require}
use cpp_mirror_leech_bot.Core.Error.{Result, ok, err, error, json_parse, unauthenticated}
use cpp_mirror_leech_bot.Core.Json.{
  Json, number, string, object, stop, member, JsonLibrary, find, as_number, at_string,
}
use cpp_mirror_leech_bot.Http.{
  HttpMethod, get, post, put, delete, HttpHeader, HttpRequest, HttpResponse,
}
pub mod Plan
pub mod Chunk
pub mod Workers
pub mod Folder
pub mod Resource
pub mod Session
pub mod Files
pub mod Directory

unfoldable pub is_unreserved : ℕ → Bool
is_unreserved c =
    (leb b'A' c && leb c b'Z')
    || (leb b'a' c && leb c b'z')
    || (leb b'0' c && leb c b'9')
    || c == b'-'
    || c == b'_'
    || c == b'.'
    || c == b'~'

unfoldable pub hex_digit : ℕ → ℕ
hex_digit n = if ltb n 10 then b'0' + n else b'A' + (n - 10)

unfoldable pub url_escape : Bytes → Bytes
url_escape [] = []
url_escape (c ∷ rest) =
    let escaped = url_escape rest in
    if is_unreserved c
    then c ∷ escaped
    else b'%' ∷ hex_digit (c / 16) ∷ hex_digit (c % 16) ∷ escaped

-- The alphabet of base 64 for URLs.
unfoldable pub url_alphabet : Bytes → Bytes
url_alphabet [] = []
url_alphabet (c ∷ rest) =
    (if c == b'+' then b'-' else if c == b'/' then b'_' else c) ∷ url_alphabet rest

-- Without the `=` at the end.
unfoldable pub strip_padding : Bytes → Bytes
strip_padding [] = []
strip_padding (c ∷ rest) =
    let stripped = strip_padding rest in if c == b'=' && is_empty stripped then [] else c ∷ stripped

pub record DriveAccessToken : Type 0 where
  pub value : Bytes
  pub expires_at : ℤ

-- The cached token, and the requests sent, latest first.
pub record Drive : Type 0 where
  pub cached_token : DriveAccessToken
  pub requests : List HttpRequest

pub record Service : Type 0 where
  pub reply : List HttpRequest → Result HttpResponse
  pub now : List HttpRequest → ℕ
  pub base64 : Bytes → Bytes
  pub sign : Bytes → Result Bytes
  pub json : JsonLibrary
  pub show : ℕ → Bytes

-- What is read of the configuration and of the credentials.
pub record DriveConfig : Type 0 where
  pub client_email : Bytes
  pub token_uri : Bytes
  pub parent_folder_id : Bytes
  pub chunk_size : ℕ
  pub parallel_chunks_per_file : ℤ
  pub parallel_files_per_directory : ℤ
  pub max_retries : ℤ

abbrev pub no_token : DriveAccessToken
no_token = record { value = []; expires_at = pos 0 }

abbrev pub header : Bytes → Bytes → HttpHeader
header name value = record { name = name; value = value }

-- `std::chrono::seconds(n)` in milliseconds.
unfoldable pub seconds : ℤ → ℤ
seconds (pos n) = pos (n * 1000)
seconds (negsuc n) = negsuc (suc n * 1000 - 1)

-- `status_code / 100 == 2`.
unfoldable pub is_success : ℕ → Bool
is_success code = code / 100 == 2

module _ (service : Service) (config : DriveConfig) where
  -- `co_await http_.request(...)`.
  unfoldable pub http : HttpRequest → Action Drive HttpResponse
  http r d =
      let requests = r ∷ d.requests in (record d { requests = requests }, service.reply requests)

  -- The clock.
  time : Action Drive ℕ
  time d = (d, ok (service.now d.requests))

  unfoldable pub base64url : Bytes → Bytes
  base64url raw = strip_padding (url_alphabet (service.base64 raw))

  unfoldable pub build_signed_jwt : ℕ → Result Bytes
  unfolding bytes
  build_signed_jwt now =
      let header = object (
        member (bytes "alg") (string (bytes "RS256"))
          (member (bytes "typ") (string (bytes "JWT")) stop)) in
      let claims = object (
        member (bytes "iss") (string config.client_email) (
          member (bytes "scope") (string (bytes "https://www.googleapis.com/auth/drive")) (
            member (bytes "aud") (string config.token_uri) (
              member (bytes "exp") (number (pos (now / 1000 + 3600)))
                (member (bytes "iat") (number (pos (now / 1000))) stop))))) in
      let input =
        base64url (service.json.dump header) ++ b'.' ∷ base64url (service.json.dump claims) in
      elim (service.sign input) [
        | err e ↦ err e
        | ok signature ↦ ok (input ++ b'.' ∷ base64url signature)
      ]

  -- The token of a reply: its text, and the seconds for which it holds.
  unfoldable pub token_of : Json → Bytes ⊎ (Bytes × ℤ)
  unfolding bytes
  token_of doc = elim (at_string service.json (bytes "access_token") doc) [
    | inl what ↦ inl what
    | inr token ↦ elim (find (bytes "expires_in") doc) [
      | none ↦ inr (token, pos 3600)
      | some m ↦ elim (as_number m) [
        | none ↦ inl (service.json.get_what m)
        | some n ↦ inr (token, n)
      ]
    ]
  ]

  unfoldable pub read_token : Bytes → ℕ → Result DriveAccessToken
  unfolding bytes
  read_token body now = elim (service.json.parse body) [
    | inl what ↦ error json_parse (bytes "gdrive: token response parse failed: " ++ what)
    | inr doc ↦ elim (token_of doc) [
      | inl what ↦ error json_parse (bytes "gdrive: token response parse failed: " ++ what)
      | inr (token, expires) ↦
          ok (record { value = bytes "Bearer " ++ token; expires_at = plus (seconds expires) now })
    ]
  ]

  unfoldable pub mint_bearer : Action Drive DriveAccessToken
  unfolding bytes time
  mint_bearer = do
    issued ← time
    jwt ← lift (build_signed_jwt issued)
    res ← http (record {
      method = post;
      url = config.token_uri;
      headers = header (bytes "Content-Type") (bytes "application/x-www-form-urlencoded") ∷ [];
      body =
          bytes "grant_type=urn:ietf:params:oauth:grant-type:jwt-bearer&assertion="
          ++ url_escape jwt;
    })
    require (res.status_code == 200) unauthenticated (
        bytes "gdrive: token exchange returned "
        ++ service.show res.status_code
        ++ bytes ": "
        ++ res.body)
    now ← time
    lift (read_token res.body now)

  -- A token that holds for more than a minute.
  unfoldable pub is_fresh : ℕ → DriveAccessToken → Bool
  is_fresh now token = not (is_empty token.value) && lt_ℤ (pos (now + 60000)) token.expires_at

  unfoldable pub store_token : DriveAccessToken → Action Drive Bytes
  store_token token d = (record d { cached_token = token }, ok token.value)

  unfoldable pub acquire_bearer : Action Drive Bytes
  acquire_bearer d =
      if is_fresh (service.now d.requests) d.cached_token
      then (d, ok d.cached_token.value)
      else (mint_bearer >>= store_token) d

unfoldable pub invalidate_bearer_cache : Drive → Drive
invalidate_bearer_cache d = record d { cached_token = no_token }
