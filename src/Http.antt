-- ===== src/Http.antt =====
-- include/cmlb/infrastructure/http/beast_http_client.hpp: requests and replies. Timeouts and durations
-- are left out: what a transport does within its time is its reply.
pub mod Url
pub mod ConnectionPool
pub mod Client
use cpp_mirror_leech_bot.Prelude.{
  ℕ, Bool, true, false, ◌&&◌, ◌==◌, Option, none, some, List, [], ◌∷◌, if◌then◌else◌, Bytes,
  to_lower,
}

pub data HttpMethod : Type 0 where
  get post put delete patch head : HttpMethod

pub record HttpHeader : Type 0 where
  pub name : Bytes
  pub value : Bytes

pub record HttpRequest : Type 0 where
  pub method : HttpMethod
  pub url : Bytes
  pub headers : List HttpHeader
  pub body : Bytes

pub record HttpResponse : Type 0 where
  pub status_code : ℕ
  pub headers : List HttpHeader
  pub body : Bytes

-- Equality up to the case of ASCII letters.
unfoldable pub iequals : Bytes → Bytes → Bool
iequals [] [] = true
iequals (x ∷ xs) (y ∷ ys) = to_lower x == to_lower y && iequals xs ys
iequals _ _ = false

-- The value of the first header of the name.
unfoldable pub header_lookup : Bytes → List HttpHeader → Option Bytes
header_lookup name [] = none
header_lookup name (h ∷ rest) =
    let later = header_lookup name rest in if iequals h.name name then some h.value else later
