-- ===== src/Examples/Http.antt =====
-- A request whose reply leads to another host.
use cpp_mirror_leech_bot.Prelude.{true, none, some, List, [], ◌∷◌, ◌≡◌, refl, bytes, starts_with}
use cpp_mirror_leech_bot.Core.Error.{ok}
use cpp_mirror_leech_bot.Http.{get, HttpRequest, HttpResponse}
use cpp_mirror_leech_bot.Http.Url.{
  ParsedUrl, parse_url, parse_rest, host_and_port, split_first, split_last, contains, default_port,
  all_digits,
}
use cpp_mirror_leech_bot.Http.ConnectionPool.Sound.{IsSound}
use cpp_mirror_leech_bot.Http.Client.{Exchange, Transport, Client, request}
use cpp_mirror_leech_bot.Http.Client.Confined.{IsClient, request-IsConfined}

abbrev moved : HttpResponse
unfolding bytes
moved = record {
  status_code = 302;
  headers = record { name = bytes "Location"; value = bytes "http://b/" } ∷ [];
  body = [];
}

abbrev plain : HttpResponse
plain = record { status_code = 200; headers = []; body = [] }

abbrev reply : List Exchange → HttpResponse
reply [] = plain
reply (x ∷ []) = moved
reply (x ∷ y ∷ rest) = plain

abbrev transport : Transport
transport = record {
  open_fault = λ made key. none;
  exchange = λ made. ok (reply made, true);
  now = λ made. 0;
  show = λ n. n ∷ [];
}

abbrev secret : HttpRequest
unfolding bytes
secret = record {
  method = get;
  url = bytes "https://a:8/x";
  headers = record { name = bytes "Authorization"; value = bytes "s" } ∷ [];
  body = [];
}

abbrev origin : ParsedUrl
unfolding bytes
origin = record { https = true; host = bytes "a"; port = bytes "8"; target = bytes "/x" }

abbrev fresh : Client
fresh = record { pool = record { plain_idle = []; tls_idle = [] }; made = [] }

parsed : parse_url secret.url ≡ some origin
unfolding bytes parse_url parse_rest host_and_port split_first split_last contains default_port
    all_digits starts_with
parsed = refl

sound : IsSound fresh.pool
sound = record { plain = tt; tls = tt }

request-IsConfined_example : IsClient origin [] (request transport secret fresh).0
request-IsConfined_example = request-IsConfined transport secret origin fresh parsed sound
