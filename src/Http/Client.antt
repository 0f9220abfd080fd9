-- ===== src/Http/Client.antt =====
-- `BeastHttpClient::request` of src/infrastructure/http/beast_http_client.cpp. What it does through Beast is
-- the transport, a parameter: whether a socket opens, and what an exchange gives, decided by the
-- exchanges so far. A request to Beast is its verb, its body and its fields, in order.
pub mod Confined
use cpp_mirror_leech_bot.Prelude.{
  ℕ, zero, suc, Bool, true, false, not, ◌&&◌, ◌||◌, ◌==◌, Option, none, some, List, [], ◌∷◌, ◌++◌,
  length, if◌then◌else◌, Bytes, bytes,
}
use cpp_mirror_leech_bot.Core.Error.{
  AppError, Result, ok, err, error, invalid_argument, network_error,
}
use cpp_mirror_leech_bot.Http.Url.{
  ParsedUrl, parse_url, same_origin, host_with_port, resolve_redirect,
}
use cpp_mirror_leech_bot.Http.ConnectionPool.{
  EndpointKey, Socket, ConnectionPool, take_socket, return_socket,
}
use cpp_mirror_leech_bot.Http.{
  HttpMethod, get, post, put, delete, patch, head, HttpHeader, HttpRequest, HttpResponse, iequals,
  header_lookup,
}

-- One exchange: the endpoint that the socket was opened to, the URL, and what was sent.
pub record Exchange : Type 0 where
  pub peer : EndpointKey
  pub url : ParsedUrl
  pub method : HttpMethod
  pub fields : List HttpHeader
  pub body : Bytes

-- `open_plain` and `open_tls`, `exchange` with whether the socket can be used again, and the clock.
pub record Transport : Type 0 where
  pub open_fault : List Exchange → EndpointKey → Option AppError
  pub exchange : List Exchange → Result (HttpResponse × Bool)
  pub now : List Exchange → ℕ
  pub show : ℕ → Bytes

-- The pool, and the exchanges made, latest first.
pub record Client : Type 0 where
  pub pool : ConnectionPool
  pub made : List Exchange

abbrev pub key_of : ParsedUrl → EndpointKey
key_of u = record { https = u.https; host = u.host; port = u.port }

unfoldable pub has_body : HttpMethod → Bool
has_body post = true
has_body put = true
has_body patch = true
has_body _ = false

unfoldable pub names : Bytes → List HttpHeader → Bool
names name [] = false
names name (h ∷ rest) = iequals h.name name || names name rest

-- `std::erase_if` of the headers of a name.
unfoldable pub erase : Bytes → List HttpHeader → List HttpHeader
erase name [] = []
erase name (h ∷ rest) =
    let others = erase name rest in if iequals h.name name then others else h ∷ others

abbrev field : Bytes → Bytes → HttpHeader
field name value = record { name = name; value = value }

abbrev unless : Bool → HttpHeader → List HttpHeader
unless b h = if b then [] else h ∷ []

-- The fields that are set beside those of the request.
unfoldable pub standard_fields :
    (ℕ → Bytes) → List HttpHeader → Bytes → Bool → Bytes → List HttpHeader
unfolding bytes
standard_fields show kept host with_body body =
    field (bytes "Host") host
    ∷ (unless (names (bytes "user-agent") kept)
          (field (bytes "User-Agent") (bytes "cmlb/1.0 (+https://github.com/cmlb)"))
        ++ unless (names (bytes "accept") kept) (field (bytes "Accept") (bytes "*/*"))
        ++ unless (names (bytes "connection") kept)
            (field (bytes "Connection") (bytes "keep-alive"))
        ++ unless (not with_body) (field (bytes "Content-Length") (show (length body))))

-- Beast's `set`: a field replaces those of its name.
unfoldable pub set_field : HttpHeader → List HttpHeader → List HttpHeader
set_field h fields = erase h.name fields ++ h ∷ []

unfoldable pub set_fields : List HttpHeader → List HttpHeader → List HttpHeader
set_fields [] fields = fields
set_fields (h ∷ rest) fields = set_fields rest (set_field h fields)

-- The fields of the request after `apply_headers`.
unfoldable pub apply_headers :
    (ℕ → Bytes) → List HttpHeader → Bytes → Bool → Bytes → List HttpHeader
unfolding bytes
apply_headers show headers host with_body body =
    let kept = erase (bytes "content-length") (erase (bytes "host") headers) in
    set_fields (kept ++ standard_fields show kept host with_body body) []

-- What the loop changes from one hop to the next.
pub record Hop : Type 0 where
  pub method : HttpMethod
  pub url : Bytes
  pub headers : List HttpHeader
  pub body : Bytes
  pub redirected : Bool

-- The headers without the credentials, where a redirect leads to another origin.
unfoldable pub strip_headers : ParsedUrl → ParsedUrl → Hop → List HttpHeader
unfolding bytes
strip_headers orig u h =
    if h.redirected && not (same_origin orig u)
    then erase (bytes "authorization") h.headers
    else h.headers

unfoldable pub is_redirect : ℕ → Bool
is_redirect code = code == 301 || code == 302 || code == 303 || code == 307 || code == 308

-- What a reply asks for: nothing more, a target that cannot be resolved, or a URL.
pub data Redirect : Type 0 where
  surface : Redirect
  malformed follow : Bytes → Redirect

unfoldable pub resolved : Bytes → Option Bytes → Redirect
resolved location none = malformed location
resolved location (some next) = follow next

unfoldable pub redirect_of : ParsedUrl → HttpResponse → Redirect
unfolding bytes
redirect_of u r =
    if is_redirect r.status_code
    then elim (header_lookup (bytes "location") r.headers) [
      | none ↦ surface
      | some location ↦ resolved location (resolve_redirect u location)
    ]
    else surface

-- The next hop; all but 307 and 308 make it a GET without a body.
unfoldable pub redirected_hop : ℕ → Bytes → List HttpHeader → Hop → Hop
redirected_hop code next headers h =
    let keeps = code == 307 || code == 308 in
    record {
      method = if keeps then h.method else get;
      url = next;
      headers = headers;
      body = if keeps then h.body else [];
      redirected = true;
    }

abbrev pub max_redirects : ℕ
max_redirects = 5

module _ (transport : Transport) where
  -- A pooled socket, or one that is opened.
  unfoldable pub connect : EndpointKey → Client → Client × Result Socket
  connect key c =
      let (pool, pooled) = take_socket (transport.now c.made) key c.pool in
      let c' = record c { pool = pool } in
      elim pooled [
        | some socket ↦ (c', ok socket)
        | none ↦ elim (transport.open_fault c.made key) [
          | some e ↦ (c', err e)
          | none ↦ (c', ok (record { peer = key; last_used = 0 }))
        ]
      ]

  -- The exchange over a socket, which goes back to the pool where it can be used again.
  unfoldable pub exchange_over :
      ParsedUrl
      → HttpMethod
      → List HttpHeader
      → Bytes
      → Socket
      → Client
      → Client × Result HttpResponse
  exchange_over u method fields body socket c =
      let made =
        record { peer = socket.peer; url = u; method = method; fields = fields; body = body }
        ∷ c.made in
      let dropped = record c { made = made } in
      elim (transport.exchange made) [
        | err e ↦ (dropped, err e)
        | ok (r, reusable) ↦
            let pool = return_socket (transport.now made) (key_of u) socket c.pool in
            (if reusable then record dropped { pool = pool } else dropped, ok r)
      ]

  unfoldable pub one_hop : ParsedUrl → ParsedUrl → Hop → Client → Client × Result HttpResponse
  one_hop orig u h c =
      let body = if has_body h.method then h.body else [] in
      let fields =
        apply_headers transport.show (strip_headers orig u h) (host_with_port u) (has_body h.method)
          body in
      let (c', socket) = connect (key_of u) c in
      elim socket [ err e ↦ (c', err e) | ok s ↦ exchange_over u h.method fields body s c' ]

  -- The loop, with the redirects that are left. The reply to the last hop is surfaced as it is.
  unfoldable pub hops : ℕ → ParsedUrl → Hop → Client → Client × Result HttpResponse
  unfolding bytes
  hops zero orig h c = elim (parse_url h.url) [
    | none ↦ (c, error invalid_argument (bytes "malformed URL (redirect): " ++ h.url))
    | some u ↦ one_hop orig u h c
  ]
  hops (suc left) orig h c = elim (parse_url h.url) [
    | none ↦ (c, error invalid_argument (bytes "malformed URL (redirect): " ++ h.url))
    | some u ↦
        let (c', r) = one_hop orig u h c in
        elim r [
          | err e ↦ (c', err e)
          | ok reply ↦ elim (redirect_of u reply) [
            | surface ↦ (c', ok reply)
            | malformed location ↦
                (c', error network_error (bytes "redirect target malformed: " ++ location))
            | follow next ↦
                hops left orig (redirected_hop reply.status_code next (strip_headers orig u h) h) c'
          ]
        ]
  ]

  unfoldable pub request : HttpRequest → Client → Client × Result HttpResponse
  unfolding bytes
  request r c = elim (parse_url r.url) [
    | none ↦ (c, error invalid_argument (bytes "malformed URL: " ++ r.url))
    | some orig ↦
        hops max_redirects orig
          (record {
            method = r.method;
            url = r.url;
            headers = r.headers;
            body = r.body;
            redirected = false;
          })
          c
  ]
