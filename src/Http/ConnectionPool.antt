-- ===== src/Http/ConnectionPool.antt =====
-- `ConnectionPool` of src/infrastructure/http/beast_http_client.cpp: the idle sockets of each endpoint, with
-- one map for plain sockets and one for TLS. A socket is the endpoint that it was opened to and the time
-- of its last use; the clock is an argument.
pub mod Sound
use cpp_mirror_leech_bot.Prelude.{
  ℕ, suc, ◌+◌, Bool, true, false, not, ◌&&◌, ◌||◌, leb, ltb, Option, none, some, List, [], ◌∷◌,
  ◌++◌, length, if◌then◌else◌, Bytes, bytes_eq,
}

pub record EndpointKey : Type 0 where
  pub https : Bool
  pub host : Bytes
  pub port : Bytes

unfoldable pub key_eq : EndpointKey → EndpointKey → Bool
key_eq a b =
    ((a.https && b.https) || (not a.https && not b.https))
    && bytes_eq a.host b.host
    && bytes_eq a.port b.port

pub record Socket : Type 0 where
  pub peer : EndpointKey
  pub last_used : ℕ

-- A map of endpoints to their sockets, the socket that was returned first at the front.
abbrev pub Idle : Type 0
Idle = List (EndpointKey × List Socket)

pub record ConnectionPool : Type 0 where
  pub plain_idle : Idle
  pub tls_idle : Idle

abbrev pub max_endpoints : ℕ
max_endpoints = 32

abbrev pub max_sockets_per_endpoint : ℕ
max_sockets_per_endpoint = 8

-- One minute, in milliseconds.
abbrev pub idle_eviction : ℕ
idle_eviction = 60000

unfoldable pub contains_key : EndpointKey → Idle → Bool
contains_key key [] = false
contains_key key ((k, q) ∷ rest) = key_eq key k || contains_key key rest

-- `map[key]`, which makes an entry where there is none.
unfoldable pub queue_of : EndpointKey → Idle → List Socket
queue_of key [] = []
queue_of key ((k, q) ∷ rest) = let later = queue_of key rest in if key_eq key k then q else later

unfoldable pub set_queue : EndpointKey → List Socket → Idle → Idle
set_queue key new [] = (key, new) ∷ []
set_queue key new ((k, q) ∷ rest) =
    let later = set_queue key new rest in if key_eq key k then (k, new) ∷ rest else (k, q) ∷ later

-- The sockets from the front on that were not used for too long go.
unfoldable pub prune : ℕ → List Socket → List Socket
prune now [] = []
prune now (s ∷ q) =
    let later = prune now q in if ltb (s.last_used + idle_eviction) now then later else s ∷ q

-- `back()` and `pop_back()`.
unfoldable pub pop_back : List Socket → Option (List Socket × Socket)
pop_back [] = none
pop_back (s ∷ q) = elim (pop_back q) [
  | none ↦ some ([], s)
  | some (front, last) ↦ some (s ∷ front, last)
]

-- `take_plain` and `take_tls`, on their map.
unfoldable pub take : ℕ → EndpointKey → Idle → Idle × Option Socket
take now key idle = elim (pop_back (prune now (queue_of key idle))) [
  | none ↦ (set_queue key [] idle, none)
  | some (front, last) ↦ (set_queue key front idle, some last)
]

-- `return_plain` and `return_tls`, on their map and beside the size of the other one.
unfoldable pub put_back : ℕ → ℕ → EndpointKey → Socket → Idle → Idle
put_back now others key socket idle =
    let kept = set_queue key (queue_of key idle) idle in
    let returned : Socket = record socket { last_used = now } in
    if leb max_endpoints (length idle + others) && not (contains_key key idle)
    then idle
    else if leb max_sockets_per_endpoint (length (queue_of key idle))
    then kept
    else set_queue key (queue_of key idle ++ returned ∷ []) idle

-- The map for the scheme of the endpoint.
unfoldable pub take_socket : ℕ → EndpointKey → ConnectionPool → ConnectionPool × Option Socket
take_socket now key pool =
    let (plain, s) = take now key pool.plain_idle in
    let (tls, t) = take now key pool.tls_idle in
    if key.https
    then (record pool { tls_idle = tls }, t)
    else (record pool { plain_idle = plain }, s)

unfoldable pub return_socket : ℕ → EndpointKey → Socket → ConnectionPool → ConnectionPool
return_socket now key socket pool =
    if key.https
    then record pool { tls_idle = put_back now (length pool.plain_idle) key socket pool.tls_idle }
    else record pool { plain_idle = put_back now (length pool.tls_idle) key socket pool.plain_idle }
