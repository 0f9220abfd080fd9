-- ===== src/Http/ConnectionPool/Sound.antt =====
-- The pool hands out a socket only for the endpoint that it was opened to, and stays within its bound.
use mathlib.Core.Path.{subst}
use cpp_mirror_leech_bot.Prelude.{
  ℕ, ◌+◌, ◌≤◌, ◌<◌, ◌≡◌, ◌⊎◌, refl, inl, inr, true, not, ◌&&◌, Bool-cases, leb, ltb, Option, none,
  some, Option-cases, List, [], ◌∷◌, length, length-append, arith, if_elim, bytes_eq_sound, All,
  All-append,
}
use cpp_mirror_leech_bot.Http.ConnectionPool.{
  EndpointKey, key_eq, Socket, Idle, ConnectionPool, max_endpoints, max_sockets_per_endpoint,
  idle_eviction, contains_key, queue_of, set_queue, prune, pop_back, take, put_back, take_socket,
  return_socket,
}

pub key_eq_sound : (a b : EndpointKey) → key_eq a b ≡ true → a ≡ b
unfolding key_eq
key_eq_sound a b h =
    let host = bytes_eq_sound a.host b.host in
    let port = bytes_eq_sound a.port b.port in ground (arith, host, port)

-- The sockets of an endpoint, at most eight, all opened to it.
abbrev pub IsQueueOf : EndpointKey → List Socket → Type 0
IsQueueOf key q = All (λ (s : Socket). s.peer ≡ key) q × (length q ≤ 8)

abbrev pub IsSoundIdle : Idle → Type 0
IsSoundIdle idle = All (λ (e : EndpointKey × List Socket). IsQueueOf e.0 e.1) idle

pub record IsSound (pool : ConnectionPool) : Type 0 where
  pub plain : IsSoundIdle pool.plain_idle
  pub tls : IsSoundIdle pool.tls_idle

prune-IsQueueOf :
    (now : ℕ) (key : EndpointKey) (q : List Socket) → IsQueueOf key q → IsQueueOf key (prune now q)
unfolding prune
prune-IsQueueOf now key [] h = h
prune-IsQueueOf now key (s ∷ q) h = elim (Bool-cases (ltb (s.last_used + idle_eviction) now)) [
  | inl e ↦ rw e (prune-IsQueueOf now key q (h.0.1, omega (arith, h.1)))
  | inr e ↦ rw e h
]

-- What `pop_back` gives of a queue of sockets for an endpoint.
abbrev IsPopped : EndpointKey → List Socket → Option (List Socket × Socket) → Type 0
IsPopped key q none = Unit {0}
IsPopped key q (some (front, last)) =
    All (λ (s : Socket). s.peer ≡ key) front × ((length front < length q) × (last.peer ≡ key))

pop_back-IsPopped :
    (key : EndpointKey) (q : List Socket)
    → All (λ (s : Socket). s.peer ≡ key) q
    → IsPopped key q (pop_back q)
unfolding pop_back
pop_back-IsPopped key [] h = tt
pop_back-IsPopped key (s ∷ q) h = elim (Option-cases (pop_back q)) [
  | inl e ↦ rw e (tt, (omega arith, h.0))
  | inr ((front, last), e) ↦
      let (all, (shorter, peer)) = subst (IsPopped key q) e (pop_back-IsPopped key q h.1) in
      rw e ((h.0, all), (omega (arith, shorter), peer))
]

queue_of-IsQueueOf :
    (key : EndpointKey) (idle : Idle) → IsSoundIdle idle → IsQueueOf key (queue_of key idle)
unfolding queue_of
queue_of-IsQueueOf key [] h = (tt, omega arith)
queue_of-IsQueueOf key ((k, q) ∷ rest) h = elim (Bool-cases (key_eq key k)) [
  | inl e ↦ rw (e, key_eq_sound key k e) h.0
  | inr e ↦ rw e (queue_of-IsQueueOf key rest h.1)
]

set_queue-IsSoundIdle :
    (key : EndpointKey) (new : List Socket) (idle : Idle)
    → IsQueueOf key new
    → IsSoundIdle idle
    → IsSoundIdle (set_queue key new idle)
unfolding set_queue
set_queue-IsSoundIdle key new [] h k = (h, tt)
set_queue-IsSoundIdle key new ((k', q) ∷ rest) h k = elim (Bool-cases (key_eq key k')) [
  | inl e ↦ rw e (rw (← key_eq_sound key k' e) h, k.1)
  | inr e ↦ rw e (k.0, set_queue-IsSoundIdle key new rest h k.1)
]

-- What a map and a socket that was taken of it are after it.
abbrev IsTaken : EndpointKey → Idle × Option Socket → Type 0
IsTaken key p = IsSoundIdle p.0 × ((p.1 ≡ none) ⊎ ((s : Socket) × (p.1 ≡ some s) × (s.peer ≡ key)))

take-IsTaken :
    (now : ℕ) (key : EndpointKey) (idle : Idle) → IsSoundIdle idle → IsTaken key (take now key idle)
unfolding take
take-IsTaken now key idle h =
    let q = prune-IsQueueOf now key (queue_of key idle) (queue_of-IsQueueOf key idle h) in
    elim (Option-cases (pop_back (prune now (queue_of key idle)))) [
      | inl e ↦ rw (take, e) (set_queue-IsSoundIdle key [] idle (tt, omega arith) h, inl refl)
      | inr ((front, last), e) ↦
          let (all, (shorter, peer)) =
            subst (IsPopped key (prune now (queue_of key idle))) e (pop_back-IsPopped key _ q.0) in
          rw (take, e)
            (
              set_queue-IsSoundIdle key front idle (all, omega (arith, shorter, q.1)) h,
              inr (last, refl, peer),
            )
    ]

put_back-IsSoundIdle :
    (now others : ℕ) (key : EndpointKey) (s : Socket) (idle : Idle)
    → s.peer ≡ key
    → IsSoundIdle idle
    → IsSoundIdle (put_back now others key s idle)
unfolding put_back
put_back-IsSoundIdle now others key s idle peer h =
    let q = queue_of-IsQueueOf key idle h in
    elim (Bool-cases (leb max_endpoints (length idle + others) && not (contains_key key idle))) [
      | inl e ↦ rw e h
      | inr e ↦ elim (Bool-cases (leb max_sockets_per_endpoint (length (queue_of key idle)))) [
        | inl full ↦ rw (e, full) (set_queue-IsSoundIdle key (queue_of key idle) idle q h)
        | inr room ↦
            let more =
              All-append (λ (t : Socket). t.peer ≡ key) (queue_of key idle)
                ((record s { last_used = now }) ∷ []) q.0 (peer, tt) in
            rw (e, room)
              (set_queue-IsSoundIdle key _ idle
                (
                  more,
                  ground (
                    arith,
                    length-append (queue_of key idle) ((record s { last_used = now }) ∷ []),
                  ),
                )
                h)
      ]
    ]

-- The same of a pool.
abbrev pub IsTakenPool : EndpointKey → ConnectionPool × Option Socket → Type 0
IsTakenPool key p = IsSound p.0 × ((p.1 ≡ none) ⊎ ((s : Socket) × (p.1 ≡ some s) × (s.peer ≡ key)))

pub take_socket-IsSound :
    (now : ℕ) (key : EndpointKey) (pool : ConnectionPool)
    → IsSound pool
    → IsTakenPool key (take_socket now key pool)
unfolding take_socket
take_socket-IsSound now key pool h =
    let (plain, s) = take-IsTaken now key pool.plain_idle h.plain in
    let (tls, t) = take-IsTaken now key pool.tls_idle h.tls in
    if_elim (IsTakenPool key) key.https _ _ (record { plain = h.plain; tls = tls }, t)
      (record { plain = plain; tls = h.tls }, s)

pub return_socket-IsSound :
    (now : ℕ) (key : EndpointKey) (s : Socket) (pool : ConnectionPool)
    → s.peer ≡ key
    → IsSound pool
    → IsSound (return_socket now key s pool)
unfolding return_socket
return_socket-IsSound now key s pool peer h =
    if_elim IsSound key.https _ _
      (record {
        plain = h.plain;
        tls = put_back-IsSoundIdle now (length pool.plain_idle) key s pool.tls_idle peer h.tls;
      })
      (record {
        plain = put_back-IsSoundIdle now (length pool.tls_idle) key s pool.plain_idle peer h.plain;
        tls = h.tls;
      })

-- After a socket was asked for, its endpoint has an entry, so that the bound on the endpoints never
-- keeps a socket out.
contains-set_queue :
    (key : EndpointKey) (new : List Socket) (idle : Idle)
    → key_eq key key ≡ true
    → contains_key key (set_queue key new idle) ≡ true
unfolding contains_key set_queue
contains-set_queue key new [] same = ground (arith, same)
contains-set_queue key new ((k, q) ∷ rest) same =
    ground (arith, contains-set_queue key new rest same)
