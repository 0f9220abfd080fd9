-- ===== src/Http/Client/Confined.antt =====
-- Where a request and its redirects lead: every exchange is over a socket of its own endpoint, and no
-- credentials go to another origin.

use cpp_mirror_leech_bot.Prelude.{
  ℕ, zero, suc, ◌≡◌, ◌⊎◌, refl, ap, inl, inr, Bool, true, false, Bool-cases, some, Option-cases,
  List, [], ◌∷◌, ◌++◌, arith, if_elim, if◌then◌else◌, Bytes, bytes, bytes_eq_self, to_lower, All,
}
use cpp_mirror_leech_bot.Core.Error.{AppError, Result, ok, err, Result-cases}
use cpp_mirror_leech_bot.Http.Url.{ParsedUrl, parse_url, same_origin, host_with_port}
use cpp_mirror_leech_bot.Http.ConnectionPool.{EndpointKey, Socket}
use cpp_mirror_leech_bot.Http.ConnectionPool.Sound.{
  IsSound, take_socket-IsSound, return_socket-IsSound,
}
use cpp_mirror_leech_bot.Http.{HttpMethod, HttpHeader, HttpRequest, iequals}
use cpp_mirror_leech_bot.Http.Client.{
  Exchange, Transport, Client, key_of, has_body, names, erase, standard_fields, apply_headers,
  set_field, set_fields, Hop, strip_headers, Redirect, surface, malformed, follow, redirect_of,
  redirected_hop, connect, exchange_over, one_hop, hops, request, max_redirects,
}

abbrev pub authorization : Bytes
unfolding bytes
authorization = bytes "authorization"

iequals_self : (a : Bytes) → iequals a a ≡ true
unfolding iequals
iequals_self [] = refl
iequals_self (x ∷ xs) = ground (arith, iequals_self xs)

same_origin_self : (u : ParsedUrl) → same_origin u u ≡ true
unfolding same_origin
same_origin_self u = ground (arith, iequals_self u.host, bytes_eq_self u.port)

erase-names_self : (name : Bytes) (hs : List HttpHeader) → names name (erase name hs) ≡ false
unfolding erase names
erase-names_self name [] = refl
erase-names_self name (h ∷ rest) = ground (arith, erase-names_self name rest)

erase-names :
    (name other : Bytes) (hs : List HttpHeader)
    → names name hs ≡ false
    → names name (erase other hs) ≡ false
unfolding erase names
erase-names name other [] h = refl
erase-names name other (x ∷ rest) h = ground (arith, erase-names name other rest)

names-append :
    (name : Bytes) (xs ys : List HttpHeader)
    → names name xs ≡ false
    → names name ys ≡ false
    → names name (xs ++ ys) ≡ false
unfolding names
names-append name [] ys h k = k
names-append name (x ∷ xs) ys h k = ground (arith, names-append name xs ys)

standard_fields-names :
    (show : ℕ → Bytes) (kept : List HttpHeader) (host : Bytes) (with_body : Bool) (body : Bytes)
    → names authorization (standard_fields show kept host with_body body) ≡ false
unfolding standard_fields names iequals to_lower bytes authorization
standard_fields-names show kept host with_body body = ground arith

set_fields-names :
    (name : Bytes) (hs fields : List HttpHeader)
    → names name hs ≡ false
    → names name fields ≡ false
    → names name (set_fields hs fields) ≡ false
unfolding set_fields set_field names
set_fields-names name [] fields h k = k
set_fields-names name (x ∷ rest) fields h k =
    let only : names name (x ∷ []) ≡ false = ground (arith, h) in
    set_fields-names name rest (set_field x fields) (ground (arith, h))
      (names-append name (erase x.name fields) (x ∷ []) (erase-names name x.name fields k) only)

apply_headers-names :
    (show : ℕ → Bytes) (hs : List HttpHeader) (host : Bytes) (with_body : Bool) (body : Bytes)
    → names authorization hs ≡ false
    → names authorization (apply_headers show hs host with_body body) ≡ false
unfolding apply_headers bytes names
apply_headers-names show hs host with_body body h =
    let hosted = erase (bytes "host") hs in
    let kept = erase (bytes "content-length") hosted in
    set_fields-names authorization (kept ++ standard_fields show kept host with_body body) []
      (names-append authorization kept (standard_fields show kept host with_body body)
        (erase-names authorization (bytes "content-length") hosted
          (erase-names authorization (bytes "host") hs h))
        (standard_fields-names show kept host with_body body))
      refl

-- An exchange over a socket of its own endpoint, without credentials or within the first origin.
abbrev pub IsConfined : ParsedUrl → Exchange → Type 0
IsConfined orig x =
    (x.peer ≡ key_of x.url)
    × ((names authorization x.fields ≡ false) ⊎ (same_origin orig x.url ≡ true))

-- A sound pool, and confined exchanges since those of before.
abbrev pub IsClient : ParsedUrl → List Exchange → Client → Type 0
IsClient orig before c =
    IsSound c.pool × ((new : List Exchange) × (c.made ≡ new ++ before) × All (IsConfined orig) new)

-- A hop that was redirected, or that is the first one.
abbrev IsHop : ParsedUrl → Hop → Type 0
IsHop orig h = (h.redirected ≡ true) ⊎ (parse_url h.url ≡ some orig)

strip_headers-IsSafe :
    (orig u : ParsedUrl) (h : Hop)
    → parse_url h.url ≡ some u
    → IsHop orig h
    → (names authorization (strip_headers orig u h) ≡ false) ⊎ (same_origin orig u ≡ true)
unfolding strip_headers bytes authorization
strip_headers-IsSafe orig u h e (inl again) = elim (Bool-cases (same_origin orig u)) [
  | inl same ↦ inr same
  | inr other ↦ rw (again, other) (inl (erase-names_self (bytes "authorization") h.headers))
]
strip_headers-IsSafe orig u h e (inr first) = inr (ground (arith, same_origin_self u))

Redirect-cases :
    (r : Redirect)
    → (r ≡ surface) ⊎ ((b : Bytes) × (r ≡ malformed b)) ⊎ ((b : Bytes) × (r ≡ follow b))
Redirect-cases surface = inl refl
Redirect-cases (malformed b) = inr (inl (b, refl))
Redirect-cases (follow b) = inr (inr (b, refl))

module _ (transport : Transport) (before : List Exchange) where
  -- A connection leaves the client sound and gives a socket of the endpoint.
  abbrev IsConnected : ParsedUrl → EndpointKey → Client × Result Socket → Type 0
  IsConnected orig key p =
      IsClient orig before p.0
      × (((e : AppError) × (p.1 ≡ err e)) ⊎ ((s : Socket) × (p.1 ≡ ok s) × (s.peer ≡ key)))

  connect-IsConnected :
      (orig : ParsedUrl) (key : EndpointKey) (c : Client)
      → IsClient orig before c
      → IsConnected orig key (connect transport key c)
  unfolding connect
  connect-IsConnected orig key c h =
      let (sound, got) = take_socket-IsSound (transport.now c.made) key c.pool h.0 in
      elim got [
        | inr (s, e, peer) ↦ rw (connect, e) ((sound, h.1), inr (s, refl, peer))
        | inl e ↦ elim (Option-cases (transport.open_fault c.made key)) [
          | inl none_wrong ↦ rw (connect, e, none_wrong) ((sound, h.1), inr (_, refl, refl))
          | inr (fault, wrong) ↦ rw (connect, e, wrong) ((sound, h.1), inl (fault, refl))
        ]
      ]

  exchange_over-IsClient :
      (orig u : ParsedUrl) (method : HttpMethod) (fields : List HttpHeader) (body : Bytes)
      (s : Socket) (c : Client)
      → s.peer ≡ key_of u
      → (names authorization fields ≡ false) ⊎ (same_origin orig u ≡ true)
      → IsClient orig before c
      → IsClient orig before (exchange_over transport u method fields body s c).0
  unfolding exchange_over
  exchange_over-IsClient orig u method fields body s c peer safe h =
      let x : Exchange = record {
        peer = s.peer;
        url = u;
        method = method;
        fields = fields;
        body = body;
      } in
      let made = x ∷ c.made in
      let (pool, (new, since, confined)) = h in
      let dropped : IsClient orig before (record c { made = made }) =
        (pool, (x ∷ new, ap (λ made. x ∷ made) since, ((peer, safe), confined))) in
      let kept = return_socket-IsSound (transport.now made) (key_of u) s c.pool peer h.0 in
      elim (Result-cases (transport.exchange made)) [
        | inr (e, bad) ↦ rw (exchange_over, bad) dropped
        | inl ((r, reusable), good) ↦
            rw (exchange_over, good)
              (if_elim (IsClient orig before) reusable _ _ (kept, dropped.1) dropped)
      ]

  one_hop-IsClient :
      (orig u : ParsedUrl) (h : Hop) (c : Client)
      → parse_url h.url ≡ some u
      → IsHop orig h
      → IsClient orig before c
      → IsClient orig before (one_hop transport orig u h c).0
  unfolding one_hop
  one_hop-IsClient orig u h c e hop client =
      let body = if has_body h.method then h.body else [] in
      let host = host_with_port u in
      let safe : (names authorization
              (apply_headers transport.show (strip_headers orig u h) host (has_body h.method) body)
            ≡ false)
          ⊎ (same_origin orig u ≡ true) =
        elim (strip_headers-IsSafe orig u h e hop) [
          | inr same ↦ inr same
          | inl bare ↦ inl (apply_headers-names transport.show _ host (has_body h.method) body bare)
        ] in
      let (after, got) = connect-IsConnected orig (key_of u) c client in
      elim got [
        | inl (fault, bad) ↦ rw (one_hop, bad) after
        | inr (s, good, peer) ↦
            rw (one_hop, good)
              (exchange_over-IsClient orig u h.method _ body s (connect transport (key_of u) c).0
                peer safe after)
      ]

  hops-IsClient :
      (left : ℕ) (orig : ParsedUrl) (h : Hop) (c : Client)
      → IsHop orig h
      → IsClient orig before c
      → IsClient orig before (hops transport left orig h c).0
  unfolding hops redirected_hop
  hops-IsClient zero orig h c hop client = elim (Option-cases (parse_url h.url)) [
    | inl e ↦ rw (hops, e) client
    | inr (u, e) ↦ rw (hops, e) (one_hop-IsClient orig u h c e hop client)
  ]
  hops-IsClient (suc left) orig h c hop client = elim (Option-cases (parse_url h.url)) [
    | inl e ↦ rw (hops, e) client
    | inr (u, e) ↦
        let after = one_hop-IsClient orig u h c e hop client in
        elim (Result-cases (one_hop transport orig u h c).1) [
          | inr (fault, bad) ↦ rw (hops, e, bad) after
          | inl (reply, good) ↦ elim (Redirect-cases (redirect_of u reply)) [
            | inl over ↦ rw (hops, e, good, over) after
            | inr (inl (location, over)) ↦ rw (hops, e, good, over) after
            | inr (inr (next, again)) ↦
                rw (hops, e, good, again) (hops-IsClient left orig _ _ (inl refl) after)
          ]
        ]
  ]

module _ (transport : Transport) where
  -- Every exchange of a request and of the redirects that it follows is over a socket that was opened to
  -- the endpoint of its URL, and carries credentials to the origin of the request's URL only, whatever
  -- the servers reply; and the pool stays sound, where it was: each of its sockets is kept for the
  -- endpoint that it was opened to, and no endpoint has more than eight.
  pub request-IsConfined :
      (r : HttpRequest) (orig : ParsedUrl) (c : Client)
      → parse_url r.url ≡ some orig
      → IsSound c.pool
      → IsClient orig c.made (request transport r c).0
  unfolding request
  request-IsConfined r orig c e sound =
      rw (request, e)
        (hops-IsClient transport c.made max_redirects orig _ c (inr e) (sound, ([], refl, tt)))
