-- ===== src/Quic/Setup/Outcome.antt =====
-- What the set-up of a transport (native/quic/Connection.cpp) leaves where a call fails, and what it
-- gives where all succeed.
use ffl_p2p.Prelude.{ℕ, ◌+◌, ◌≡◌, refl, true, Option, none, some, List, arith, Result, ok, err}
use ffl_p2p.Quic.Library.{Error}
use ffl_p2p.Quic.Setup.{
  Transport, new_transport, Answers, server_name, alpn_name, tls_priority, set_up_client,
  set_up_server, one, release_resources,
}

-- What was allocated was freed, but for what the transport has.
abbrev pub Owns : Transport → Type 0
Owns t = t.allocated ≡ t.freed + one t.conn + one t.tls + one t.credentials

-- The ngtcp2 connection stands on a TLS session with its priority string, its credentials and this protocol's name.
abbrev pub Secured : Transport → Type 0
Secured t =
    (t.conn ≡ true)
    × (t.tls ≡ true)
    × (t.configured ≡ true)
    × (t.with_credentials ≡ true)
    × (t.priority ≡ some tls_priority)
    × (t.alpn ≡ some alpn_name)

-- The client trusts the pinned certificate and checks that the peer's is for the server's name.
abbrev pub ClientReady : List ℕ → Transport → Type 0
ClientReady certificate t =
    Secured t × (t.trusted ≡ some certificate) × (t.verified ≡ some server_name) × Owns t

-- The server has its key pair and insists on the protocol's name.
abbrev pub ServerReady : List ℕ → List ℕ → Transport → Type 0
ServerReady certificate key t =
    Secured t × (t.key_pair ≡ some (certificate, key)) × (t.alpn_mandatory ≡ true) × Owns t

-- A success gives a transport with `Ready`, a failure leaves one that owns what it should.
abbrev pub Ensures : (Transport → Type 0) → Transport × Result Error (Unit {0}) → Type 0
Ensures Ready (t, ok u) = Ready t
Ensures Ready (t, err e) = Owns t

client_answers :
    (global_init allocate_credentials set_trust init priority configure credentials_set alpn name
      random conn_new set_key : Option ℕ)
    (certificate : List ℕ)
    → Ensures (ClientReady certificate) (
        set_up_client
          (record {
            global_init = global_init;
            allocate_credentials = allocate_credentials;
            set_key = set_key;
            set_trust = set_trust;
            init = init;
            priority = priority;
            configure = configure;
            credentials_set = credentials_set;
            alpn = alpn;
            name = name;
            random = random;
            conn_new = conn_new;
          })
          certificate
          new_transport)
unfolding set_up_client
client_answers (some x) y1 y2 y3 y4 y5 y6 y7 y8 y9 y10 z certificate = refl
client_answers none (some x) y2 y3 y4 y5 y6 y7 y8 y9 y10 z certificate = refl
client_answers none none (some x) y3 y4 y5 y6 y7 y8 y9 y10 z certificate = refl
client_answers none none none (some x) y4 y5 y6 y7 y8 y9 y10 z certificate = refl
client_answers none none none none (some x) y5 y6 y7 y8 y9 y10 z certificate = refl
client_answers none none none none none (some x) y6 y7 y8 y9 y10 z certificate = refl
client_answers none none none none none none (some x) y7 y8 y9 y10 z certificate = refl
client_answers none none none none none none none (some x) y8 y9 y10 z certificate = refl
client_answers none none none none none none none none (some x) y9 y10 z certificate = refl
client_answers none none none none none none none none none (some x) y10 z certificate = refl
client_answers none none none none none none none none none none (some x) z certificate = refl
client_answers none none none none none none none none none none none z certificate =
    ((refl, refl, refl, refl, refl, refl), refl, refl, refl)

server_answers :
    (random global_init allocate_credentials set_key init priority configure credentials_set alpn
      conn_new set_trust name : Option ℕ)
    (certificate key original : List ℕ)
    → Ensures (ServerReady certificate key) (
        set_up_server
          (record {
            global_init = global_init;
            allocate_credentials = allocate_credentials;
            set_key = set_key;
            set_trust = set_trust;
            init = init;
            priority = priority;
            configure = configure;
            credentials_set = credentials_set;
            alpn = alpn;
            name = name;
            random = random;
            conn_new = conn_new;
          })
          certificate
          key
          original
          new_transport)
unfolding set_up_server
server_answers (some x) y1 y2 y3 y4 y5 y6 y7 y8 y9 z w certificate key original = refl
server_answers none (some x) y2 y3 y4 y5 y6 y7 y8 y9 z w certificate key original = refl
server_answers none none (some x) y3 y4 y5 y6 y7 y8 y9 z w certificate key original = refl
server_answers none none none (some x) y4 y5 y6 y7 y8 y9 z w certificate key original = refl
server_answers none none none none (some x) y5 y6 y7 y8 y9 z w certificate key original = refl
server_answers none none none none none (some x) y6 y7 y8 y9 z w certificate key original = refl
server_answers none none none none none none (some x) y7 y8 y9 z w certificate key original = refl
server_answers none none none none none none none (some x) y8 y9 z w certificate key original = refl
server_answers none none none none none none none none (some x) y9 z w certificate key original =
    refl
server_answers none none none none none none none none none (some x) z w certificate key original =
    refl
server_answers none none none none none none none none none none z w certificate key original =
    ((refl, refl, refl, refl, refl, refl), refl, refl, refl)

-- Whatever gnutls and ngtcp2 answer: a client that was set up with success trusts the pinned
-- certificate, checks the server's name and has a TLS session with the protocol's name under its
-- connection; a server has its key pair and insists on the protocol's name. Wherever a call fails, the
-- transport has what was allocated and not freed.
set_up-Ensures :
    (a : Answers) (certificate key original : List ℕ)
    → Ensures (ClientReady certificate) (set_up_client a certificate new_transport)
      × Ensures
          (ServerReady certificate key)
          (set_up_server a certificate key original new_transport)
set_up-Ensures a certificate key original = (
  client_answers a.global_init a.allocate_credentials a.set_trust a.init a.priority a.configure
      a.credentials_set a.alpn a.name a.random a.conn_new a.set_key certificate,
  server_answers a.random a.global_init a.allocate_credentials a.set_key a.init a.priority
      a.configure a.credentials_set a.alpn a.conn_new a.set_trust a.name certificate key original,
)

Ensures-Owns :
    (Ready : Transport → Type 0) (r : Transport × Result Error (Unit {0}))
    → ((t : Transport) → Ready t → Owns t)
    → Ensures Ready r
    → Owns r.0
Ensures-Owns Ready (t, ok u) h e = h t e
Ensures-Owns Ready (t, err f) h e = e

none_left : (t : Transport) → Owns t → (release_resources t).allocated ≡ (release_resources t).freed
unfolding release_resources
none_left t v = omega (arith, v)

released_again :
    (t : Transport) → (release_resources (release_resources t)).freed ≡ (release_resources t).freed
unfolding release_resources
released_again t = omega arith

-- Whatever gnutls and ngtcp2 answer, and wherever the set-up of a client or a server ended: releasing
-- the transport frees everything that was allocated, and releasing it again frees nothing.
pub set_up-released :
    (a : Answers) (certificate key original : List ℕ)
    → let c = release_resources (set_up_client a certificate new_transport).0 in
      let s = release_resources (set_up_server a certificate key original new_transport).0 in
      (c.allocated ≡ c.freed)
      × (s.allocated ≡ s.freed)
      × ((release_resources c).freed ≡ c.freed)
      × ((release_resources s).freed ≡ s.freed)
set_up-released a certificate key original =
    let (c, s) = set_up-Ensures a certificate key original in
    let t = (set_up_client a certificate new_transport).0 in
    let u = (set_up_server a certificate key original new_transport).0 in
    (
      none_left t (
          Ensures-Owns (ClientReady certificate) (set_up_client a certificate new_transport)
            (λ t v. v.3) c),
      none_left u (
          Ensures-Owns (ServerReady certificate key)
            (set_up_server a certificate key original new_transport) (λ t v. v.3) s),
      released_again t,
      released_again u,
    )
