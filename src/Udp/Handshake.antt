-- ===== src/Udp/Handshake.antt =====
-- What the UDP login promises.
use monitor_system.Base.{
  ℕ, zero, suc, ◌<◌, ◌≤◌, ◌≡◌, refl, ap, ◌∙◌, List, [], ◌∷◌, ◌++◌, none, some, true, false, arith,
  take, length, ◌==◌, Exec, ok, stop, exits, ◌>>=◌,
}
use monitor_system.Message.{token_len, udp_res}
use monitor_system.Udp.{
  UdpServer, Request, UdpEvent, request, accept_udp, check_user, socket_create_udp, on_datagram,
  reply, watch, serve_request, udp_event, udp_deal_with, socket_connect_udp,
}

length-take_long : (n : ℕ) (d : List ℕ) → n ≤ length d → length (take n d) ≡ n
length-take_long zero d h = refl
length-take_long (suc n) [] h = absurd (omega arith)
length-take_long (suc n) (b ∷ d) h = ap suc (length-take_long n d (omega arith))

length-take_short : (n : ℕ) (d : List ℕ) → length d < n → length (take n d) < n
length-take_short zero d h = absurd (omega arith)
length-take_short (suc n) [] h = omega arith
length-take_short (suc n) (b ∷ d) h =
    let shorter = length-take_short n d (omega arith) in omega arith

bind_assoc :
    (x : Exec UdpServer) (f g : UdpServer → Exec UdpServer)
    → (x >>= λ t. f t >>= g) ≡ ((x >>= f) >>= g)
bind_assoc (ok t) f g = refl
bind_assoc (stop c) f g = refl

deal-append :
    (es fs : List UdpEvent) (s : UdpServer)
    → udp_deal_with s (es ++ fs) ≡ (udp_deal_with s es >>= λ t. udp_deal_with t fs)
unfolding udp_deal_with
deal-append [] fs s = refl
deal-append (e ∷ es) fs s =
    (λ i. udp_event s e >>= λ t. deal-append es fs t i)
    ∙ bind_assoc (udp_event s e) (λ t. udp_deal_with t es) (λ t. udp_deal_with t fs)

on_datagram-short :
    (s : UdpServer) (r : Request) (d : List ℕ)
    → length d < token_len
    → on_datagram s r (some d) ≡ (none, s)
unfolding on_datagram
on_datagram-short s r d short =
    let cut : (length (take token_len d) == token_len) ≡ false =
      let less = length-take_short token_len d short in ground arith in
    rw cut refl

on_datagram-long :
    (s : UdpServer) (r : Request) (d : List ℕ)
    → token_len ≤ length d
    → on_datagram s r (some d) ≡ reply s r (socket_create_udp r.socket r.bound s.open_fds)
unfolding on_datagram check_user
on_datagram-long s r d long =
    let full : (length (take token_len d) == token_len) ≡ true =
      let same = length-take_long token_len d long in ground arith in
    rw full refl

refused :
    (s : UdpServer) (r : Request) (d : List ℕ)
    → r.datagram ≡ some d
    → length d < token_len
    → serve_request s r ≡ stop exits
unfolding serve_request accept_udp
refused s r d given short =
    ap (λ o. watch r.watched (on_datagram s r o)) given
    ∙ ap (watch r.watched) (on_datagram-short s r d short)

-- A datagram of fewer than 20 bytes on the listening socket ends the server's process, whatever was
-- served before it without an exit, and whatever would come behind it.
pub short_datagram_exits :
    (s t : UdpServer) (es fs : List UdpEvent) (r : Request) (d : List ℕ)
    → udp_deal_with s es ≡ ok t
    → r.datagram ≡ some d
    → length d < token_len
    → udp_deal_with s (es ++ (request r ∷ fs)) ≡ stop exits
unfolding udp_deal_with udp_event
short_datagram_exits s t es fs r d served given short =
    deal-append es (request r ∷ fs) s
    ∙ ap (λ u. u >>= λ v. udp_deal_with v (request r ∷ fs)) served
    ∙ ap (λ u. u >>= λ v. udp_deal_with v fs) (refused t r d given short)

-- Any datagram of 20 bytes or more, whatever token it holds, logs its sender in if the system calls
-- succeed: the server watches a new socket and answers with a number, and the client that receives
-- that number has `socket_connect_udp` return its socket.
pub any_token_logs_in :
    (s : UdpServer) (d fds : List ℕ) (fd c : ℕ)
    → token_len ≤ length d
    → (t : UdpServer) × (n : ℕ) × (serve_request s (record {
      datagram = some d;
      socket = some fd;
      bound = true;
      sent = true;
      watched = true;
    })
        ≡ ok t)
      × (t.reactor ≡ fd ∷ s.reactor)
      × (t.open_fds ≡ fd ∷ s.open_fds)
      × (t.sent ≡ (fd, n) ∷ s.sent)
      × (socket_connect_udp fds
            (record { socket = some c; connected = true; ready = true; received = some n })
          ≡ (some c, c ∷ fds))
unfolding serve_request accept_udp socket_create_udp socket_connect_udp
any_token_logs_in s d fds fd c long =
    let r : Request = record {
      datagram = some d;
      socket = some fd;
      bound = true;
      sent = true;
      watched = true;
    } in
    (_, udp_res, ap (watch true) (on_datagram-long s r d long), refl, refl, refl, refl)
