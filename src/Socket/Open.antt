-- ===== src/Socket/Open.antt =====
-- The steps of the construction of the UDP server, by the outcomes of its handles.
use gossip_net.Prelude.{ℕ, Option, ◌≢◌, suc, ◌≡◌, refl, true, false, some, codes}
use gossip_net.Outcome.{ok, throws, Error}
use gossip_net.Exec.{continue}
use gossip_net.Decimal.Int.{ℤ}
use gossip_net.Uv.{
  Libuv, Machine, is_zero, is_live, uv_failure, SockAddr, sock_addr, without, link_of,
}
use gossip_net.Uv.Make.{
  UdpOptions, make_loop, make_async, setup_udp_server, make_udp_server, delete_loop,
}
use gossip_net.Socket.{UdpServerOptions, UdpServer, make_members, construct}
use gossip_net.Socket.Setup.{checked_ok, checked_throws, given, bound}

abbrev pub udp_opts : UdpServerOptions → UdpOptions
udp_opts opts = record { ip = opts.ip; port = opts.port }

module _ {W : Type 0} (uv : Libuv W) where
  abbrev pub opened : Machine W → Machine W
  opened m = record m { world = (uv.loop_init m.world).1; has_loop = true }

  make_loop_ok :
      (m : Machine W) → is_zero (uv.loop_init m.world).0 ≡ true → make_loop uv m ≡ (ok tt, opened m)
  unfolding make_loop
  make_loop_ok m e = rw (checked_ok uv uv.loop_init (codes "failed to make uv loop") m e) refl

  module _ (o : UdpOptions) (object : Option ℕ) (m s : Machine W) where
    pub make_udp_server_ok :
        setup_udp_server uv o object m.next (given uv m) ≡ (ok tt, s)
        → make_udp_server uv o object m ≡ (ok m.next, s)
    unfolding make_udp_server
    make_udp_server_ok e = rw e refl

    pub make_udp_server_throws :
        (e : Error)
        → setup_udp_server uv o object m.next (given uv m) ≡ (throws e, s)
        → make_udp_server uv o object m ≡ (throws e, record s { live = without m.next s.live })
    unfolding make_udp_server
    make_udp_server_throws e h = rw h refl

  -- What of the server stands once its constructor returns.
  pub record Stands (self : ℕ) (s : UdpServer) (m : Machine W) : Type 0 where
    pub has_loop : m.has_loop ≡ true
    pub open_server : is_live s.server (uv.walked m.world) ≡ true
    pub open_async : is_live s.async (uv.walked m.world) ≡ true
    pub live_server : is_live s.server m.live ≡ true
    pub live_async : is_live s.async m.live ≡ true
    pub server_linked : link_of s.server m.links ≡ some self
    pub async_linked : link_of s.async m.links ≡ some self
    pub distinct : s.server ≢ s.async

  module _ (on_event self : ℕ) (opts : UdpServerOptions) (m : Machine W) where
    pub members_refused :
        (e : Error) (s : Machine W)
        → make_udp_server uv (udp_opts opts) (some self) m ≡ (throws e, s)
        → make_members uv on_event self opts m ≡ (throws e, s)
    unfolding make_members
    members_refused e s h = rw h refl

    pub members_no_async :
        (e : Error) (server : ℕ) (s s' : Machine W)
        → make_udp_server uv (udp_opts opts) (some self) m ≡ (ok server, s)
        → make_async uv on_event (some self) s ≡ (throws e, s')
        → make_members uv on_event self opts m
          ≡ (throws e, record s' { live = without server s'.live })
    unfolding make_members
    members_no_async e server s s' h g = rw (h, g) refl

    pub members_ok :
        (server async : ℕ) (s s' : Machine W)
        → make_udp_server uv (udp_opts opts) (some self) m ≡ (ok server, s)
        → make_async uv on_event (some self) s ≡ (ok async, s')
        → make_members uv on_event self opts m
          ≡ (ok (record { server = server; async = async; buffer_size = opts.buffer_size }), s')
    unfolding make_members
    members_ok server async s s' h g = rw (h, g) refl

    pub construct_ok :
        (s : UdpServer) (m' : Machine W)
        → is_zero (uv.loop_init m.world).0 ≡ true
        → make_members uv on_event self opts (opened m) ≡ (ok s, m')
        → construct uv on_event self opts m ≡ (ok s, m')
    unfolding construct
    construct_ok s m' e h = rw (make_loop_ok m e, h) refl

    pub construct_throws :
        (e : Error) (m' : Machine W)
        → is_zero (uv.loop_init m.world).0 ≡ true
        → make_members uv on_event self opts (opened m) ≡ (throws e, m')
        → construct uv on_event self opts m
          ≡ continue (delete_loop uv m').0 (λ _ n. (throws e, n)) (delete_loop uv m').1
    unfolding construct
    construct_throws e m' l h = rw (make_loop_ok m l, h) refl

    pub construct_no_loop :
        is_zero (uv.loop_init m.world).0 ≡ false
        → (e : Error) × (construct uv on_event self opts m
            ≡ (throws e, record m { world = (uv.loop_init m.world).1 }))
    unfolding construct make_loop
    construct_no_loop z = (
      uv_failure uv (uv.loop_init m.world).0 (codes "failed to make uv loop"),
      rw (checked_throws uv uv.loop_init (codes "failed to make uv loop") m z) refl,
    )

  -- The loop after `uv_udp_bind`.
  abbrev pub bound_to : ℕ → UdpServerOptions → Machine W → SockAddr → ℤ × W
  bound_to self opts m a = bound uv (udp_opts opts) (some self) m.next (given uv (opened m)) a

  -- What a construction waits for, once the loop and the UDP handle are initialised: the address is
  -- read, the handle bound, and the other handle initialised.
  abbrev pub Accepts : ℕ → ℕ → UdpServerOptions → Machine W → Type 0
  Accepts on_event self opts m =
      (a : SockAddr) × (sock_addr uv opts.ip opts.port ≡ ok a)
      × (is_zero (bound_to self opts m a).0 ≡ true)
      × (is_zero (uv.async_init (suc m.next) on_event (bound_to self opts m a).1).0 ≡ true)

  -- An exception that leaves nothing of the server behind.
  abbrev pub Refused : ℕ → ℕ → UdpServerOptions → Machine W → Type 0
  Refused on_event self opts m =
      (e : Error) × (m' : Machine W) × (construct uv on_event self opts m ≡ (throws e, m'))
      × (m'.live ≡ m.live)
      × (m'.has_loop ≡ false)
