-- ===== src/Uv/Make.antt =====
-- The functions of uv_utils.cpp that make handles, and the destructor of the loop.
use gossip_net.Prelude.{
  ℕ, Bool, true, false, Option, none, some, List, [], ◌∷◌, Bytes, codes, if◌then◌else◌,
}
use gossip_net.Outcome.{ok, throws, reuseport_failed}
use gossip_net.Exec.{Exec, ◌>>=◌, ◌>>◌, pure, lift, gets, modify}
use gossip_net.Decimal.Int.{ℤ}
use gossip_net.Uv.{
  Libuv, Machine, is_zero, require, is_ipv6, SockAddr, sock_addr, addr, as_u64, call, call_void,
  checked, new, free, set_data, unwinding, handle_close,
}

pub record TcpOptions : Type 0 where
  pub ip : Bytes
  pub port : ℤ
  pub backlog : ℤ
  pub keepalive : ℤ
  pub nodelay : Bool

pub record UdpOptions : Type 0 where
  pub ip : Bytes
  pub port : ℤ

module _ {W : Type 0} where
  -- The `data` of a new handle is null already.
  unfoldable pub set_tcp_data : ℕ → Option ℕ → Exec (Machine W) (Unit {0})
  set_tcp_data h none = pure tt
  set_tcp_data h (some object) = set_data h (some object)

  unfoldable pub make_write : Option ℕ → Exec (Machine W) ℕ
  make_write object = do w ← new; set_data w object; pure w

module _ {W : Type 0} (uv : Libuv W) where
  -- The memory of the loop is freed if the call fails.
  unfoldable pub make_loop : Exec (Machine W) (Unit {0})
  make_loop = do
    checked uv uv.loop_init (codes "failed to make uv loop")
    modify (λ m. record m { has_loop = true })

  unfoldable pub setup_async : ℕ → Option ℕ → ℕ → Exec (Machine W) (Unit {0})
  setup_async callback object h = do
    checked uv (uv.async_init h callback) (codes "failed to make uv async")
    set_data h object

  unfoldable pub make_async : ℕ → Option ℕ → Exec (Machine W) ℕ
  unfolding setup_async
  make_async callback object = do
    h ← new
    unwinding (free h) (setup_async callback object h)
    pure h

  unfoldable pub setup_timer : ℕ → ℤ → ℤ → Option ℕ → ℕ → Exec (Machine W) (Unit {0})
  setup_timer callback timeout repeat object h = do
    checked uv (uv.timer_init h) (codes "failed to make uv timer")
    checked uv (uv.timer_start h callback (as_u64 timeout) (as_u64 repeat))
        (codes "failed to start uv timer")
    set_data h object

  unfoldable pub make_timer : ℕ → ℤ → ℤ → Option ℕ → Exec (Machine W) ℕ
  unfolding setup_timer
  make_timer callback timeout repeat object = do
    h ← new
    unwinding (free h) (setup_timer callback timeout repeat object h)
    pure h

  unfoldable pub enable_reuseport : ℕ → Exec (Machine W) (Unit {0})
  enable_reuseport server = do
    r ← gets (λ m. uv.fileno server m.world)
    lift (require uv r.0 (codes "failed to get underlying socket"))
    err ← call (uv.set_reuseport r.1)
    lift (if is_zero err then ok tt else throws reuseport_failed)

  unfoldable pub enable_nodelay : ℕ → Exec (Machine W) (Unit {0})
  enable_nodelay server = do
    checked uv (uv.tcp_nodelay server) (codes "failed to enable tcp nodelay")

  unfoldable pub bind_tcp : ℕ → SockAddr → Exec (Machine W) (Unit {0})
  bind_tcp server a = do checked uv (uv.tcp_bind server (addr a)) (codes "failed to bind to port")

  unfoldable pub bind_udp : ℕ → SockAddr → Exec (Machine W) (Unit {0})
  bind_udp server a = do checked uv (uv.udp_bind server (addr a)) (codes "failed to bind to port")

  -- `detail::make_tcp_server`: the code of `uv_tcp_init_ex` is not looked at.
  unfoldable pub new_tcp_server : Bool → Exec (Machine W) ℕ
  new_tcp_server ipv6 = do h ← new; call_void (uv.tcp_init_ex h ipv6); pure h

  unfoldable pub setup_tcp_server : TcpOptions → ℕ → Option ℕ → ℕ → Exec (Machine W) (Unit {0})
  unfolding enable_reuseport enable_nodelay bind_tcp set_tcp_data
  setup_tcp_server options on_connect object h = do
    enable_reuseport h
    (if options.nodelay then enable_nodelay h else pure tt)
    a ← lift (sock_addr uv options.ip options.port)
    bind_tcp h a
    checked uv (uv.listen h options.backlog on_connect) (codes "failed to listen to port")
    set_tcp_data h object

  unfoldable pub make_tcp_server : TcpOptions → ℕ → Option ℕ → Exec (Machine W) ℕ
  unfolding new_tcp_server setup_tcp_server
  make_tcp_server options on_connect object = do
    h ← new_tcp_server (is_ipv6 options.ip)
    unwinding (free h) (setup_tcp_server options on_connect object h)
    pure h

  -- The code of `uv_tcp_init` is not looked at.
  unfoldable pub make_tcp_client : Option ℕ → Exec (Machine W) ℕ
  make_tcp_client object = do h ← new; call_void (uv.tcp_init h); set_data h object; pure h

  unfoldable pub setup_udp_server : UdpOptions → Option ℕ → ℕ → Exec (Machine W) (Unit {0})
  unfolding bind_udp
  setup_udp_server options object h = do
    checked uv (uv.udp_init h) (codes "failed to initialize udp server")
    a ← lift (sock_addr uv options.ip options.port)
    bind_udp h a
    set_data h object

  unfoldable pub make_udp_server : UdpOptions → Option ℕ → Exec (Machine W) ℕ
  unfolding setup_udp_server
  make_udp_server options object = do
    h ← new
    unwinding (free h) (setup_udp_server options object h)
    pure h

  -- `uv_walk` with the callback that closes.
  unfoldable pub close_all : List ℕ → Exec (Machine W) (Unit {0})
  close_all [] = pure tt
  close_all (h ∷ hs) = handle_close uv h >> close_all hs

  -- What follows where the loop is closed at once, and where it is not.
  unfoldable pub close_rest : Bool → Exec (Machine W) (Unit {0})
  unfolding close_all
  close_rest true = pure tt
  close_rest false = do
    (λ m. close_all (uv.walked m.world) m)
    call_void uv.run
    err ← call uv.loop_close
    pure tt

  unfoldable pub release_loop : Exec (Machine W) (Unit {0})
  unfolding close_rest
  release_loop = do
    err ← call uv.loop_close
    close_rest (is_zero err)
    modify (λ m. record m { has_loop = false })

  -- The deleter of the loop.
  unfoldable pub delete_loop : Exec (Machine W) (Unit {0})
  unfolding release_loop
  delete_loop m = if m.has_loop then release_loop m else (ok tt, m)
