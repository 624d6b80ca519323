-- ===== src/Uv/Made.antt =====
-- The functions of uv_utils.cpp that make handles, and the memory that they leave, whatever the codes
-- of libuv are.
use gossip_net.Prelude.{
  ℕ, inl, inr, Bool-cases, suc, ◌≡◌, refl, ap, ◌∙◌, Bool, true, false, Option, some, none, ◌∷◌,
  arith, Bytes, codes, if◌then◌else◌,
}
use gossip_net.Outcome.{Outcome, ok, throws, fault, reuseport_failed}
use gossip_net.Exec.Triples.{Post, Leads}
use gossip_net.Exec.{Exec, continue, ◌>>=◌, ◌>>◌, pure, lift, gets}
use gossip_net.Decimal.Int.{ℤ}
use gossip_net.Uv.{
  Libuv, Machine, is_zero, require, is_ipv6, SockAddr, sock_addr, addr, as_u64, link_of, call, new,
  free, set_data, rethrown, checked, unwinding,
}
use gossip_net.Uv.Make.{
  TcpOptions, UdpOptions, make_async, setup_async, setup_timer, setup_tcp_server, setup_udp_server,
  make_timer, enable_reuseport, enable_nodelay, bind_tcp, bind_udp, new_tcp_server, set_tcp_data,
  make_tcp_server, make_udp_server,
}
use gossip_net.Uv.Unwind.{
  Still, Made, Unwound, IsFresh, Uses, Uses-then, Uses-lift, Uses-gets, Uses-require, Uses-checked,
  Uses-call, sock_addr-Survives, without-new, link_of_absent,
}

module _ {W : Type 0} where
  module _ (object : Option ℕ) (a : Machine W) (fresh : IsFresh a) where
    -- The state behind `make_unique`.
    abbrev pub given : Machine W
    given = record a { live = a.next ∷ a.live; next = suc a.next }

    released :
        (r : Outcome (Unit {0}) × Machine W)
        → Post (λ _. Made object a a.next) (Still given) r
        → Post (Made object a) (Unwound a) (
            continue
              (rethrown (free a.next) r).0
              (λ _ s. (ok a.next, s))
              (rethrown (free a.next) r).1)
    released (ok u, s) h = h
    released (throws e, s) h = record {
      has_loop = h.has_loop;
      live = rw h.live (without-new a.next a.live fresh.live);
    }
    released (fault x, s) h = h

    -- A handle that is set up is made, or freed where an exception leaves the setup.
    pub new-Made :
        (setup : ℕ → Exec (Machine W) (Unit {0}))
        → Leads (Still given) (λ _. Made object a a.next) (Still given) (setup a.next)
        → Post (Made object a) (Unwound a) ((new >>= λ h. unwinding (free h) (setup h) >> pure h) a)
    new-Made setup h =
        released (setup a.next given)
          (h given (record { has_loop = refl; live = refl; next = refl; links = refl }))

    pub set_data-Made :
        Leads (Still given) (λ _. Made object a a.next) (Still given) (set_data a.next object)
    unfolding link_of
    set_data-Made s e = record {
      has_loop = e.has_loop;
      address = refl;
      live = e.live;
      next = e.next;
      linked = ground arith;
    }

    -- A call whose code is looked at, in a setup.
    setup_then :
        (x k : Exec (Machine W) (Unit {0}))
        → Uses given x
        → Leads (Still given) (λ _. Made object a a.next) (Still given) k
        → Leads (Still given) (λ _. Made object a a.next) (Still given) (x >> k)
    setup_then x k h g = Uses-then given (λ _. Made object a a.next) x (λ _. k) h (λ _. g)

    -- The null pointer of a new handle is not set again.
    set_tcp_data-Made :
        (o : Option ℕ)
        → o ≡ object
        → Leads (Still given) (λ _. Made object a a.next) (Still given) (set_tcp_data a.next o)
    unfolding set_tcp_data link_of
    set_tcp_data-Made none e s h = record {
      has_loop = h.has_loop;
      address = refl;
      live = h.live;
      next = h.next;
      linked = ap (link_of a.next) h.links ∙ link_of_absent a.next a.links fresh.links ∙ e;
    }
    set_tcp_data-Made (some o) e s h = record {
      has_loop = h.has_loop;
      address = refl;
      live = h.live;
      next = h.next;
      linked = ground (arith, e);
    }

    module _ (uv : Libuv W) where
      pub make_async-Made :
          (callback : ℕ) → Post (Made object a) (Unwound a) (make_async uv callback object a)
      unfolding make_async setup_async
      make_async-Made callback = new-Made (setup_async uv callback object) (
          setup_then (checked uv (uv.async_init a.next callback) (codes "failed to make uv async"))
            (set_data a.next object)
            (Uses-checked uv given (uv.async_init a.next callback)
              (codes "failed to make uv async"))
            set_data-Made)

      make_timer-Made :
          (callback : ℕ) (timeout repeat : ℤ)
          → Post (Made object a) (Unwound a) (make_timer uv callback timeout repeat object a)
      unfolding make_timer setup_timer
      make_timer-Made callback timeout repeat =
          let start = uv.timer_start a.next callback (as_u64 timeout) (as_u64 repeat) in
          let started = checked uv start (codes "failed to start uv timer") in
          new-Made (setup_timer uv callback timeout repeat object) (
            setup_then (checked uv (uv.timer_init a.next) (codes "failed to make uv timer"))
              (started >> set_data a.next object)
              (Uses-checked uv given (uv.timer_init a.next) (codes "failed to make uv timer"))
              (setup_then started (set_data a.next object)
                (Uses-checked uv given start (codes "failed to start uv timer")) set_data-Made))

      Uses-bind_udp : (addr : SockAddr) → Uses given (bind_udp uv a.next addr)
      unfolding bind_udp
      Uses-bind_udp addr = Uses-checked uv given _ (codes "failed to bind to port")

      Uses-sock_addr : (ip : Bytes) (port : ℤ) → Uses given (lift (sock_addr uv ip port))
      Uses-sock_addr ip port =
          Uses-lift given (sock_addr uv ip port) (sock_addr-Survives uv ip port)

      pub make_udp_server-Made :
          (options : UdpOptions)
          → Post (Made object a) (Unwound a) (make_udp_server uv options object a)
      unfolding make_udp_server setup_udp_server
      make_udp_server-Made options =
          let init = checked uv (uv.udp_init a.next) (codes "failed to initialize udp server") in
          let set = set_data a.next object in
          let bound = λ (addr : SockAddr). bind_udp uv a.next addr >> set in
          let address = lift (sock_addr uv options.ip options.port) in
          new-Made (setup_udp_server uv options object) (
            setup_then init (address >>= bound)
              (Uses-checked uv given (uv.udp_init a.next) (codes "failed to initialize udp server"))
              (Uses-then given (λ _. Made object a a.next) address bound
                (Uses-sock_addr options.ip options.port)
                λ addr.
                  setup_then (bind_udp uv a.next addr) set (Uses-bind_udp addr) set_data-Made))

      Uses-enable_reuseport : Uses given (enable_reuseport uv a.next)
      unfolding enable_reuseport
      Uses-enable_reuseport =
          Uses-then given (λ _. Still given) (gets (λ m. uv.fileno a.next m.world)) _
            (Uses-gets given (λ m. uv.fileno a.next m.world))
            λ r.
              Uses-then given (λ _. Still given)
                (lift (require uv r.0 (codes "failed to get underlying socket"))) _
                (Uses-require uv given r.0 (codes "failed to get underlying socket"))
                λ _.
                  Uses-then given (λ _. Still given) (call (uv.set_reuseport r.1))
                    (λ err. lift (if is_zero err then ok tt else throws reuseport_failed))
                    (Uses-call given (uv.set_reuseport r.1))
                    λ err.
                      Uses-lift given (if is_zero err then ok tt else throws reuseport_failed)
                        (elim (Bool-cases (is_zero err)) [ inl e ↦ rw e tt | inr e ↦ rw e tt ])

      Uses-nodelay : (b : Bool) → Uses given (if b then enable_nodelay uv a.next else pure tt)
      unfolding enable_nodelay
      Uses-nodelay true =
          Uses-checked uv given (uv.tcp_nodelay a.next) (codes "failed to enable tcp nodelay")
      Uses-nodelay false = λ s h. h

      Uses-bind_tcp : (addr : SockAddr) → Uses given (bind_tcp uv a.next addr)
      unfolding bind_tcp
      Uses-bind_tcp addr = Uses-checked uv given _ (codes "failed to bind to port")

      setup_tcp_server-Made :
          (options : TcpOptions) (on_connect : ℕ)
          → Leads
              (Still given)
              (λ _. Made object a a.next)
              (Still given)
              (setup_tcp_server uv options on_connect object a.next)
      unfolding setup_tcp_server
      setup_tcp_server-Made options on_connect =
          let set = set_tcp_data a.next object in
          let listened =
            checked uv (uv.listen a.next options.backlog on_connect)
              (codes "failed to listen to port") in
          let bound = λ (addr : SockAddr). bind_tcp uv a.next addr >> (listened >> set) in
          let address = lift (sock_addr uv options.ip options.port) in
          let delay = if options.nodelay then enable_nodelay uv a.next else pure tt in
          setup_then (enable_reuseport uv a.next) (delay >> (address >>= bound))
            Uses-enable_reuseport
            (setup_then delay (address >>= bound) (Uses-nodelay options.nodelay) (
              Uses-then given (λ _. Made object a a.next) address bound
                (Uses-sock_addr options.ip options.port)
                λ addr.
                  setup_then (bind_tcp uv a.next addr) (listened >> set) (Uses-bind_tcp addr) (
                    setup_then listened set
                      (Uses-checked uv given (uv.listen a.next options.backlog on_connect)
                        (codes "failed to listen to port"))
                      (set_tcp_data-Made object refl))))

      make_tcp_server-Made :
          (options : TcpOptions) (on_connect : ℕ)
          → Post (Made object a) (Unwound a) (make_tcp_server uv options on_connect object a)
      unfolding make_tcp_server new_tcp_server
      make_tcp_server-Made options on_connect =
          let s = record given { world = uv.tcp_init_ex a.next (is_ipv6 options.ip) a.world } in
          released (setup_tcp_server uv options on_connect object a.next s) (
            setup_tcp_server-Made options on_connect s
              (record { has_loop = refl; live = refl; next = refl; links = refl }))

      -- Whatever codes libuv answers with, each of the four functions that make a handle either returns
      -- the address of one block that it has allocated, whose data is the given object, or throws with
      -- all freed that it had allocated; no other block is freed or allocated, and none of the four
      -- comes to a fault. Nothing stands at the next address yet.
      pub make-Made :
          (callback : ℕ) (timeout repeat : ℤ) (udp : UdpOptions) (tcp : TcpOptions)
          → Post (Made object a) (Unwound a) (make_async uv callback object a)
            × Post (Made object a) (Unwound a) (make_timer uv callback timeout repeat object a)
            × Post (Made object a) (Unwound a) (make_udp_server uv udp object a)
            × Post (Made object a) (Unwound a) (make_tcp_server uv tcp callback object a)
      make-Made callback timeout repeat udp tcp = (
        make_async-Made callback,
        make_timer-Made callback timeout repeat,
        make_udp_server-Made udp,
        make_tcp_server-Made tcp callback,
      )
