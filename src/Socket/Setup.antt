-- ===== src/Socket/Setup.antt =====
-- The setups of the handles of the UDP server, by the codes of libuv.
use gossip_net.Prelude.{ℕ, Option, suc, ◌≡◌, refl, true, false, ◌∷◌, Bytes, codes}
use gossip_net.Outcome.{ok, throws, Error}
use gossip_net.Decimal.Int.{ℤ}
use gossip_net.Uv.{
  Libuv, Machine, is_zero, require, uv_failure, SockAddr, sock_addr, addr, checked, without,
}
use gossip_net.Uv.Make.{UdpOptions, make_async, setup_async, bind_udp, setup_udp_server}

module _ {W : Type 0} (uv : Libuv W) where
  pub checked_ok :
      (f : W → ℤ × W) (msg : Bytes) (m : Machine W)
      → is_zero (f m.world).0 ≡ true
      → checked uv f msg m ≡ (ok tt, record m { world = (f m.world).1 })
  unfolding checked require
  checked_ok f msg m e = rw e refl

  pub checked_throws :
      (f : W → ℤ × W) (msg : Bytes) (m : Machine W)
      → is_zero (f m.world).0 ≡ false
      → checked uv f msg m
        ≡ (throws (uv_failure uv (f m.world).0 msg), record m { world = (f m.world).1 })
  unfolding checked require
  checked_throws f msg m e = rw e refl

  abbrev pub given : Machine W → Machine W
  given m = record m { live = m.next ∷ m.live; next = suc m.next }

  module _ (o : UdpOptions) (object : Option ℕ) (h : ℕ) (m : Machine W) where
    -- The loop behind `uv_udp_init`, and behind `uv_udp_bind`.
    abbrev pub inited : W
    inited = (uv.udp_init h m.world).1

    abbrev pub bound : SockAddr → ℤ × W
    bound a = uv.udp_bind h (addr a) inited

    pub setup_udp_fails :
        is_zero (uv.udp_init h m.world).0 ≡ false
        → (e : Error) × (setup_udp_server uv o object h m ≡ (throws e, record m { world = inited }))
    unfolding setup_udp_server
    setup_udp_fails z = (
      uv_failure uv (uv.udp_init h m.world).0 (codes "failed to initialize udp server"),
      rw (checked_throws (uv.udp_init h) (codes "failed to initialize udp server") m z) refl,
    )

    module _ (z : is_zero (uv.udp_init h m.world).0 ≡ true) where
      pub setup_udp_no_address :
          (e : Error)
          → sock_addr uv o.ip o.port ≡ throws e
          → setup_udp_server uv o object h m ≡ (throws e, record m { world = inited })
      unfolding setup_udp_server
      setup_udp_no_address e a =
          rw (checked_ok (uv.udp_init h) (codes "failed to initialize udp server") m z, a) refl

      pub setup_udp_unbound :
          (a : SockAddr)
          → sock_addr uv o.ip o.port ≡ ok a
          → is_zero (bound a).0 ≡ false
          → (e : Error) × (setup_udp_server uv o object h m
              ≡ (throws e, record m { world = (bound a).1 }))
      unfolding setup_udp_server bind_udp
      setup_udp_unbound a e b = (
        uv_failure uv (bound a).0 (codes "failed to bind to port"),
        rw
            (
              checked_ok (uv.udp_init h) (codes "failed to initialize udp server") m z,
              e,
              checked_throws (uv.udp_bind h (addr a)) (codes "failed to bind to port")
                  (record m { world = inited }) b,
            )
            refl,
      )

      pub setup_udp_ok :
          (a : SockAddr)
          → sock_addr uv o.ip o.port ≡ ok a
          → is_zero (bound a).0 ≡ true
          → setup_udp_server uv o object h m
            ≡ (ok tt, record m { world = (bound a).1; links = (h, object) ∷ m.links })
      unfolding setup_udp_server bind_udp
      setup_udp_ok a e b =
          rw
            (
              checked_ok (uv.udp_init h) (codes "failed to initialize udp server") m z,
              e,
              checked_ok (uv.udp_bind h (addr a)) (codes "failed to bind to port")
                  (record m { world = inited }) b,
            )
            refl

  module _ (c : ℕ) (object : Option ℕ) (m : Machine W) where
    pub make_async_fails :
        is_zero (uv.async_init m.next c m.world).0 ≡ false
        → (e : Error) × (make_async uv c object m ≡ (
          throws e,
          record m {
            world = (uv.async_init m.next c m.world).1;
            live = without m.next (m.next ∷ m.live);
            next = suc m.next;
          },
        ))
    unfolding make_async setup_async
    make_async_fails z = (
      uv_failure uv (uv.async_init m.next c m.world).0 (codes "failed to make uv async"),
      rw (checked_throws (uv.async_init m.next c) (codes "failed to make uv async") (given m) z)
          refl,
    )

    pub make_async_ok :
        is_zero (uv.async_init m.next c m.world).0 ≡ true
        → make_async uv c object m ≡ (
          ok m.next,
          record m {
            world = (uv.async_init m.next c m.world).1;
            live = m.next ∷ m.live;
            next = suc m.next;
            links = (m.next, object) ∷ m.links;
          },
        )
    unfolding make_async setup_async
    make_async_ok z =
        rw (checked_ok (uv.async_init m.next c) (codes "failed to make uv async") (given m) z) refl
