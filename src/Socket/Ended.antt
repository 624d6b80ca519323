-- ===== src/Socket/Ended.antt =====
-- The UDP server at its end: a construction that leaves nothing behind, and the destructor.
use gossip_net.Prelude.{ℕ, ◌≡◌, refl, ap, ◌∙◌, ◌⊎◌, inl, inr, true, false, some, ◌∷◌, Bool-cases}
use gossip_net.Outcome.{ok, throws}
use mathlib.Core.Path.{subst}
use gossip_net.Exec.{continue}
use gossip_net.Uv.{Libuv, Machine, is_zero, without}
use gossip_net.Uv.Lawful.{IsLibuv, delete_loop_empty}
use gossip_net.Uv.Unwind.{IsFresh, without-new}
use gossip_net.Socket.{UdpServerOptions, UdpServer, construct}
use gossip_net.Socket.Setup.{given, setup_udp_fails}
use gossip_net.Socket.Open.{
  Refused, Stands, opened, udp_opts, make_udp_server_throws, members_refused, construct_throws,
  construct_no_loop,
}
use gossip_net.Socket.Built.{construct-Stands}

module _ {W : Type 0} (uv : Libuv W) (lawful : IsLibuv uv) (on_event self : ℕ)
    (opts : UdpServerOptions) (m : Machine W) (fresh : IsFresh m) where
  no_handle :
      is_zero (uv.loop_init m.world).0 ≡ true
      → is_zero (uv.udp_init m.next (uv.loop_init m.world).1).0 ≡ false
      → Refused uv on_event self opts m
  no_handle l z =
      let o = udp_opts opts in
      let n = opened uv m in
      let w = (uv.udp_init m.next n.world).1 in
      let (e, setup) = setup_udp_fails uv o (some self) m.next (given uv n) z in
      let made =
        make_udp_server_throws uv o (some self) n (record (given uv n) { world = w }) e setup in
      let s = record (given uv n) { world = w; live = without m.next (m.next ∷ m.live) } in
      let none_open = lawful.udp_init_fails m.next n.world z ∙ lawful.loop_init_ok m.world l in
      (
        e,
        record s { world = (uv.loop_close w).1; has_loop = false },
        construct_throws uv on_event self opts m e s l
              (members_refused uv on_event self opts n e s made)
            ∙ ap (λ r. continue r.0 (λ _ n. (throws e, n)) r.1)
                (delete_loop_empty uv lawful s refl none_open),
        without-new m.next m.live fresh.live,
        refl,
      )

  -- If the loop or the UDP handle cannot be initialised, the constructor throws, and all that it has
  -- allocated is freed, the loop too. Before it there is no loop, nothing stands at the next address
  -- yet, and libuv keeps its list of handles as documented.
  pub construct-Refused :
      m.has_loop ≡ false
      → (is_zero (uv.loop_init m.world).0 ≡ false)
        ⊎ (is_zero (uv.udp_init m.next (uv.loop_init m.world).1).0 ≡ false)
      → Refused uv on_event self opts m
  construct-Refused free (inl l) =
      let (e, h) = construct_no_loop uv on_event self opts m l in (e, _, h, refl, free)
  construct-Refused free (inr z) = elim (Bool-cases (is_zero (uv.loop_init m.world).0)) [
    | inl l ↦ no_handle l z
    | inr l ↦ let (e, h) = construct_no_loop uv on_event self opts m l in (e, _, h, refl, free)
  ]

  Stands-same :
      (s s' : UdpServer) (n n' : Machine W)
      → construct uv on_event self opts m ≡ (ok s, n)
      → construct uv on_event self opts m ≡ (ok s', n')
      → Stands uv self s' n'
      → Stands uv self s n
  Stands-same s s' n n' h h' st =
      let e : s' ≡ s = cc in
      let f : n' ≡ n = cc in
      subst (λ (x : Machine W). Stands uv self s x) f
        (subst (λ (x : UdpServer). Stands uv self x n') e st)

  -- Every server that the constructor returns stands.
  pub construct_ok :
      (s : UdpServer) (n : Machine W)
      → construct uv on_event self opts m ≡ (ok s, n)
      → Stands uv self s n
  construct_ok s n h = elim (Bool-cases (is_zero (uv.loop_init m.world).0)) [
    | inr l ↦ let (e, g) = construct_no_loop uv on_event self opts m l in cc
    | inl l ↦ elim (Bool-cases (is_zero (uv.udp_init m.next (uv.loop_init m.world).1).0)) [
      | inr z ↦ let (e, n', g, _, _) = no_handle l z in cc
      | inl z ↦ elim (construct-Stands uv lawful on_event self opts m fresh l z) [
        | inr (_, f) ↦ let q = ap (λ r. r.0) h in cc
        | inl (_, s', n', g, st) ↦ Stands-same s s' n n' h g st
      ]
    ]
  ]
