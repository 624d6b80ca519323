-- ===== src/Uv/Unwind.antt =====
-- What calls of libuv leave of the program's memory.
use gossip_net.Prelude.{
  ℕ, inl, inr, Bool-cases, suc, ◌<◌, ◌≡◌, refl, Option, none, List, [], ◌∷◌, arith, Bytes, All,
}
use gossip_net.Outcome.{Outcome, ok, throws, fault}
use gossip_net.Outcome.Ends.{Survives}
use gossip_net.Exec.Triples.{Leads, Leads-bind}
use gossip_net.Exec.{Exec, ◌>>=◌, lift, gets}
use gossip_net.Decimal.Int.{ℤ}
use gossip_net.Uv.{
  Libuv, Machine, is_zero, require, is_ipv6, sock_addr, without, link_of, call, checked,
}

pub without_absent : (h : ℕ) (xs : List ℕ) → All (λ x. x < h) xs → without h xs ≡ xs
unfolding without
without_absent h [] a = refl
without_absent h (x ∷ xs) a = ground (arith, without_absent h xs a.1, a.0)

pub without-new : (h : ℕ) (xs : List ℕ) → All (λ x. x < h) xs → without h (h ∷ xs) ≡ xs
without-new h xs a = let e = without_absent h xs a in unfold without in ground (arith, e)

pub link_of_absent :
    (h : ℕ) (links : List (ℕ × Option ℕ)) → All (λ l. l.0 < h) links → link_of h links ≡ none
unfolding link_of
link_of_absent h [] a = refl
link_of_absent h (l ∷ links) a = ground (arith, link_of_absent h links a.1, a.0)

module _ {W : Type 0} where
  -- Nothing but libuv's own state has changed.
  pub record Still (a b : Machine W) : Type 0 where
    pub has_loop : b.has_loop ≡ a.has_loop
    pub live : b.live ≡ a.live
    pub next : b.next ≡ a.next
    pub links : b.links ≡ a.links

  -- A handle of its own address was allocated, with a pointer to its object.
  pub record Made (object : Option ℕ) (a : Machine W) (h : ℕ) (b : Machine W) : Type 0 where
    pub has_loop : b.has_loop ≡ a.has_loop
    pub address : h ≡ a.next
    pub live : b.live ≡ h ∷ a.live
    pub next : b.next ≡ suc a.next
    pub linked : link_of h b.links ≡ object

  -- All that was allocated is freed.
  pub record Unwound (a b : Machine W) : Type 0 where
    pub has_loop : b.has_loop ≡ a.has_loop
    pub live : b.live ≡ a.live

  -- Nothing stands at an address that is still to come.
  pub record IsFresh (m : Machine W) : Type 0 where
    pub live : All (λ x. x < m.next) m.live
    pub links : All (λ l. l.0 < m.next) m.links

  module _ (m : Machine W) where
    -- What changes nothing but libuv's own state, whatever it comes to.
    abbrev pub Uses : {A : Type 0} → Exec (Machine W) A → Type 0
    Uses x = Leads (Still m) (λ _. Still m) (Still m) x

    pub Uses-then :
        {A B : Type 0} (R : B → Machine W → Type 0) (x : Exec (Machine W) A)
        (f : A → Exec (Machine W) B)
        → Uses x
        → ((a : A) → Leads (Still m) R (Still m) (f a))
        → Leads (Still m) R (Still m) (x >>= f)
    Uses-then R x f h k = Leads-bind (Still m) (λ _. Still m) R (Still m) x f h k

    pub Uses-call : (f : W → ℤ × W) → Uses (call f)
    Uses-call f s h = record {
      has_loop = h.has_loop;
      live = h.live;
      next = h.next;
      links = h.links;
    }

    pub Uses-gets : {A : Type 0} (f : Machine W → A) → Uses (gets f)
    Uses-gets f s h = h

    pub Uses-lift : {A : Type 0} (r : Outcome A) → Survives r → Uses (lift r)
    Uses-lift (ok a) p s h = h
    Uses-lift (throws e) p s h = h
    Uses-lift (fault x) p s h = p

  module _ (uv : Libuv W) where
    pub require-Survives : (err : ℤ) (msg : Bytes) → Survives (require uv err msg)
    unfolding require
    require-Survives err msg = elim (Bool-cases (is_zero err)) [ inl e ↦ rw e tt | inr e ↦ rw e tt ]

    pub sock_addr-Survives : (ip : Bytes) (port : ℤ) → Survives (sock_addr uv ip port)
    unfolding sock_addr require
    sock_addr-Survives ip port = elim (Bool-cases (is_ipv6 ip)) [
      | inl e ↦ elim (Bool-cases (is_zero (uv.ip6_addr ip port).0)) [
        | inl z ↦ rw (e, z) tt
        | inr z ↦ rw (e, z) tt
      ]
      | inr e ↦ elim (Bool-cases (is_zero (uv.ip4_addr ip port).0)) [
        | inl z ↦ rw (e, z) tt
        | inr z ↦ rw (e, z) tt
      ]
    ]

    module _ (m : Machine W) where
      pub Uses-require : (err : ℤ) (msg : Bytes) → Uses m (lift (require uv err msg))
      Uses-require err msg = Uses-lift m (require uv err msg) (require-Survives err msg)

      pub Uses-checked : (f : W → ℤ × W) (msg : Bytes) → Uses m (checked uv f msg)
      unfolding checked
      Uses-checked f msg =
          Uses-then m (λ _. Still m) (call f) (λ err. lift (require uv err msg)) (Uses-call m f)
            (λ err. Uses-require err msg)
