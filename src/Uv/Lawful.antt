-- ===== src/Uv/Lawful.antt =====
-- What libuv documents of the handles of a loop, and what that means for the destructor of the loop.
use gossip_net.Prelude.{
  ℕ, ◌≡◌, refl, ap, ◌∙◌, inl, inr, true, false, List, [], ◌∷◌, arith, Bytes, Bool-cases,
}
use gossip_net.Outcome.{ok, fault, use_after_free}
use gossip_net.Uv.{Libuv, Machine, is_zero, is_live, handle_close}
use gossip_net.Uv.Make.{close_all, close_rest, release_loop, delete_loop}

-- A handle that was initialised is one that `uv_walk` visits, until it is closed, and no other call
-- changes those; a loop is closed only if it has none, and then it is.
pub record IsLibuv {W : Type 0} (uv : Libuv W) : Type 0 where
  pub loop_init_ok : (w : W) → is_zero (uv.loop_init w).0 ≡ true → uv.walked (uv.loop_init w).1 ≡ []
  pub udp_init_ok :
      (h : ℕ) (w : W)
      → is_zero (uv.udp_init h w).0 ≡ true
      → uv.walked (uv.udp_init h w).1 ≡ h ∷ uv.walked w
  pub udp_init_fails :
      (h : ℕ) (w : W)
      → is_zero (uv.udp_init h w).0 ≡ false
      → uv.walked (uv.udp_init h w).1 ≡ uv.walked w
  pub udp_bind_keeps : (h : ℕ) (a : Bytes) (w : W) → uv.walked (uv.udp_bind h a w).1 ≡ uv.walked w
  pub async_init_ok :
      (h c : ℕ) (w : W)
      → is_zero (uv.async_init h c w).0 ≡ true
      → uv.walked (uv.async_init h c w).1 ≡ h ∷ uv.walked w
  pub async_init_fails :
      (h c : ℕ) (w : W)
      → is_zero (uv.async_init h c w).0 ≡ false
      → uv.walked (uv.async_init h c w).1 ≡ uv.walked w
  pub loop_close_ok : (w : W) → uv.walked w ≡ [] → is_zero (uv.loop_close w).0 ≡ true
  pub loop_close_busy :
      (w : W) (h : ℕ)
      → is_live h (uv.walked w) ≡ true
      → (is_zero (uv.loop_close w).0 ≡ false) × (uv.walked (uv.loop_close w).1 ≡ uv.walked w)

module _ {W : Type 0} (uv : Libuv W) where
  -- A handle among those to close whose memory is freed.
  close_all_freed :
      (h : ℕ) (hs : List ℕ) (m : Machine W)
      → is_live h hs ≡ true
      → is_live h m.live ≡ false
      → (close_all uv hs m).0 ≡ fault use_after_free
  unfolding close_all handle_close
  close_all_freed h [] m found freed = cc
  close_all_freed h (x ∷ xs) m found freed = elim (Bool-cases (is_live x m.live)) [
    | inr gone ↦ rw gone refl
    | inl here ↦
        let next : is_live h xs ≡ true = ground (arith, found, here, freed) in
        rw here (close_all_freed h xs (record m { world = uv.close x m.world }) next freed)
  ]

  close_rest_freed :
      (h : ℕ) (m : Machine W)
      → is_live h (uv.walked m.world) ≡ true
      → is_live h m.live ≡ false
      → (close_rest uv false m).0 ≡ fault use_after_free
  unfolding close_rest
  close_rest_freed h m listed freed = rw (close_all_freed h (uv.walked m.world) m listed freed) refl

  delete_loop_held : (m : Machine W) → m.has_loop ≡ true → delete_loop uv m ≡ release_loop uv m
  unfolding delete_loop
  delete_loop_held m loop = simp loop refl

  module _ (lawful : IsLibuv uv) where
    release_loop_freed :
        (h : ℕ) (m : Machine W)
        → is_live h (uv.walked m.world) ≡ true
        → is_live h m.live ≡ false
        → (release_loop uv m).0 ≡ fault use_after_free
    unfolding release_loop
    release_loop_freed h m listed freed =
        let (busy, kept) = lawful.loop_close_busy m.world h listed in
        let rest =
          close_rest_freed h (record m { world = (uv.loop_close m.world).1 }) (rw kept listed)
            freed in
        rw (busy, rest) refl

    release_loop_empty :
        (m : Machine W)
        → uv.walked m.world ≡ []
        → release_loop uv m
          ≡ (ok tt, record m { world = (uv.loop_close m.world).1; has_loop = false })
    unfolding release_loop close_rest
    release_loop_empty m none_open = rw (lawful.loop_close_ok m.world none_open) refl

    -- A handle that is still the loop's, in memory that is freed.
    pub delete_loop_freed :
        (h : ℕ) (m : Machine W)
        → m.has_loop ≡ true
        → is_live h (uv.walked m.world) ≡ true
        → is_live h m.live ≡ false
        → (delete_loop uv m).0 ≡ fault use_after_free
    delete_loop_freed h m loop listed freed =
        ap (λ r. r.0) (delete_loop_held m loop) ∙ release_loop_freed h m listed freed

    -- A loop with no handles.
    pub delete_loop_empty :
        (m : Machine W)
        → m.has_loop ≡ true
        → uv.walked m.world ≡ []
        → delete_loop uv m
          ≡ (ok tt, record m { world = (uv.loop_close m.world).1; has_loop = false })
    delete_loop_empty m loop none_open = delete_loop_held m loop ∙ release_loop_empty m none_open
