-- ===== src/Exec/Runs.antt =====
-- What calls that pass a state on keep of it, whatever their outcome, and what holds of their value.
use gossip_net.Outcome.{Outcome, ok, throws, fault}
use gossip_net.Outcome.Ends.{Ends}
use gossip_net.Exec.{Exec, continue, ◌>>=◌, pure, lift, modify}

-- From a state with `P` the call comes back to one, does not run out of fuel, and a value that it
-- returns has `Q`.
abbrev pub Runs : {S A : Type 0} → (S → Type 0) → (A → Type 0) → Exec S A → Type 0
Runs {S} P Q m = (s : S) → P s → Ends Q (m s).0 × P (m s).1

-- What holds of every value.
abbrev pub Any : {A : Type 0} → A → Type 0
Any a = Unit

module _ {S A B : Type 0} (P : S → Type 0) (Q : A → Type 0) (R : B → Type 0) where
  pub Runs-continue :
      (r : Outcome A) (f : A → Exec S B) (s : S)
      → Ends Q r
      → P s
      → ((a : A) → Q a → Runs P R (f a))
      → Ends R (continue r f s).0 × P (continue r f s).1
  Runs-continue (ok a) f s q p k = k a q s p
  Runs-continue (throws e) f s q p k = (tt, p)
  Runs-continue (fault x) f s q p k = (q, p)

  pub Runs-bind :
      (m : Exec S A) (f : A → Exec S B)
      → Runs P Q m
      → ((a : A) → Q a → Runs P R (f a))
      → Runs P R (m >>= f)
  Runs-bind m f h k s p = Runs-continue (m s).0 f (m s).1 (h s p).0 (h s p).1 k

module _ {S A : Type 0} (P : S → Type 0) (Q : A → Type 0) where
  pub Runs-lift : (r : Outcome A) → Ends Q r → Runs P Q (lift r)
  Runs-lift r q s p = (q, p)

  pub Runs-pure : (a : A) → Q a → Runs P Q (pure a)
  Runs-pure a q s p = (q, p)

pub Runs-modify :
    {S : Type 0} (P : S → Type 0) (f : S → S) → ((s : S) → P s → P (f s)) → Runs P Any (modify f)
Runs-modify P f k s p = (tt, k s p)
