-- ===== src/Exec/Keeps.antt =====
-- What calls that pass a state on keep of it, and what holds of a value if they return one.
use gossip_net.Outcome.{Outcome, ok, throws, fault}
use gossip_net.Exec.{Exec, continue, ◌>>=◌, lift}

-- A value, if there is one, has `Q`.
abbrev pub Yields : {A : Type 0} → (A → Type 0) → Outcome A → Type 0
Yields Q (ok a) = Q a
Yields Q (throws e) = Unit
Yields Q (fault x) = Unit

-- What holds of every value.
abbrev pub Anything : {A : Type 0} → A → Type 0
Anything a = Unit

pub Yields-any : {A : Type 0} (r : Outcome A) → Yields Anything r
Yields-any (ok a) = tt
Yields-any (throws e) = tt
Yields-any (fault x) = tt

abbrev pub Keeps : {S A : Type 0} → (S → Type 0) → (A → Type 0) → Exec S A → Type 0
Keeps {S} P Q m = (s : S) → P s → Yields Q (m s).0 × P (m s).1

module _ {S A B : Type 0} (P : S → Type 0) (Q : A → Type 0) (R : B → Type 0) where
  pub Keeps-continue :
      (r : Outcome A) (f : A → Exec S B) (s : S)
      → Yields Q r
      → P s
      → ((a : A) → Q a → Keeps P R (f a))
      → Yields R (continue r f s).0 × P (continue r f s).1
  Keeps-continue (ok a) f s q p k = k a q s p
  Keeps-continue (throws e) f s q p k = (tt, p)
  Keeps-continue (fault x) f s q p k = (tt, p)

  pub Keeps-bind :
      (m : Exec S A) (f : A → Exec S B)
      → Keeps P Q m
      → ((a : A) → Q a → Keeps P R (f a))
      → Keeps P R (m >>= f)
  Keeps-bind m f h k s p = Keeps-continue (m s).0 f (m s).1 (h s p).0 (h s p).1 k

pub Keeps-lift :
    {S A : Type 0} (P : S → Type 0) (Q : A → Type 0) (r : Outcome A)
    → Yields Q r
    → Keeps P Q (lift r)
Keeps-lift P Q r q s p = (q, p)
