-- ===== src/Exec/Triples.antt =====
-- Calls that pass a state on, by what holds before them, after their value, and after an exception.
use gossip_net.Outcome.{Outcome, ok, throws, fault}
use gossip_net.Exec.{Exec, continue, ◌>>=◌}

-- What a call comes to: a value and a state with `Q`, or an exception and a state with `E`.
abbrev pub Post : {S A : Type 0} → (A → S → Type 0) → (S → Type 0) → Outcome A × S → Type 0
Post Q E (ok a, s) = Q a s
Post Q E (throws e, s) = E s
Post Q E (fault x, s) = ⊥

abbrev pub Leads :
    {S A : Type 0} → (S → Type 0) → (A → S → Type 0) → (S → Type 0) → Exec S A → Type 0
Leads {S} P Q E m = (s : S) → P s → Post Q E (m s)

module _ {S A B : Type 0} (P : S → Type 0) (Q : A → S → Type 0) (R : B → S → Type 0)
    (E : S → Type 0) where
  Post-bind :
      (r : Outcome A × S) (f : A → Exec S B)
      → Post Q E r
      → ((a : A) → Leads (Q a) R E (f a))
      → Post R E (continue r.0 f r.1)
  Post-bind (ok a, s) f h k = k a s h
  Post-bind (throws e, s) f h k = h
  Post-bind (fault x, s) f h k = h

  pub Leads-bind :
      (m : Exec S A) (f : A → Exec S B)
      → Leads P Q E m
      → ((a : A) → Leads (Q a) R E (f a))
      → Leads P R E (m >>= f)
  Leads-bind m f h k s p = Post-bind (m s) f (h s p) k
