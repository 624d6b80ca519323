-- ===== src/Outcome/Ends.antt =====
-- Calls whose loops end before their fuel does, and what holds of their values.
use gossip_net.Prelude.{◌≡◌, refl, ◌⊎◌, inl, inr, Bool, true, false, if◌then◌else◌}
use gossip_net.Outcome.{Outcome, Error, ok, throws, fault, Fault, out_of_fuel, ◌>>=◌}

-- Not the fuel is at fault in an `endless` loop: none would be enough.
abbrev pub HasFuel : Fault → Type 0
HasFuel out_of_fuel = ⊥
HasFuel _ = Unit

-- The call does not run out of fuel, and a result that it returns satisfies `P`.
abbrev pub Ends : {A : Type 0} → (A → Type 0) → Outcome A → Type 0
Ends P (ok a) = P a
Ends P (throws e) = Unit
Ends P (fault x) = HasFuel x

-- The call comes back, with a value or an exception.
abbrev pub Survives : {A : Type 0} → Outcome A → Type 0
Survives (ok a) = Unit
Survives (throws e) = Unit
Survives (fault x) = ⊥

pub Survives-cases :
    {A : Type 0} (r : Outcome A)
    → Survives r
    → ((a : A) × (r ≡ ok a)) ⊎ ((e : Error) × (r ≡ throws e))
Survives-cases (ok a) h = inl (a, refl)
Survives-cases (throws e) h = inr (e, refl)
Survives-cases (fault x) h = elim h [ ]

pub Ends-bind :
    {A B : Type 0} (P : A → Type 0) (Q : B → Type 0) (m : Outcome A) (f : A → Outcome B)
    → Ends P m
    → ((a : A) → P a → Ends Q (f a))
    → Ends Q (m >>= f)
Ends-bind P Q (ok a) f h k = k a h
Ends-bind P Q (throws e) f h k = tt
Ends-bind P Q (fault x) f h k = h

pub Ends-if :
    {A : Type 0} (P : A → Type 0) (b : Bool) (m n : Outcome A)
    → (b ≡ true → Ends P m)
    → (b ≡ false → Ends P n)
    → Ends P (if b then m else n)
Ends-if P true m n h k = h refl
Ends-if P false m n h k = k refl

pub Ends-map :
    {A : Type 0} (P Q : A → Type 0) (m : Outcome A)
    → Ends P m
    → ((a : A) → P a → Ends Q (ok a))
    → Ends Q m
Ends-map P Q (ok a) h k = k a h
Ends-map P Q (throws e) h k = tt
Ends-map P Q (fault x) h k = h
