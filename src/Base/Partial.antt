-- ===== src/Base/Partial.antt =====
-- What a call returns, if it returns: the rules for partial correctness.
use mathlib.Core.Path.{◌≡◌, refl, subst}
use onlyio.Base.Tests.{if◌then◌else◌}
use mathlib.Core.Bool.{Bool, true, false}
use mathlib.Core.Option.{Option, none, some}
use onlyio.Base.Outcomes.{
  Outcome, ok, panics, undefined, Panic, assert, expect, deref, ◌>>=◌, ◌>>◌, Ensures,
  Ensures.returns, Ensures.stops,
}

-- Whatever the call returns satisfies `P`.
pub data Yields {ℓ} {A : Type ℓ} (P : A → Type 0) : Outcome A → Type ℓ where
  gives : {a : A} → P a → Yields P (ok a)
  fails : {p : Panic} → Yields P (panics p)
  breaks : Yields P undefined

pub Yields-bind :
    {A B : Type 0} {P : A → Type 0} {Q : B → Type 0} {m : Outcome A} {f : A → Outcome B}
    → Yields P m
    → ((a : A) → P a → Yields Q (f a))
    → Yields Q (m >>= f)
Yields-bind (gives h) k = k _ h
Yields-bind fails k = fails
Yields-bind breaks k = breaks

pub Yields-map :
    {A : Type 0} {P Q : A → Type 0} {m : Outcome A}
    → Yields P m
    → ((a : A) → P a → Q a)
    → Yields Q m
Yields-map (gives h) k = gives (k _ h)
Yields-map fails k = fails
Yields-map breaks k = breaks

pub Yields-ok : {A : Type 0} {P : A → Type 0} {m : Outcome A} {a : A} → Yields P m → m ≡ ok a → P a
Yields-ok {P} (gives h) e = subst P (cc) h
Yields-ok fails e = absurd (cc)
Yields-ok breaks e = absurd (cc)

pub Yields-self : {A : Type 0} (m : Outcome A) → Yields (λ a. m ≡ ok a) m
Yields-self (ok a) = gives refl
Yields-self (panics p) = fails
Yields-self undefined = breaks

pub Yields-assert :
    {B : Type 0} {Q : B → Type 0} {m : Outcome B} (b : Bool) (p : Panic)
    → Yields Q m
    → Yields Q (assert b p >> m)
Yields-assert true p h = h
Yields-assert false p h = fails

pub Yields-expect : {A : Type 0} (a : Option A) (p : Panic) → Yields (λ b. a ≡ some b) (expect a p)
Yields-expect (some a) p = gives refl
Yields-expect none p = fails

pub Yields-deref : {A : Type 0} (a : Option A) → Yields (λ b. a ≡ some b) (deref a)
Yields-deref (some a) = gives refl
Yields-deref none = breaks

pub Yields-if :
    {A : Type 0} {Q : A → Type 0} {m n : Outcome A} (b : Bool)
    → Yields Q m
    → Yields Q n
    → Yields Q (if b then m else n)
Yields-if true h k = h
Yields-if false h k = k

-- A call that does not end in undefined behaviour satisfies what it yields too.
pub Ensures-Yields :
    {A : Type 0} {P Q : A → Type 0} {m : Outcome A}
    → Ensures P m
    → Yields Q m
    → Ensures (λ a. P a × Q a) m
Ensures-Yields (returns h) (gives k) = returns (h, k)
Ensures-Yields stops fails = stops
