-- ===== src/Base/Outcomes.antt =====
-- What a call ends with: a value, a Rust panic, or undefined behaviour (an access through a raw
-- pointer that the source does not check and that is out of bounds or freed, or an unsafe call
-- outside its contract).
use mathlib.Core.Path.{◌≡◌, refl, subst}
use onlyio.Base.Tests.{if◌then◌else◌}
use mathlib.Core.Bool.{Bool, true, false}
use mathlib.Core.Option.{Option, none, some}

pub data Panic : Type 0 where
  add_overflow sub_overflow assert_failed expect_none explicit unreachable : Panic

pub data Outcome {ℓ} (A : Type ℓ) : Type ℓ where
  ok : A → Outcome A
  panics : Panic → Outcome A
  undefined : Outcome A

infixl 5 ◌>>=◌ ◌>>◌
abbrev pub ◌>>=◌ {ℓ κ} : {A : Type ℓ} {B : Type κ} → Outcome A → (A → Outcome B) → Outcome B
ok a >>= f = f a
panics p >>= f = panics p
undefined >>= f = undefined

abbrev pub ◌>>◌ {ℓ} : {B : Type ℓ} → Outcome (Unit {0}) → Outcome B → Outcome B
m >> k = m >>= λ _. k

-- `assert!(b)`, `debug_assert!(b)` and the like
abbrev pub assert : Bool → Panic → Outcome (Unit {0})
assert true p = ok tt
assert false p = panics p

-- `.expect(...)` and an index with a bounds check
abbrev pub expect {ℓ} : {A : Type ℓ} → Option A → Panic → Outcome A
expect (some a) p = ok a
expect none p = panics p

-- An access through a raw pointer.
abbrev pub deref {ℓ} : {A : Type ℓ} → Option A → Outcome A
deref (some a) = ok a
deref none = undefined

-- The call does not end in undefined behaviour, and what it returns, if it does not panic, satisfies
-- `P`.
pub data Ensures {ℓ} {A : Type ℓ} (P : A → Type 0) : Outcome A → Type ℓ where
  returns : {a : A} → P a → Ensures P (ok a)
  stops : {p : Panic} → Ensures P (panics p)

pub Ensures-bind :
    {A B : Type 0} {P : A → Type 0} {Q : B → Type 0} {m : Outcome A} {f : A → Outcome B}
    → Ensures P m
    → ((a : A) → P a → Ensures Q (f a))
    → Ensures Q (m >>= f)
Ensures-bind (returns h) k = k _ h
Ensures-bind stops k = stops

pub Ensures-map :
    {A : Type 0} {P Q : A → Type 0} {m : Outcome A}
    → Ensures P m
    → ((a : A) → P a → Q a)
    → Ensures Q m
Ensures-map (returns h) k = returns (k _ h)
Ensures-map stops k = stops

pub Ensures-ok :
    {A : Type 0} {P : A → Type 0} {m : Outcome A} {a : A} → Ensures P m → m ≡ ok a → P a
Ensures-ok {P} (returns h) e = subst P (cc) h
Ensures-ok stops e = absurd (cc)

-- Not undefined, whatever it returns
abbrev pub Defined : {A : Type 0} → Outcome A → Type 0
Defined m = Ensures (λ _. Unit {0}) m

pub Defined-bind :
    {A B : Type 0} {m : Outcome A} {f : A → Outcome B}
    → Defined m
    → ((a : A) → Defined (f a))
    → Defined (m >>= f)
Defined-bind h k = Ensures-bind h λ a u. k a

pub Defined-ok : {A : Type 0} {a : A} → Defined (ok a)
Defined-ok = returns tt

pub Defined-expect : {A : Type 0} (a : Option A) (p : Panic) → Defined (expect a p)
Defined-expect (some a) p = returns tt
Defined-expect none p = stops

pub Defined-assert : (b : Bool) (p : Panic) → Defined (assert b p)
Defined-assert true p = returns tt
Defined-assert false p = stops

pub Ensures-assert :
    {B : Type 0} {Q : B → Type 0} {m : Outcome B} (b : Bool) (p : Panic)
    → Ensures Q m
    → Ensures Q (assert b p >> m)
Ensures-assert true p h = h
Ensures-assert false p h = stops

pub Ensures-self : {A : Type 0} {m : Outcome A} → Defined m → Ensures (λ a. m ≡ ok a) m
Ensures-self (returns u) = returns refl
Ensures-self stops = stops

pub Ensures-if :
    {A : Type 0} {Q : A → Type 0} {m n : Outcome A} (b : Bool)
    → Ensures Q m
    → Ensures Q n
    → Ensures Q (if b then m else n)
Ensures-if true h k = h
Ensures-if false h k = k
