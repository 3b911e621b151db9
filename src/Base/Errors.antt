-- ===== src/Base/Errors.antt =====
-- The error numbers that the code returns, negated, and a result that is a value or an error.
use Prim.Native.Nat.{ℕ}
use mathlib.Core.Path.{◌≡◌, refl, subst}
use mathlib.Core.Bool.{Bool, true, false}
use vpipe.Base.Tests.{if◌then◌else◌}

pub data Errno : Type 0 where
  einval enomem ebusy enodev efault eagain erestartsys enotty eopnotsupp : Errno
  -- an error number that a kernel interface hands to the driver
  other : ℕ → Errno

pub data Result {ℓ} (A : Type ℓ) : Type ℓ where
  ok : A → Result A
  err : Errno → Result A

pub ok_inj {ℓ} : {A : Type ℓ} {a b : A} → ok a ≡ ok b → a ≡ b
ok_inj h = cc

-- A return of 0.
abbrev pub done : Result (Unit {0})
done = ok tt

infixl 5 ◌>>=◌ ◌>>◌
abbrev pub ◌>>=◌ {ℓ κ} : {A : Type ℓ} {B : Type κ} → Result A → (A → Result B) → Result B
ok value >>= next = next value
err code >>= next = err code

abbrev pub ◌>>◌ {ℓ} : {B : Type ℓ} → Result (Unit {0}) → Result B → Result B
first >> second = first >>= λ _. second

-- The value of a result, if there is one, satisfies `P`.
abbrev pub AllOk {ℓ κ} : {A : Type ℓ} → (A → Type κ) → Result A → Type κ
AllOk P (ok a) = P a
AllOk P (err e) = Unit

pub AllOk-if {ℓ κ} :
    {A : Type ℓ} (P : A → Type κ) (x y : Result A) (b : Bool)
    → (b ≡ true → AllOk P x)
    → (b ≡ false → AllOk P y)
    → AllOk P (if b then x else y)
AllOk-if P x y true f g = f refl
AllOk-if P x y false f g = g refl

pub AllOk-ok {ℓ κ} :
    {A : Type ℓ} (P : A → Type κ) {r : Result A} {a : A} → AllOk P r → r ≡ ok a → P a
AllOk-ok P all e = subst (AllOk P) e all
