-- ===== src/Base/Faults.antt =====
-- The result of code that may be undefined: `fault` is a read through a null or a protected
-- pointer, an access out of range, a failed assertion, or an exception that nothing catches.
use Prim.Native.Nat.{ℕ, ◌+◌, ◌≤◌}
use mathlib.Core.List.{List, ◌++◌}
use mathlib.Core.Option.{Option, none, some}
use mathlib.Core.Path.{◌≡◌, refl, ap}
use native.Mathlib.Nat.{zero-add}
use cscrypto.Base.Tests.{leb, if◌then◌else◌, le→leb}
use mathlib.Core.List.{append-nil}
use native.Mathlib.Omega.{arith}
use cscrypto.Base.Lists.{
  length, get_elem?, take, drop, length-append, take-append, drop_all, take-append_at,
  drop-append_at, drop-add,
}

pub data Outcome {ℓ} (A : Type ℓ) : Type ℓ where
  ok : A → Outcome A
  fault : Outcome A

infixl 5 ◌>>=◌ ◌>>◌
abbrev pub ◌>>=◌ {ℓ κ} : {A : Type ℓ} {B : Type κ} → Outcome A → (A → Outcome B) → Outcome B
ok a >>= f = f a
fault >>= f = fault

abbrev pub ◌>>◌ {ℓ κ} : {A : Type ℓ} {B : Type κ} → Outcome A → Outcome B → Outcome B
m >> k = m >>= λ _. k

abbrev pub from_option {ℓ} : {A : Type ℓ} → Option A → Outcome A
from_option none = fault
from_option (some a) = ok a

-- `xs[i]`
abbrev pub read {ℓ} : {A : Type ℓ} → List A → ℕ → Outcome A
read xs i = from_option (get_elem? xs i)

-- `std::copy(src.begin(), src.end(), buf.begin() + off)`
unfoldable pub copy_to {ℓ} : {A : Type ℓ} → List A → ℕ → List A → Outcome (List A)
copy_to buf off src =
    if leb (off + length src) (length buf)
    then ok (take off buf ++ (src ++ drop (off + length src) buf))
    else fault

-- `std::copy` over the whole of a buffer's first part.
pub copy_to-append {ℓ} :
    {A : Type ℓ} (buf src : List A)
    → length src ≤ length buf
    → copy_to buf 0 src ≡ ok (src ++ drop (length src) buf)
unfolding copy_to
copy_to-append buf src h = rw zero-add (rw (le→leb _ _ h))

-- `std::copy` over exactly what is left of the buffer behind `xs`.
pub copy_to-end {ℓ} :
    {A : Type ℓ} (xs rest src : List A)
    → length rest ≡ length src
    → copy_to (xs ++ rest) (length xs) src ≡ ok (xs ++ src)
unfolding copy_to
copy_to-end xs rest src h = rw (
  le→leb (length xs + length src) (length (xs ++ rest)) (omega (arith, length-append xs rest)),
  take-append xs rest,
  drop_all (length xs + length src) (xs ++ rest) (omega (arith, length-append xs rest)),
  append-nil src,
)

-- `std::copy` to the place behind `xs`.
pub copy_to-middle {ℓ} :
    {A : Type ℓ} (n : ℕ) (xs rest src : List A)
    → length xs ≡ n
    → length src ≤ length rest
    → copy_to (xs ++ rest) n src ≡ ok (xs ++ (src ++ drop (length src) rest))
unfolding copy_to
copy_to-middle n xs rest src e h =
    rw
      (
        le→leb (n + length src) (length (xs ++ rest)) (omega (arith, length-append xs rest)),
        take-append_at n xs rest e,
        drop-add n (length src) (xs ++ rest),
        drop-append_at n xs rest e,
      )
      refl

unfoldable pub ok_or {ℓ} : {A : Type ℓ} → A → Outcome A → A
ok_or a (ok b) = b
ok_or a fault = a

pub ok_injective {ℓ} : {A : Type ℓ} {a b : A} → ok a ≡ ok b → a ≡ b
unfolding ok_or
ok_injective {a} e = ap (ok_or a) e
