-- ===== src/Base/BigEndian.antt =====
-- `int.to_bytes(k, "big")` and `int.from_bytes(data, "big")`, for a number that fits.
use Prim.Native.Nat.{ℕ, zero, suc, ◌+◌, ◌*◌, ◌/◌, ◌%◌, ◌^◌, ◌≤◌, ◌<◌}
use mathlib.Core.Path.{◌≡◌, refl}
use mathlib.Core.List.{List, [], ◌∷◌, ◌++◌}
use native.Mathlib.Omega.{arith}
use native.Mathlib.Nat.{pow-suc}
use nano_ql.Base.Lists.{length, All, length-append, All-append}

abbrev pub Bytes : Type 0
Bytes = List ℕ

abbrev pub IsByte : ℕ → Type 0
IsByte b = b < 256

unfoldable pub to_be : ℕ → ℕ → Bytes
to_be zero n = []
to_be (suc k) n = to_be k (n / 256) ++ (n % 256) ∷ []

from_be_acc : ℕ → Bytes → ℕ
from_be_acc acc [] = acc
from_be_acc acc (b ∷ bs) = from_be_acc (acc * 256 + b) bs

unfoldable pub from_be : Bytes → ℕ
unfolding from_be_acc
from_be bs = from_be_acc 0 bs

pub length-to_be : (k n : ℕ) → length (to_be k n) ≡ k
unfolding to_be
length-to_be zero n = refl
length-to_be (suc k) n =
    omega (arith, length-append (to_be k (n / 256)) ((n % 256) ∷ []), length-to_be k (n / 256))

pub to_be-All : (k n : ℕ) → All IsByte (to_be k n)
unfolding to_be
to_be-All zero n = tt
to_be-All (suc k) n =
    All-append IsByte (to_be k (n / 256)) ((n % 256) ∷ []) (to_be-All k (n / 256)) (omega arith, tt)

from_be_acc-append :
    (acc : ℕ) (xs : Bytes) (b : ℕ) → from_be_acc acc (xs ++ b ∷ []) ≡ from_be_acc acc xs * 256 + b
unfolding from_be_acc
from_be_acc-append acc [] b = refl
from_be_acc-append acc (x ∷ xs) b = from_be_acc-append (acc * 256 + x) xs b

pub from_be-to_be : (k n : ℕ) → n < 256 ^ k → from_be (to_be k n) ≡ n
unfolding from_be to_be
from_be-to_be zero n h = omega arith
from_be-to_be (suc k) n h = omega (
  arith,
  from_be_acc-append 0 (to_be k (n / 256)) (n % 256),
  from_be-to_be k (n / 256) (omega (arith, pow-suc 256 k)),
)

-- A number of at most four bytes.
pub from_be_small : (bs : Bytes) → length bs ≤ 4 → All IsByte bs → from_be bs < 2 ^ 32
unfolding from_be from_be_acc
from_be_small [] few g = omega arith
from_be_small (a ∷ []) few g = omega (arith, g.0)
from_be_small (a ∷ b ∷ []) few g = omega (arith, g.0, g.1.0)
from_be_small (a ∷ b ∷ c ∷ []) few g = omega (arith, g.0, g.1.0, g.1.1.0)
from_be_small (a ∷ b ∷ c ∷ d ∷ []) few g = omega (arith, g.0, g.1.0, g.1.1.0, g.1.1.1.0)
from_be_small (a ∷ b ∷ c ∷ d ∷ e ∷ bs) few g = absurd (omega arith)
