-- ===== src/Prelude/Bytes.antt =====
-- Bytes as numbers below 256: big-endian conversion, as `int.from_bytes` and `int.to_bytes` do it,
-- and a way to check a law for every value of a small range.
use Prim.Native.Nat.{ℕ, zero, suc, ◌+◌, ◌*◌, ◌/◌, ◌%◌, ◌^◌, ◌<◌}
use mathlib.Core.Path.{◌≡◌, refl}
use mathlib.Core.Bool.{Bool, true, ◌&&◌}
use mathlib.Core.List.{List, [], ◌∷◌, foldl}
use native.Mathlib.Omega.{arith}
use rfcvoip.Prelude.Lists.{All, length}

abbrev pub IsByte : ℕ → Type 0
IsByte b = b < 256

-- `int.from_bytes(bs, "big")`
abbrev pub from_bytes : List ℕ → ℕ
from_bytes = foldl (λ acc b. acc * 256 + b) 0

-- `v.to_bytes(n, "big")` of a value below `256 ^ n`
abbrev pub to_bytes : ℕ → ℕ → List ℕ
to_bytes zero v = []
to_bytes (suc n) v = (v / 256 ^ n % 256) ∷ to_bytes n v

pub length-to_bytes : (n v : ℕ) → length (to_bytes n v) ≡ n
length-to_bytes zero v = refl
length-to_bytes (suc n) v = omega (arith, length-to_bytes n v)

pub to_bytes-IsByte : (n v : ℕ) → All IsByte (to_bytes n v)
to_bytes-IsByte zero v = tt
to_bytes-IsByte (suc n) v = (omega arith, to_bytes-IsByte n v)

-- Whether a test holds for every number below a bound.
unfoldable pub every_below : (ℕ → Bool) → ℕ → Bool
every_below test zero = true
every_below test (suc bound) = every_below test bound && test bound

pub every_below_sound :
    (test : ℕ → Bool) (bound v : ℕ) → v < bound → every_below test bound ≡ true → test v ≡ true
unfolding every_below
every_below_sound test zero v within h = elim within [ ]
every_below_sound test (suc bound) v within h = ground (arith, every_below_sound test bound v)
