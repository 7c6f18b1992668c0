-- ===== src/Prelude/Bytes.antt =====
-- Machine integers in memory: little-endian bytes, as memcpy and fwrite see them.
use Prim.Native.Nat.{ℕ, zero, suc, ◌+◌, ◌*◌, ◌/◌, ◌%◌, ◌^◌, ◌<◌}
use mathlib.Core.Path.{◌≡◌, refl, ap}
use mathlib.Core.List.{List, [], ◌∷◌}
use native.Mathlib.Omega.{arith}
use cse511_lab.Prelude.Lists.{length}

unfoldable pub to_bytes : ℕ → ℕ → List ℕ
to_bytes zero n = []
to_bytes (suc w) n = n % 256 ∷ to_bytes w (n / 256)

unfoldable pub of_bytes : List ℕ → ℕ
of_bytes [] = 0
of_bytes (b ∷ bs) = b + 256 * of_bytes bs

pub length-to_bytes : (w n : ℕ) → length (to_bytes w n) ≡ w
unfolding to_bytes
length-to_bytes zero n = refl
length-to_bytes (suc w) n = ap suc (length-to_bytes w (n / 256))

pub of_bytes-to_bytes : (w n : ℕ) → n < 256 ^ w → of_bytes (to_bytes w n) ≡ n
unfolding to_bytes of_bytes
of_bytes-to_bytes zero n h = omega arith
of_bytes-to_bytes (suc w) n h =
    let front : n / 256 < 256 ^ w = omega arith in
    omega (arith, of_bytes-to_bytes w (n / 256) front)
