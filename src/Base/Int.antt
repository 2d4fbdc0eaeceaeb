-- ===== src/Base/Int.antt =====
-- Signed integers over the native numbers, as far as the program's return codes need them, and
-- the steps of a 32-bit unsigned counter.
use Prim.Native.Nat.{ℕ, ◌+◌, ◌-◌, ◌%◌, ◌^◌, ◌<◌}
use mathlib.Core.Path.{◌≡◌}
use native.Mathlib.Omega.{arith}

-- `negsuc n` is -(n + 1).
pub data ℤ : Type 0 where
  pos : ℕ → ℤ
  negsuc : ℕ → ℤ

abbrev pub u32_mod : ℕ
u32_mod = 2 ^ 32

-- `++c` and `--c` on an `unsigned`
unfoldable pub inc32 : ℕ → ℕ
inc32 c = (c + 1) % u32_mod

unfoldable pub dec32 : ℕ → ℕ
dec32 c = (c + u32_mod - 1) % u32_mod

pub inc32_lem : (c : ℕ) → c + 1 < u32_mod → inc32 c ≡ c + 1
unfolding inc32
inc32_lem c h = omega arith

pub dec32_suc : (c : ℕ) → c < u32_mod → 0 < c → dec32 c ≡ c - 1
unfolding dec32
dec32_suc c h k = omega arith

pub dec32-inc32 : (c : ℕ) → c < u32_mod → dec32 (inc32 c) ≡ c
unfolding dec32 inc32
dec32-inc32 c h = omega arith
