-- ===== src/Common/Duration.antt =====
-- `std::time::Duration`, in nanoseconds.
use Prim.Native.Nat.{ℕ, ◌*◌, ◌/◌, ◌%◌, ◌^◌, ◌<◌}
use mathlib.Core.Path.{◌≡◌}
use native.Mathlib.Omega.{arith}

abbrev pub from_millis : ℕ → ℕ
from_millis ms = ms * 1_000_000

-- `as_millis() as u64`: the milliseconds, cut to 64 bits.
abbrev pub millis_u64 : ℕ → ℕ
millis_u64 d = (d / 1_000_000) % 2 ^ 64

pub millis_u64-from_millis : (ms : ℕ) → ms < 2 ^ 64 → millis_u64 (from_millis ms) ≡ ms
millis_u64-from_millis ms h = omega arith
