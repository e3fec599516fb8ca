-- ===== src/Common/Time.antt =====
-- time.Time and time.Duration as numbers of nanoseconds.
use Prim.Native.Nat.{ℕ, ◌*◌}

abbrev pub millisecond : ℕ
millisecond = 1_000_000

abbrev pub second : ℕ
second = 1_000_000_000

abbrev pub minute : ℕ
minute = 60 * second

abbrev pub hour : ℕ
hour = 60 * minute
