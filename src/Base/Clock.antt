-- ===== src/Base/Clock.antt =====
-- Go's time as natural numbers: an instant is in nanoseconds since the Unix epoch, a duration in
-- nanoseconds. `now.Sub(t) >= d` is `since now t d`; durations of the modelled code are not
-- negative (options are validated to be positive), so no sign is lost.
use Prim.Native.Nat.{ℕ, ◌+◌, ◌*◌, ◌/◌}
use mathlib.Core.Bool.{Bool}
use ipsupport_airllm.Base.Tests.{leb}

abbrev pub Time : Type 0
Time = ℕ

abbrev pub Duration : Type 0
Duration = ℕ

abbrev pub millisecond : Duration
millisecond = 1_000_000

abbrev pub second : Duration
second = 1_000_000_000

abbrev pub minute : Duration
minute = 60_000_000_000

-- `t.UnixMilli()`
abbrev pub unix_milli : Time → ℕ
unix_milli t = t / 1_000_000

-- `time.UnixMilli(ms)`
abbrev pub from_milli : ℕ → Time
from_milli ms = ms * 1_000_000

-- `d.Milliseconds()`
abbrev pub milliseconds : Duration → ℕ
milliseconds d = d / 1_000_000

-- `now.Sub(t) >= d`
abbrev pub since : Time → Time → Duration → Bool
since now t d = leb (t + d) now
