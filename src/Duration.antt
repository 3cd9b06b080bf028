-- ===== src/Duration.antt =====
-- `time.Duration` and `time.Time`: instants are nanoseconds since an epoch, and a duration is their
-- signed difference.
use nodedeploy_controller.Prelude.{ℕ, ◌-◌, ◌<◌, leb, if◌then◌else◌}

-- `negsuc n` is -(n + 1).
pub data ℤ : Type 0 where
  pos : ℕ → ℤ
  negsuc : ℕ → ℤ

-- `t.Sub(u)`
abbrev pub sub_ℕ : ℕ → ℕ → ℤ
sub_ℕ a b = if leb b a then pos (a - b) else negsuc (b - a - 1)

-- A duration that `RequeueAfter` heeds: controller-runtime takes only one that is greater than 0.
abbrev pub IsPositive : ℤ → Type 0
IsPositive (pos n) = 0 < n
IsPositive (negsuc n) = ⊥

-- `time.Minute`, in nanoseconds.
abbrev pub minute : ℕ
minute = 60000000000
