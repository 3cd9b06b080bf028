-- ===== src/Start/Exits.antt =====
-- The status with which the process ends.
use nodedeploy_controller.Prelude.{ℕ, ◌≡◌, ◌⊎◌}
use nodedeploy_controller.Start.{Ended, exited, Runtime}
use nodedeploy_controller.Start.Order.{three_flags}

-- An action that exits with no codes but some.
record ExitsIn {W A : Type 0} (P : ℕ → Type 0) (m : W → Ended A × W) : Type 0 where
  at : (w : W) (n : ℕ) → (m w).0 ≡ exited n → P n

module _ {W : Type 0} (R : Runtime W) where
  -- The flags were parsed, and this ended the process.
  abbrev pub StoppedByFlags : ℕ → Type 0
  StoppedByFlags n = (v : W) × ((R.parse three_flags v).0 ≡ exited n)

  abbrev Allowed : ℕ → Type 0
  Allowed n = (n ≡ 1) ⊎ StoppedByFlags n
