-- ===== src/Progress.antt =====
-- pkg/nodemanager/progress.go: the counter that the status messages show.
pub mod Laws
pub mod Reading
use nodedeploy_controller.Prelude.{ℕ, zero, suc, ◌+◌, String, ◌<>◌, ltb, if◌then◌else◌, str_eq}
use nodedeploy_controller.Text.{decimal}

pub record Progress : Type 0 where
  pub i : ℕ
  pub sum : ℕ

-- `NewProgress`
unfoldable pub new_progress : ℕ → Progress
new_progress sum = record { i = 0; sum = sum }

-- `Progress.String`
unfoldable pub string : Progress → String
string p = decimal p.i <> "/" <> decimal p.sum

-- The receiver after `Progress.Add`, whose result is its `string`.
unfoldable pub add : Progress → Progress
add p = if ltb p.sum (p.i + 1) then record p { i = p.sum } else record p { i = p.i + 1 }

unfoldable pub reset : Progress → Progress
reset p = record p { i = 0 }

unfoldable pub default_port : String → String
default_port port = if str_eq port "" then "22" else port

-- The progress after `n` calls of `Add`.
unfoldable pub steps : ℕ → Progress → Progress
unfolding add
steps zero p = p
steps (suc n) p = add (steps n p)
