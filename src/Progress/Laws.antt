-- ===== src/Progress/Laws.antt =====
-- The counter of progress.go stays in its range.
use nodedeploy_controller.Prelude.{ℕ, zero, suc, ◌≤◌, ◌≡◌, arith, if◌then◌else◌, leb}
use nodedeploy_controller.Progress.{Progress, new_progress, add, steps}

add_bounded : (p : Progress) → p.i ≤ p.sum → ((add p).i ≤ (add p).sum) × ((add p).sum ≡ p.sum)
unfolding add
add_bounded p h = ground arith

-- After any number of calls of `Add` on a new counter, it shows the number of calls or, past the end,
-- the sum, and the sum is unchanged.
pub steps_count :
    (sum n : ℕ)
    → ((steps n (new_progress sum)).i ≡ (if leb n sum then n else sum))
      × ((steps n (new_progress sum)).sum ≡ sum)
unfolding steps new_progress add
steps_count sum zero = ground arith
steps_count sum (suc n) = ground (arith, steps_count sum n)
