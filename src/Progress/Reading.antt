-- ===== src/Progress/Reading.antt =====
-- The text of a progress counter.
use Prim.Native.Char.{code}
use text.Mathlib.TextLemmas.{cons-append, nil-append}
use nodedeploy_controller.Prelude.{
  ℕ, ◌+◌, ◌-◌, ◌*◌, ◌<◌, ◌==◌, String, ◌<>◌, false, ◌≡◌, ap, ◌∙◌, if◌then◌else◌, arith,
}
use nodedeploy_controller.Text.{decimal}
use nodedeploy_controller.Text.Decimal.{read, digit, digit_value, reads_decimal, read-decimal}
use nodedeploy_controller.Progress.{Progress, string}

-- Two numbers with a slash between them; `v` is what has been read of the first.
abbrev pub read_pair : ℕ → String → ℕ × ℕ
read_pair v String.[] = (v, 0)
read_pair v (String.◌∷◌ c s) =
    let rest = read_pair (v * 10 + (code c - 48)) s in
    if code c == 47 then (v, read 10 0 s) else rest

no_slash : (d : ℕ) → (48 + d == 47) ≡ false
no_slash d = ground arith

pair_step :
    (v d : ℕ) (s : String)
    → d < 10
    → read_pair v (String.◌∷◌ (digit d) s) ≡ read_pair (v * 10 + d) s
pair_step v d s h =
    rw (digit_value d h) (rw (no_slash d) (ap (λ k. read_pair (v * 10 + k) s) (omega arith)))

pair_slash : (v : ℕ) (s : String) → read_pair v ("/" <> s) ≡ (v, read 10 0 s)
pair_slash v s = ap (read_pair v) (cons-append "/" "" s) ∙ ap (λ t. (v, read 10 0 t)) (nil-append s)

-- The text of a counter is the two numbers, with a slash between them: reading it gives both back.
pub read_pair-string : (p : Progress) → read_pair 0 (string p) ≡ (p.i, p.sum)
unfolding string
read_pair-string p =
    reads_decimal read_pair pair_step p.i ("/" <> decimal p.sum)
    ∙ pair_slash p.i (decimal p.sum)
    ∙ ap (λ n. (p.i, n)) (read-decimal p.sum)
