-- ===== src/Text/Decimal.antt =====
-- The digits of a number give the number back: the fuel of `decimal` and `octal` is enough.
use Prim.Native.Char.{Char, code}
use Prim.Native.String.{char_at}
use text.Mathlib.TextLemmas.{cons-append, nil-append}
use nodedeploy_controller.Prelude.{
  ℕ, zero, suc, ◌-◌, ◌/◌, ◌%◌, ◌+◌, ◌*◌, ◌<◌, String, ◌<>◌, true, false, ◌≡◌, refl, sym, ap, ◌∙◌,
  ◌==◌, inl, inr, Bool-cases, arith,
}
use nodedeploy_controller.Text.{digits, decimal, octal}

abbrev pub digit : ℕ → Char
digit d = char_at "0123456789" d

-- The number that the digits of a text in base `b` stand for, behind `v`.
abbrev pub read : ℕ → ℕ → String → ℕ
read b v String.[] = v
read b v (String.◌∷◌ c s) = read b (v * b + (code c - 48)) s

pub digit_value : (d : ℕ) → d < 10 → code (digit d) ≡ 48 + d
digit_value zero h = refl
digit_value (suc zero) h = refl
digit_value (suc (suc zero)) h = refl
digit_value (suc (suc (suc zero))) h = refl
digit_value (suc (suc (suc (suc zero)))) h = refl
digit_value (suc (suc (suc (suc (suc zero))))) h = refl
digit_value (suc (suc (suc (suc (suc (suc zero)))))) h = refl
digit_value (suc (suc (suc (suc (suc (suc (suc zero))))))) h = refl
digit_value (suc (suc (suc (suc (suc (suc (suc (suc zero)))))))) h = refl
digit_value (suc (suc (suc (suc (suc (suc (suc (suc (suc zero))))))))) h = refl
digit_value (suc (suc (suc (suc (suc (suc (suc (suc (suc (suc n)))))))))) h = absurd (omega arith)

is_zero : (k : ℕ) → (k == 0) ≡ true → k ≡ 0
is_zero k e = ground arith

is_not_zero : (k : ℕ) → (k == 0) ≡ false → ¬ (k ≡ 0)
is_not_zero k e = ground arith

-- What makes a base: a number is its last digit and what is left of it.
record IsBase (b : ℕ) : Type 0 where
  small : (n : ℕ) → n % b < 10
  whole : (n : ℕ) → (n / b) * b + n % b ≡ n
  less : (n : ℕ) → (n / b ≡ 0 → ⊥) → n / b < n

-- A reader that takes a digit into the number before it.
module _ {R : Type 0} (b : ℕ) (base : IsBase b) (f : ℕ → String → R)
    (step : (v d : ℕ) (s : String) → d < 10 → f v (String.◌∷◌ (digit d) s) ≡ f (v * b + d) s) where
  reads_digits : (fuel n : ℕ) (acc : String) → n < fuel → f 0 (digits b fuel n acc) ≡ f n acc
  unfolding digits
  reads_digits zero n acc h = absurd (omega arith)
  reads_digits (suc fuel) n acc h = elim (Bool-cases (n / b == 0)) [
    | inl e ↦ rw e (
        step 0 (n % b) acc (base.small n)
        ∙ ap (λ q. f (q * b + n % b) acc) (sym (is_zero (n / b) e))
        ∙ ap (λ k. f k acc) (base.whole n))
    | inr e ↦ rw e (
        reads_digits fuel (n / b) _ (shorter (n / b) (base.less n (is_not_zero (n / b) e)))
        ∙ step (n / b) (n % b) acc (base.small n)
        ∙ ap (λ k. f k acc) (base.whole n))
  ]
    where
      shorter : (k : ℕ) → k < n → k < fuel
      shorter k l = omega arith

ten-IsBase : IsBase 10
ten-IsBase = record {
  small = λ n. omega arith;
  whole = λ n. omega arith;
  less = λ n h. omega arith;
}

eight-IsBase : IsBase 8
eight-IsBase = record {
  small = λ n. omega arith;
  whole = λ n. omega arith;
  less = λ n h. omega arith;
}

read_step :
    (b v d : ℕ) (s : String) → d < 10 → read b v (String.◌∷◌ (digit d) s) ≡ read b (v * b + d) s
read_step b v d s h = rw (digit_value d h) (ap (λ k. read b (v * b + k) s) (omega arith))

-- Both ways to write a number lose nothing.
pub read-decimal : (n : ℕ) → read 10 0 (decimal n) ≡ n
unfolding decimal
read-decimal n = reads_digits 10 ten-IsBase (read 10) (read_step 10) (suc n) n "" (omega arith)

pub read-octal : (n : ℕ) → read 8 0 (octal n) ≡ n
unfolding octal
read-octal n = reads_digits 8 eight-IsBase (read 8) (read_step 8) (suc n) n "" (omega arith)

-- What follows the number may be written behind its digits at once.
digits-append :
    (b fuel n : ℕ) (acc t : String) → digits b fuel n acc <> t ≡ digits b fuel n (acc <> t)
unfolding digits
digits-append b zero n acc t = refl
digits-append b (suc fuel) n acc t = elim (Bool-cases (n / b == 0)) [
  | inl e ↦ rw e (cons-append (digit (n % b)) acc t)
  | inr e ↦ rw e (
      digits-append b fuel (n / b) (String.◌∷◌ (digit (n % b)) acc) t
      ∙ ap (digits b fuel (n / b)) (cons-append (digit (n % b)) acc t))
]

-- A reader that takes the digits of a number into the number before them comes out behind them.
pub reads_decimal :
    {R : Type 0} (f : ℕ → String → R)
    → ((v d : ℕ) (s : String) → d < 10 → f v (String.◌∷◌ (digit d) s) ≡ f (v * 10 + d) s)
    → (n : ℕ) (t : String) → f 0 (decimal n <> t) ≡ f n t
unfolding decimal
reads_decimal f step n t =
    ap (f 0) (digits-append 10 (suc n) n "" t)
    ∙ reads_digits 10 ten-IsBase f step (suc n) n ("" <> t) (omega arith)
    ∙ ap (f n) (nil-append t)
