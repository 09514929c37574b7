-- ===== src/Text/Decimal.antt =====
-- The conversions %lu, %ld and %d of printf, at numbers that are not negative.
use anything_tool.Base.{
  ℕ, ◌+◌, ◌-◌, ◌*◌, ◌/◌, ◌%◌, ◌≡◌, refl, sym, ap, ◌∙◌, [], ◌∷◌, arith, ltb, if◌then◌else◌, Next,
  again, stop, Falls, Holds, All, ◌≤◌, ◌<◌, Loop, run, run_inv, run_lem, length, Bool-cases, true,
  inl, inr,
}
use anything_tool.Text.{Bytes}

abbrev pub digit : ℕ → ℕ
digit d = 48 + d

pub decimal_step : ℕ × Bytes → Next (ℕ × Bytes) Bytes
decimal_step (n, out) =
    if ltb n 10 then stop (digit n ∷ out) else again (n / 10, digit (n % 10) ∷ out)

pub decimal-Falls : (s : ℕ × Bytes) → Falls (λ s. s.0) s.0 (decimal_step s)
unfolding decimal_step
decimal-Falls (n, out) = ground arith

abbrev pub decimal_loop : Loop (ℕ × Bytes) Bytes
decimal_loop = record { step = decimal_step; measure = λ s. s.0; spent = []; falls = decimal-Falls }

unfoldable pub decimal : ℕ → Bytes
unfolding run decimal_step
decimal n = run decimal_loop (n, [])

abbrev pub value_from : ℕ → Bytes → ℕ
value_from v [] = v
value_from v (d ∷ ds) = value_from (v * 10 + (d - 48)) ds

decimal_step-value :
    (n : ℕ) (s : ℕ × Bytes)
    → value_from s.0 s.1 ≡ n
    → Holds (λ s. value_from s.0 s.1 ≡ n) (λ out. value_from 0 out ≡ n) (decimal_step s)
unfolding decimal_step
decimal_step-value n (m, out) h = elim (Bool-cases (ltb m 10)) [
  | inl few ↦ rw few (ap (λ v. value_from v out) (omega arith) ∙ h)
  | inr many ↦ rw many (ap (λ v. value_from v out) (omega arith) ∙ h)
]

-- Reading the digits of a number gives the number.
pub value_from-decimal : (n : ℕ) → value_from 0 (decimal n) ≡ n
unfolding decimal
value_from-decimal n =
    run_inv decimal_loop (λ s. value_from s.0 s.1 ≡ n) (λ out. value_from 0 out ≡ n)
      (decimal_step-value n) (n, []) refl

pub decimal_injective : (m n : ℕ) → decimal m ≡ decimal n → m ≡ n
decimal_injective m n e = sym (value_from-decimal m) ∙ ap (value_from 0) e ∙ value_from-decimal n

abbrev pub AllDigits : Bytes → Type 0
AllDigits = All (λ c. (48 ≤ c) × (c < 58))

decimal_step-AllDigits :
    (s : ℕ × Bytes) → AllDigits s.1 → Holds (λ s. AllDigits s.1) AllDigits (decimal_step s)
unfolding decimal_step
decimal_step-AllDigits (n, out) h = ground arith

pub decimal-AllDigits : (n : ℕ) → AllDigits (decimal n)
unfolding decimal
decimal-AllDigits n =
    run_inv decimal_loop (λ s. AllDigits s.1) AllDigits decimal_step-AllDigits (n, []) tt

digits-visible : (s : Bytes) → AllDigits s → All (λ c. 0x20 ≤ c) s
digits-visible [] h = tt
digits-visible (c ∷ cs) h = (omega arith, digits-visible cs h.1)

pub decimal-IsVisible : (n : ℕ) → All (λ c. 0x20 ≤ c) (decimal n)
decimal-IsVisible n = digits-visible (decimal n) (decimal-AllDigits n)

tens_small : (n : ℕ) → n < 100 → ltb (n / 10) 10 ≡ true
tens_small n h = ground arith

-- A number of two digits.
pub decimal_short : (n : ℕ) → n < 100 → length (decimal n) ≤ 2
unfolding decimal decimal_step
decimal_short n h = elim (Bool-cases (ltb n 10)) [
  | inl few ↦ rw (run_lem decimal_loop (n, []), few) (omega arith)
  | inr many ↦
      rw (run_lem decimal_loop (n, []), many, run_lem decimal_loop (n / 10, _), tens_small n h)
        (omega arith)
]
