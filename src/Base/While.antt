-- ===== src/Base/While.antt =====
-- A `while` loop of the source: a step on the loop's variables, a number that falls with each
-- round, and the result. `run` makes as many rounds as the number allows, which is enough.
use Prim.Native.Nat.{ℕ, zero, suc, ◌<◌}
use mathlib.Core.Path.{◌≡◌, refl}
use mathlib.Core.Option.{Option, none, some}
use native.Mathlib.Omega.{arith}

-- One round ends in `continue`, with the variables' new values, or leaves the loop with a result.
pub data Next (S R : Type 0) : Type 0 where
  again : S → Next S R
  stop : R → Next S R

abbrev pub Falls : {S R : Type 0} → (S → ℕ) → ℕ → Next S R → Type 0
Falls measure m (again s) = measure s < m
Falls measure m (stop r) = Unit

abbrev pub Holds {ℓ} : {S R : Type 0} → (S → Type ℓ) → (R → Type ℓ) → Next S R → Type ℓ
Holds P Q (again s) = P s
Holds P Q (stop r) = Q r

pub record Loop (S R : Type 0) : Type 0 where
  pub step : S → Next S R
  pub measure : S → ℕ
  pub spent : R
  pub falls : (s : S) → Falls measure (measure s) (step s)

abbrev pub after : {S R : Type 0} → (S → R) → Next S R → R
after k (again s) = k s
after k (stop r) = r

-- A call that fails ends the loop with the failure.
abbrev pub or_fail : {S R A : Type 0} → Option A → (A → Next S (Option R)) → Next S (Option R)
or_fail none k = stop none
or_fail (some a) k = k a

pub or_fail-Falls :
    {S R A : Type 0} (measure : S → ℕ) (m : ℕ) (o : Option A) (k : A → Next S (Option R))
    → ((a : A) → o ≡ some a → Falls measure m (k a))
    → Falls measure m (or_fail o k)
or_fail-Falls measure m none k h = tt
or_fail-Falls measure m (some a) k h = h a refl

pub or_fail-Holds {ℓ} :
    {S R A : Type 0} (P : S → Type ℓ) (Q : Option R → Type ℓ) (o : Option A)
    (k : A → Next S (Option R))
    → Q none
    → ((a : A) → o ≡ some a → Holds P Q (k a))
    → Holds P Q (or_fail o k)
or_fail-Holds P Q none k q h = q
or_fail-Holds P Q (some a) k q h = h a refl

unfoldable pub run_for : {S R : Type 0} → (S → Next S R) → R → ℕ → S → R
run_for step spent zero s = spent
run_for step spent (suc fuel) s = after (run_for step spent fuel) (step s)

unfoldable pub run : {S R : Type 0} → Loop S R → S → R
unfolding run_for
run l s = run_for l.step l.spent (suc (l.measure s)) s

after_agree :
    {S R : Type 0} (measure : S → ℕ) (m : ℕ) (j k : S → R)
    → ((s : S) → measure s < m → j s ≡ k s)
    → (n : Next S R) → Falls measure m n
    → after j n ≡ after k n
after_agree measure m j k same (again s) h = same s h
after_agree measure m j k same (stop r) h = refl

module _ {S R : Type 0} (l : Loop S R) where
  -- Any two amounts of fuel above the measure give one result.
  run_for_enough :
      (f g : ℕ) (s : S)
      → l.measure s < f
      → l.measure s < g
      → run_for l.step l.spent f s ≡ run_for l.step l.spent g s
  unfolding run_for
  run_for_enough zero g s p q = absurd (omega arith)
  run_for_enough (suc f) zero s p q = absurd (omega arith)
  run_for_enough (suc f) (suc g) s p q =
      after_agree l.measure (l.measure s) _ _
        (λ s' h. run_for_enough f g s' (omega arith) (omega arith)) (l.step s) (l.falls s)

  -- The loop's equation: what `while` means, with no fuel in sight.
  pub run_lem : (s : S) → run l s ≡ after (run l) (l.step s)
  unfolding run run_for
  run_lem s =
      after_agree l.measure (l.measure s) _ _
        (λ s' h. run_for_enough (l.measure s) (suc (l.measure s')) s' h (omega arith)) (l.step s)
        (l.falls s)

  module _ {ℓ} (P : S → Type ℓ) (Q : R → Type ℓ) (keep : (s : S) → P s → Holds P Q (l.step s)) where
    run_for_inv : (f : ℕ) (s : S) → l.measure s < f → P s → Q (run_for l.step l.spent f s)
    unfolding run_for
    run_for_inv zero s h p = absurd (omega arith)
    run_for_inv (suc f) s h p =
        go (l.step s) (l.falls s) (keep s p) (λ s' h' p'. run_for_inv f s' (omega arith) p')
      where
        go :
            (n : Next S R)
            → Falls l.measure (l.measure s) n
            → Holds P Q n
            → ((s' : S) → l.measure s' < l.measure s → P s' → Q (run_for l.step l.spent f s'))
            → Q (after (run_for l.step l.spent f) n)
        go (again s') h p ih = ih s' h p
        go (stop r) h p ih = p

    -- The invariant rule: what each round keeps holds of the result.
    pub run_inv : (s : S) → P s → Q (run l s)
    unfolding run
    run_inv s p = run_for_inv (suc (l.measure s)) s (omega arith) p
