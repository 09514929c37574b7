-- ===== src/Daemon/Runs/Agree.antt =====
-- Two actions that do the same unless a condition holds, by the parts of the actions.
use anything_tool.Base.{◌≡◌, refl, sym, ◌∙◌, Bool, true, false, Option, none, some, if◌then◌else◌}
use anything_tool.Approval.{Attempt, done, refused, Refusal}
use anything_tool.Rpc.Request.{Result, ok, err, RpcError}
use anything_tool.Daemon.World.{World, M, on_option, on_attempt, on_result}

-- Both actions do the same from this state, or the condition holds.
pub data Agree (C : Type 0) (m n : M (Unit {0})) (w : World) : Type 0 where
  both : m w ≡ n w → Agree C m n w
  holds : C → Agree C m n w

module _ {C : Type 0} (w : World) where
  pub if-Agree :
      (b : Bool) {l r l' r' : M (Unit {0})}
      → (b ≡ true → Agree C l l' w)
      → (b ≡ false → Agree C r r' w)
      → Agree C (if b then l else r) (if b then l' else r') w
  if-Agree true h k = h refl
  if-Agree false h k = k refl

  pub option-Agree :
      {A : Type 0} (o : Option A) {m m' : M (Unit {0})} {k k' : A → M (Unit {0})}
      → Agree C m m' w
      → ((a : A) → o ≡ some a → Agree C (k a) (k' a) w)
      → Agree C (on_option o m k) (on_option o m' k') w
  option-Agree none h k = h
  option-Agree (some a) h k = k a refl

  pub attempt-Agree :
      {A : Type 0} (o : Attempt A) {m m' : Refusal → M (Unit {0})} {k k' : A → M (Unit {0})}
      → ((why : Refusal) → Agree C (m why) (m' why) w)
      → ((a : A) → o ≡ done a → Agree C (k a) (k' a) w)
      → Agree C (on_attempt o m k) (on_attempt o m' k') w
  attempt-Agree (refused why) h k = h why
  attempt-Agree (done a) h k = k a refl

  pub result-Agree :
      {A : Type 0} (o : Result A) {m m' : RpcError → M (Unit {0})} {k k' : A → M (Unit {0})}
      → ((e : RpcError) → Agree C (m e) (m' e) w)
      → ((a : A) → o ≡ ok a → Agree C (k a) (k' a) w)
      → Agree C (on_result o m k) (on_result o m' k') w
  result-Agree (err e) h k = h e
  result-Agree (ok a) h k = k a refl

-- Behind a first call that is the same in both.
pub moved :
    {C : Type 0} {m n m' n' : M (Unit {0})} {w w' : World}
    → m w ≡ m' w'
    → n w ≡ n' w'
    → Agree C m' n' w'
    → Agree C m n w
moved e f (both same) = both (e ∙ same ∙ sym f)
moved e f (holds c) = holds c
