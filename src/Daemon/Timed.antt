-- ===== src/Daemon/Timed.antt =====
-- What an action of the daemon leads to from a given store, where it begins at a given call of the
-- system: the time that it reads is then known.
use anything_tool.Base.{
  ℕ, ◌+◌, ◌≡◌, refl, sym, subst, ap, Bool, true, false, not, Option, none, some, if◌then◌else◌,
}
use anything_tool.Text.{Bytes}
use anything_tool.Approval.{Store}
use anything_tool.Rpc.Request.{Result, ok, err, RpcError}
use anything_tool.Audit.{AuditEvent}
use anything_tool.Daemon.World.{
  Os, World, M, ◌>>=◌, ◌>>◌, pure, skip, on_option, on_result, get_store, time_now, audit_event,
  checked_audit, write_response,
}
use anything_tool.Daemon.Keeps.{Leads, Same}

pub record Timed (s : Store) (t : ℕ) (Q : Store → Type 0) {A : Type 0} (m : M A) : Type 0 where
  pub at : (w : World) → w.store ≡ s → w.ticks ≡ t → Q (m w).1.store

module _ {Q : Store → Type 0} (s : Store) (t : ℕ) where
  -- What holds at any time.
  pub Timed-Leads : {A : Type 0} {m : M A} → Leads (Same s) Q m → Timed s t Q m
  Timed-Leads h = record { at = λ w e _. h.at w e }

  pub Timed-get : {B : Type 0} (k : Store → M B) → Timed s t Q (k s) → Timed s t Q (get_store >>= k)
  unfolding get_store ◌>>=◌
  Timed-get k h = record { at = λ w e n. subst (λ v. Q (k v w).1.store) (sym e) (h.at w e n) }

  -- The clock is read.
  pub Timed-now :
      {B : Type 0} (os : Os) (k : ℕ → M B)
      → Leads (Same s) Q (k (os.time t))
      → Timed s t Q (time_now os >>= k)
  unfolding time_now ◌>>=◌
  Timed-now os k h = record {
    at = λ w e n.
        subst (λ v. Q (k (os.time v) (record w { ticks = w.ticks + 1 })).1.store) (sym n)
          (h.at (record w { ticks = w.ticks + 1 }) e);
  }

  pub Timed-if :
      {A : Type 0} (b : Bool) {m n : M A}
      → (b ≡ true → Timed s t Q m)
      → (b ≡ false → Timed s t Q n)
      → Timed s t Q (if b then m else n)
  Timed-if true h k = h refl
  Timed-if false h k = k refl

  pub Timed-option :
      {A B : Type 0} (o : Option A) {m : M B} {k : A → M B}
      → Timed s t Q m
      → ((a : A) → o ≡ some a → Timed s t Q (k a))
      → Timed s t Q (on_option o m k)
  Timed-option none h k = h
  Timed-option (some a) h k = k a refl

  pub Timed-result :
      {A B : Type 0} (o : Result A) {m : RpcError → M B} {k : A → M B}
      → ((e : RpcError) → Timed s t Q (m e))
      → ((a : A) → o ≡ ok a → Timed s t Q (k a))
      → Timed s t Q (on_result o m k)
  Timed-result (err e) h k = h e
  Timed-result (ok a) h k = k a refl

  -- An event takes one call of the system, and the rest follows where it was written.
  pub Timed-logged :
      (os : Os) (e : AuditEvent) (id : Bytes) {k : M (Unit {0})}
      → Q s
      → Timed s (t + 1) Q k
      → Timed s t Q (checked_audit os e id >>= λ logged. if not logged then skip else k)
  unfolding checked_audit audit_event ◌>>=◌ ◌>>◌ pure write_response
  Timed-logged os e id {k} q h = record { at = λ w same n. go w same n (audit_event os e w).0 refl }
    where
      go :
          (w : World)
          → w.store ≡ s
          → w.ticks ≡ t
          → (b : Bool) → (audit_event os e w).0 ≡ b
          → Q ((checked_audit os e id >>= λ logged. if not logged then skip else k) w).1.store
      go w same n true written = rw written (h.at (audit_event os e w).1 same (ap (λ m. m + 1) n))
      go w same n false written = rw written (subst Q (sym same) q)
