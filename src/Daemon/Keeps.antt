-- ===== src/Daemon/Keeps.antt =====
-- What an action of the daemon keeps of the approval store, by the parts of the action.
use anything_tool.Base.{
  ◌≡◌, refl, sym, subst, Bool, true, false, not, Option, none, some, if◌then◌else◌,
}
use anything_tool.Text.{Bytes}
use anything_tool.Approval.{Store, Attempt, done, refused, Refusal}
use anything_tool.Rpc.Request.{Result, ok, err, RpcError}
use anything_tool.Audit.{AuditEvent}
use anything_tool.Daemon.World.{
  Os, World, M, ◌>>=◌, ◌>>◌, pure, skip, on_option, on_attempt, on_result, write_response,
  get_store, put_store, time_now, sys_info, audit_event, checked_audit,
}

-- From a store with the property, the action ends in one with it.
pub record Keeps (P : Store → Type 0) {A : Type 0} (m : M A) : Type 0 where
  pub at : (w : World) → P w.store → P (m w).1.store

module _ {P : Store → Type 0} where
  pub Keeps-pure : {A : Type 0} (a : A) → Keeps P (pure a)
  unfolding pure
  Keeps-pure a = record { at = λ w h. h }

  pub Keeps-bind :
      {A B : Type 0} {m : M A} {f : A → M B}
      → Keeps P m
      → ((a : A) → Keeps P (f a))
      → Keeps P (m >>= f)
  unfolding ◌>>=◌
  Keeps-bind {m} h k = record { at = λ w p. (k (m w).0).at (m w).1 (h.at w p) }

  pub Keeps-then :
      {B : Type 0} {m : M (Unit {0})} {k : M B} → Keeps P m → Keeps P k → Keeps P (m >> k)
  unfolding ◌>>◌
  Keeps-then {m} h k = record { at = λ w p. k.at (m w).1 (h.at w p) }

  pub Keeps-if :
      {A : Type 0} (b : Bool) {m n : M A}
      → (b ≡ true → Keeps P m)
      → (b ≡ false → Keeps P n)
      → Keeps P (if b then m else n)
  Keeps-if true h k = h refl
  Keeps-if false h k = k refl

  -- What is read has the property.
  pub Keeps-get :
      {B : Type 0} {k : Store → M B}
      → ((s : Store) → P s → Keeps P (k s))
      → Keeps P (get_store >>= k)
  unfolding get_store ◌>>=◌
  Keeps-get h = record { at = λ w p. (h w.store p).at w p }

  pub Keeps-put : (s : Store) → P s → Keeps P (put_store s)
  unfolding put_store
  Keeps-put s h = record { at = λ w p. h }

  pub Keeps-write_response : (r : Option Bytes) → Keeps P (write_response r)
  unfolding write_response
  Keeps-write_response r = record { at = λ w p. p }

  module _ (os : Os) where
    pub Keeps-time_now : Keeps P (time_now os)
    unfolding time_now
    Keeps-time_now = record { at = λ w p. p }

    pub Keeps-sys_info : Keeps P (sys_info os)
    unfolding sys_info
    Keeps-sys_info = record { at = λ w p. p }

    Keeps-audit_event : (e : AuditEvent) → Keeps P (audit_event os e)
    unfolding audit_event
    Keeps-audit_event e = record { at = λ w p. p }

    pub Keeps-checked_audit : (e : AuditEvent) (id : Bytes) → Keeps P (checked_audit os e id)
    unfolding checked_audit
    Keeps-checked_audit e id = Keeps-bind (Keeps-audit_event e) λ success.
        Keeps-if success (λ _. Keeps-pure true)
          (λ _. Keeps-then (Keeps-write_response _) (Keeps-pure false))

pub ruleset keeps_rules = (
  Keeps-pure, Keeps-bind, Keeps-then, Keeps-if, Keeps-write_response, Keeps-time_now,
  Keeps-sys_info, Keeps-checked_audit,
)

-- From a store with the first property, the action ends in one with the second.
pub record Leads (P Q : Store → Type 0) {A : Type 0} (m : M A) : Type 0 where
  pub at : (w : World) → P w.store → Q (m w).1.store

-- The store is this one.
abbrev pub Same : Store → Store → Type 0
Same s t = t ≡ s

module _ {Q : Store → Type 0} where
  pub Leads-end : {A : Type 0} (s : Store) {m : M A} → Q s → Keeps (Same s) m → Leads (Same s) Q m
  Leads-end s {m} q h = record { at = λ w e. subst Q (sym (h.at w e)) q }

  pub Leads-get :
      {B : Type 0} (s : Store) (k : Store → M B)
      → Leads (Same s) Q (k s)
      → Leads (Same s) Q (get_store >>= k)
  unfolding get_store ◌>>=◌
  Leads-get s k h = record { at = λ w e. subst (λ t. Q (k t w).1.store) (sym e) (h.at w e) }

  pub Leads-put :
      {B : Type 0} (s t : Store) {k : M B}
      → Leads (Same t) Q k
      → Leads (Same s) Q (put_store t >> k)
  unfolding put_store ◌>>◌
  Leads-put s t {k} h = record { at = λ w e. h.at (record w { store = t }) refl }

  pub Leads-bind :
      {A B : Type 0} (s : Store) {m : M A} {f : A → M B}
      → Keeps (Same s) m
      → ((a : A) → Leads (Same s) Q (f a))
      → Leads (Same s) Q (m >>= f)
  unfolding ◌>>=◌
  Leads-bind s {m} h k = record { at = λ w e. (k (m w).0).at (m w).1 (h.at w e) }

  pub Leads-if :
      {A : Type 0} (s : Store) (b : Bool) {m n : M A}
      → (b ≡ true → Leads (Same s) Q m)
      → (b ≡ false → Leads (Same s) Q n)
      → Leads (Same s) Q (if b then m else n)
  Leads-if s true h k = h refl
  Leads-if s false h k = k refl

  pub Leads-option :
      {A B : Type 0} (s : Store) (o : Option A) {m : M B} {k : A → M B}
      → Leads (Same s) Q m
      → ((a : A) → o ≡ some a → Leads (Same s) Q (k a))
      → Leads (Same s) Q (on_option o m k)
  Leads-option s none h k = h
  Leads-option s (some a) h k = k a refl

  pub Leads-attempt :
      {A B : Type 0} (s : Store) (o : Attempt A) {m : Refusal → M B} {k : A → M B}
      → ((why : Refusal) → Leads (Same s) Q (m why))
      → ((a : A) → o ≡ done a → Leads (Same s) Q (k a))
      → Leads (Same s) Q (on_attempt o m k)
  Leads-attempt s (refused why) h k = h why
  Leads-attempt s (done a) h k = k a refl

  pub Leads-result :
      {A B : Type 0} (s : Store) (o : Result A) {m : RpcError → M B} {k : A → M B}
      → ((e : RpcError) → Leads (Same s) Q (m e))
      → ((a : A) → o ≡ ok a → Leads (Same s) Q (k a))
      → Leads (Same s) Q (on_result o m k)
  Leads-result s (err e) h k = h e
  Leads-result s (ok a) h k = k a refl

  -- An event, and then the rest where it was written.
  pub Leads-logged :
      (os : Os) (s : Store) (e : AuditEvent) (id : Bytes) {k : M (Unit {0})}
      → Q s
      → Leads (Same s) Q k
      → Leads (Same s) Q (checked_audit os e id >>= λ logged. if not logged then skip else k)
  Leads-logged os s e id q h =
      Leads-bind s (Keeps-checked_audit os e id)
        λ logged. Leads-if s (not logged) (λ _. Leads-end s q (Keeps-pure tt)) (λ _. h)

  pub Leads-write_response :
      (s : Store) (r : Option Bytes) → Q s → Leads (Same s) Q (write_response r)
  Leads-write_response s r q = Leads-end s q (Keeps-write_response r)
