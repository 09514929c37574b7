-- ===== src/Daemon/Serve/History.antt =====
-- What never changes of an entry, and the order of its states.
use anything_tool.Base.{
  ℕ, zero, suc, ◌≤◌, ◌≡◌, refl, sym, ap, ◌∙◌, subst, true, false, inl, inr, some, List, [], ◌∷◌,
  ◌++◌, arith, ◌==◌, ==_iff, Bool-cases, get_elem?, set, get_elem?-set_self, get_elem?-set_ne,
}
use anything_tool.Text.{Bytes}
use anything_tool.Identity.{Identity}
use anything_tool.Config.{Config}
use anything_tool.Approval.{Status, pending, granted, rejected, executed, Pending, Store, write}
use anything_tool.Approval.Lookup.{get_bound}
use anything_tool.Approval.Sound.{is_authorised}
use anything_tool.Daemon.World.{Os, World}
use anything_tool.Daemon.Steps.{
  ToolStep, stay, submit, AdminStep, idle, approve, turn_down, execute,
}
use anything_tool.Daemon.Steps.Tool.{handle_tool_request-ToolStep}
use anything_tool.Daemon.Steps.Admin.{handle_admin_request-AdminStep}
use anything_tool.Daemon.Serve.{Plane, tool, admin, Connection, handle, serve}
use anything_tool.Daemon.Serve.Induction.{serve_inv}
use anything_tool.Daemon.Serve.Sound.{turn_away-store}

-- The order in which an entry may change its state.
abbrev pub rank : Status → ℕ
rank pending = 0
rank granted = 1
rank executed = 2
rank rejected = 3

-- The entry at a later time: only its state and its approver may differ.
pub record IsLater (p q : Pending) : Type 0 where
  pub same_id : q.request_id ≡ p.request_id
  pub same_hash : q.request_hash ≡ p.request_hash
  pub same_requester : q.requester ≡ p.requester
  pub same_session : q.session_id ≡ p.session_id
  pub same_method : q.method ≡ p.method
  pub same_params : q.params ≡ p.params
  pub same_risk : q.risk ≡ p.risk
  pub same_summary : q.summary ≡ p.summary
  pub same_expiry : q.expires_at ≡ p.expires_at
  pub forward : rank p.status ≤ rank q.status
  pub same_approver :
      is_authorised p.status ≡ true → is_authorised q.status ≡ true → q.approver ≡ p.approver

IsLater-refl : (p : Pending) → IsLater p p
IsLater-refl p = record {
  same_id = refl;
  same_hash = refl;
  same_requester = refl;
  same_session = refl;
  same_method = refl;
  same_params = refl;
  same_risk = refl;
  same_summary = refl;
  same_expiry = refl;
  forward = omega arith;
  same_approver = λ a b. refl;
}

-- The authorised states are those of rank 1 and 2.
authorised_rank : (a : Status) → is_authorised a ≡ true → (1 ≤ rank a) × (rank a ≤ 2)
authorised_rank pending h = absurd (cc)
authorised_rank granted h = omega arith
authorised_rank rejected h = absurd (cc)
authorised_rank executed h = omega arith

rank_authorised : (a : Status) → 1 ≤ rank a → rank a ≤ 2 → is_authorised a ≡ true
rank_authorised pending h k = absurd (omega arith)
rank_authorised granted h k = refl
rank_authorised rejected h k = absurd (omega arith)
rank_authorised executed h k = refl

-- An entry that is behind an authorised one and before an authorised one is authorised.
between :
    (a b c : Status)
    → rank a ≤ rank b
    → rank b ≤ rank c
    → is_authorised a ≡ true
    → is_authorised c ≡ true
    → is_authorised b ≡ true
between a b c h k p q =
    rank_authorised b (omega (arith, authorised_rank a p)) (omega (arith, authorised_rank c q))

IsLater-trans : (p q r : Pending) → IsLater p q → IsLater q r → IsLater p r
IsLater-trans p q r h k = record {
  same_id = k.same_id ∙ h.same_id;
  same_hash = k.same_hash ∙ h.same_hash;
  same_requester = k.same_requester ∙ h.same_requester;
  same_session = k.same_session ∙ h.same_session;
  same_method = k.same_method ∙ h.same_method;
  same_params = k.same_params ∙ h.same_params;
  same_risk = k.same_risk ∙ h.same_risk;
  same_summary = k.same_summary ∙ h.same_summary;
  same_expiry = k.same_expiry ∙ h.same_expiry;
  forward = omega (arith, h.forward, k.forward);
  same_approver = λ a c.
      let b : is_authorised q.status ≡ true =
        between p.status q.status r.status h.forward k.forward a c in
      k.same_approver b c ∙ h.same_approver a b;
}

-- Every entry of the first store is in the second, where it was, and later.
abbrev pub Persists : Store → Store → Type 0
Persists s t =
    (i : ℕ) (p : Pending)
    → get_elem? s.entries i ≡ some p
    → (q : Pending) × (get_elem? t.entries i ≡ some q) × IsLater p q

get-append :
    (ps : List Pending) (x : Pending) (i : ℕ) (p : Pending)
    → get_elem? ps i ≡ some p
    → get_elem? (ps ++ x ∷ []) i ≡ some p
get-append [] x i p h = absurd (cc)
get-append (q ∷ ps) x zero p h = h
get-append (q ∷ ps) x (suc i) p h = get-append ps x i p h

same_entry : {p x : Pending} → some p ≡ some x → p ≡ x
same_entry e = ground arith

absurd_test : (i j : ℕ) → i ≡ j → (i == j) ≡ false → ⊥
absurd_test i j e h = ground arith

-- One entry is replaced by a later one.
write-Persists :
    (s : Store) (i : ℕ) (p q : Pending)
    → get_elem? s.entries i ≡ some p
    → IsLater p q
    → Persists s (write s i q)
unfolding write
write-Persists s i p q at h j x k = elim (Bool-cases (i == j)) [
  | inl same ↦
      let e : i ≡ j = (==_iff i j).0 same in
      (
        q,
        subst (λ m. get_elem? (set s.entries i q) m ≡ some q) e
            (get_elem?-set_self s.entries i q (get_bound s.entries i p at)),
        subst (λ y. IsLater y q)
            (same_entry (sym at ∙ subst (λ m. get_elem? s.entries m ≡ some x) (sym e) k)) h,
      )
  | inr other ↦ (x, get_elem?-set_ne s.entries q (λ e. absurd_test i j e other) ∙ k, IsLater-refl x)
]

-- A new state and approver.
settled-IsLater :
    (p : Pending) (a : Identity) (status : Status)
    → rank p.status ≤ rank status
    → (is_authorised p.status ≡ true → is_authorised status ≡ true → a ≡ p.approver)
    → IsLater p (record p { approver = a; status = status })
settled-IsLater p a status h k = record {
  same_id = refl;
  same_hash = refl;
  same_requester = refl;
  same_session = refl;
  same_method = refl;
  same_params = refl;
  same_risk = refl;
  same_summary = refl;
  same_expiry = refl;
  forward = h;
  same_approver = k;
}

rank_bound : (a : Status) → rank a ≤ 3
rank_bound pending = omega arith
rank_bound granted = omega arith
rank_bound rejected = omega arith
rank_bound executed = omega arith

from_pending : (a : Status) → a ≡ pending → is_authorised a ≡ true → ⊥
from_pending a e h = ground arith

Persists-refl : (s : Store) → Persists s s
Persists-refl s i p at = (p, at, IsLater-refl p)

Persists-trans : (s t u : Store) → Persists s t → Persists t u → Persists s u
Persists-trans s t u h k i p at =
    let (q, at_t, pq) = h i p at in
    let (r, at_u, qr) = k i q at_t in (r, at_u, IsLater-trans p q r pq qr)

module _ (config : Config) (caller : Identity) (s s' : Store) where
  same_store : s' ≡ s → Persists s s'
  same_store e = subst (Persists s) (sym e) (Persists-refl s)

  ToolStep-Persists :
      (body : Bytes) (now : ℕ) → ToolStep config caller body now s s' → Persists s s'
  ToolStep-Persists body now (stay e) = same_store e
  ToolStep-Persists body now (submit r parsed method on taken) = λ i x at. (
    x,
    ap (λ ps. get_elem? ps i) taken.listed ∙ get-append s.entries taken.entry i x at,
    IsLater-refl x,
  )

  changed :
      (i : ℕ) (p : Pending) (a : Identity) (status : Status)
      → get_elem? s.entries i ≡ some p
      → rank p.status ≤ rank status
      → (is_authorised p.status ≡ true → is_authorised status ≡ true → a ≡ p.approver)
      → s' ≡ write s i (record p { approver = a; status = status })
      → Persists s s'
  changed i p a status at h k made = subst (Persists s) (sym made) (
      write-Persists s i p (record p { approver = a; status = status }) at
        (settled-IsLater p a status h k))

  AdminStep-Persists : (now : ℕ) → AdminStep config caller now s s' → Persists s s'
  AdminStep-Persists now (idle e) = same_store e
  AdminStep-Persists now (approve i p allowed at waits fresh_still other made) =
      changed i p caller granted at (rw waits (omega arith))
        (λ h _. absurd (from_pending p.status waits h)) made
  AdminStep-Persists now (turn_down i p allowed at other made) =
      changed i p caller rejected at (rank_bound p.status) (λ _ k. absurd (cc)) made
  AdminStep-Persists now (execute i p allowed at ready fresh_still same method on made) =
      changed i p p.approver executed at (rw ready (omega arith)) (λ _ _. refl) made

handle-Persists :
    (os : Os) (config : Config) (plane : Plane) (peer : Identity) (body : Bytes) (w : World)
    → Persists w.store (handle os config plane peer body w).store
unfolding handle
handle-Persists os config tool peer body w =
    ToolStep-Persists config peer w.store _ body _
      (handle_tool_request-ToolStep os config peer body w)
handle-Persists os config admin peer body w =
    AdminStep-Persists config peer w.store _ _
      (handle_admin_request-AdminStep os config peer body w)

-- Whatever connections are served, every entry stays in the store at its place, and nothing of it
-- changes but the state and the approver: the state only goes forward, from pending to granted, to
-- executed and to rejected, and an entry that stays granted or executed keeps its approver.
pub serve-Persists :
    (os : Os) (config : Config) (connections : List Connection) (w : World)
    → Persists w.store (serve os config connections w).store
serve-Persists os config connections w =
    serve_inv os config (λ (v : World). Persists w.store v.store)
      (λ kind message v h. subst (Persists w.store) (sym (turn_away-store kind message v)) h)
      (λ plane peer body v h.
        Persists-trans w.store v.store (handle os config plane peer body v).store h
          (handle-Persists os config plane peer body v))
      connections w (Persists-refl w.store)
