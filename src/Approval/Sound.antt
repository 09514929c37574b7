-- ===== src/Approval/Sound.antt =====
-- What holds of the approval store between two requests.
use anything_tool.Base.{
  ℕ, zero, suc, ◌+◌, ◌≤◌, ◌<◌, ◌≡◌, ◌≢◌, refl, sym, subst, ap, ◌∙◌, Bool, true, false, Option, none,
  some, List, [], ◌∷◌, ◌++◌, arith, length, length-append, length-set, get_elem?, set, All,
  All-append, All-set, ℤ, Bool-cases, inl, inr,
}
use anything_tool.Text.{Bytes, str_eq}
use anything_tool.Text.Equal.{str_eq_iff}
use anything_tool.Json.Escape.{IsPlain}
use anything_tool.Identity.{Identity}
use anything_tool.Config.{Config}
use anything_tool.Config.Admin.{identity_is_admin}
use anything_tool.Policy.{Policy}
use anything_tool.Rpc.Hash.{hash_request}
use anything_tool.Rpc.Request.{Request}
use anything_tool.Approval.{
  Status, granted, executed, Pending, Store, store_init, max_pending, request_id_of, new_entry, add,
  Found, find_from, find, write,
}

-- An entry in one of these states has an approver who stands for it.
abbrev pub is_authorised : Status → Bool
is_authorised granted = true
is_authorised executed = true
is_authorised _ = false

pub record IsEntry (config : Config) (p : Pending) : Type 0 where
  pub hash_is : p.request_hash ≡ hash_request p.method p.params p.session_id
  pub method_fits : length p.method < 64
  pub method_plain : IsPlain p.method
  pub session_fits : length p.session_id < 64
  pub session_plain : IsPlain p.session_id
  pub params_fits : length p.params < 1024
  pub risk_fits : length p.risk < 16
  pub risk_plain : IsPlain p.risk
  pub summary_fits : length p.summary < 256
  pub summary_plain : IsPlain p.summary
  pub other_approver : is_authorised p.status ≡ true → p.requester ≢ p.approver
  pub admin_approver : is_authorised p.status ≡ true → identity_is_admin config p.approver ≡ true

-- The entries carry the ids of consecutive numbers.
abbrev pub Numbered : ℕ → List Pending → Type 0
Numbered n [] = Unit
Numbered n (p ∷ ps) = (p.request_id ≡ request_id_of n) × Numbered (n + 1) ps

pub record IsSound (config : Config) (s : Store) : Type 0 where
  pub room : length s.entries ≤ max_pending
  pub counted : s.next_id ≡ length s.entries + 1
  pub numbered : Numbered 1 s.entries
  pub each : All (IsEntry config) s.entries

pub store_init-IsSound : (config : Config) → IsSound config store_init
store_init-IsSound config = record { room = omega arith; counted = refl; numbered = tt; each = tt }

Numbered-append :
    (n : ℕ) (ps : List Pending) (p : Pending)
    → Numbered n ps
    → p.request_id ≡ request_id_of (n + length ps)
    → Numbered n (ps ++ p ∷ [])
Numbered-append n [] p h e = (e ∙ ap request_id_of (omega arith), tt)
Numbered-append n (q ∷ ps) p h e =
    (h.0, Numbered-append (n + 1) ps p h.1 (e ∙ ap request_id_of (omega arith)))

Numbered-set :
    (n : ℕ) (ps : List Pending) (i : ℕ) (p q : Pending)
    → Numbered n ps
    → get_elem? ps i ≡ some q
    → p.request_id ≡ q.request_id
    → Numbered n (set ps i p)
Numbered-set n [] i p q h e k = tt
Numbered-set n (r ∷ ps) zero p q h e k = (k ∙ ap (λ o. id_or [] o) (sym e) ∙ h.0, h.1)
  where
    id_or : Bytes → Option Pending → Bytes
    id_or d none = d
    id_or d (some x) = x.request_id
Numbered-set n (r ∷ ps) (suc i) p q h e k = (h.0, Numbered-set (n + 1) ps i p q h.1 e k)

-- Writing a sound entry with the old id through a pointer keeps the store sound.
pub write-IsSound :
    (config : Config) (s : Store) (i : ℕ) (p q : Pending)
    → IsSound config s
    → get_elem? s.entries i ≡ some q
    → p.request_id ≡ q.request_id
    → IsEntry config p
    → IsSound config (write s i p)
unfolding write
write-IsSound config s i p q h e k sound = record {
  room = omega (arith, h.room, length-set s.entries i p);
  counted = omega (arith, h.counted, length-set s.entries i p);
  numbered = Numbered-set 1 s.entries i p q h.numbered e k;
  each = All-set (IsEntry config) s.entries i p h.each sound;
}

-- A sound entry with the next id, at the end, keeps the store sound.
pub append-IsSound :
    (config : Config) (s t : Store) (p : Pending)
    → IsSound config s
    → length s.entries < max_pending
    → t.entries ≡ s.entries ++ p ∷ []
    → t.next_id ≡ s.next_id + 1
    → p.request_id ≡ request_id_of s.next_id
    → IsEntry config p
    → IsSound config t
append-IsSound config s t p h room listed counted named sound =
    let id : p.request_id ≡ request_id_of (1 + length s.entries) =
      named ∙ ap request_id_of (omega (arith, h.counted)) in
    let l : length t.entries ≡ length s.entries + 1 =
      ap length listed ∙ length-append s.entries (p ∷ []) in
    record {
      room = omega arith;
      counted = omega (arith, h.counted);
      numbered = subst (Numbered 1) (sym listed) (Numbered-append 1 s.entries p h.numbered id);
      each =
          subst (All (IsEntry config)) (sym listed)
            (All-append (IsEntry config) s.entries (p ∷ []) h.each (sound, tt));
    }

module _ (s : Store) (r : Request) (policy : Policy) (requester : Identity) (ttl : ℤ)
    (now : ℕ) where
  pub add-entries :
      (t : Store) (p : Pending)
      → add s r policy requester ttl now ≡ some (t, p)
      → (t.entries ≡ s.entries ++ p ∷ [])
        × (t.next_id ≡ s.next_id + 1)
        × (p ≡ new_entry s.next_id r policy requester ttl now)
        × (length s.entries < max_pending)
  unfolding add
  add-entries t p added = ground arith

  -- While there is room, an entry is added.
  pub add_room :
      length s.entries < max_pending
      → (t : Store) × (p : Pending) × (add s r policy requester ttl now ≡ some (t, p))
  unfolding add
  add_room room = (
    record {
      entries = s.entries ++ new_entry s.next_id r policy requester ttl now ∷ [];
      next_id = s.next_id + 1;
    },
    new_entry s.next_id r policy requester ttl now,
    ground arith,
  )

find_from-get :
    (k : ℕ) (ps : List Pending) (id : Bytes) (i : ℕ) (p : Pending)
    → find_from k ps id ≡ some (i, p)
    → (j : ℕ) × (i ≡ k + j) × (get_elem? ps j ≡ some p) × (p.request_id ≡ id)
unfolding find_from
find_from-get k [] id i p h = absurd (cc)
find_from-get k (q ∷ ps) id i p h = elim (Bool-cases (str_eq q.request_id id)) [
  | inl same ↦ (0, ground arith, ground arith, ground (arith, str_eq_iff q.request_id id))
  | inr other ↦
      let (j, e, g, n) = find_from-get (k + 1) ps id i p (ground arith) in
      (suc j, omega arith, g, n)
]

-- The pointer that is found points to an entry of the store, and the entry has the id.
pub find-get :
    (s : Store) (id : Bytes) (i : ℕ) (p : Pending)
    → find s id ≡ some (i, p)
    → (get_elem? s.entries i ≡ some p) × (p.request_id ≡ id)
unfolding find
find-get s id i p h =
    let (j, e, g, n) = find_from-get 0 s.entries id i p h in
    (subst (λ k. get_elem? s.entries k ≡ some p) (omega arith) g, n)

-- A new status and approver, where they fit together.
pub settled-IsEntry :
    (config : Config) (p : Pending) (a : Identity) (status : Status)
    → IsEntry config p
    → (is_authorised status ≡ true → p.requester ≢ a)
    → (is_authorised status ≡ true → identity_is_admin config a ≡ true)
    → IsEntry config (record p { approver = a; status = status })
settled-IsEntry config p a status e other admin = record {
  hash_is = e.hash_is;
  method_fits = e.method_fits;
  method_plain = e.method_plain;
  session_fits = e.session_fits;
  session_plain = e.session_plain;
  params_fits = e.params_fits;
  risk_fits = e.risk_fits;
  risk_plain = e.risk_plain;
  summary_fits = e.summary_fits;
  summary_plain = e.summary_plain;
  other_approver = other;
  admin_approver = admin;
}

-- A pointer that a search returned is null or points to the entry that it shows.
abbrev pub Points : Store → Option Found → Type 0
Points s none = Unit
Points s (some (i, p)) = get_elem? s.entries i ≡ some p

pub find-Points : (s : Store) (id : Bytes) → Points s (find s id)
find-Points s id = go (find s id) refl
  where
    go : (f : Option Found) → find s id ≡ f → Points s f
    go none e = tt
    go (some (i, p)) e = (find-get s id i p e).0
