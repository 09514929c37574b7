-- ===== src/Rpc/Value/Suffix.antt =====
-- The cursor that a scan returns is a suffix of the text, and a copied object is what it passed.
use mathlib.Core.Option
use anything_tool.Base.{
  ℕ, ◌-◌, ◌≤◌, ◌<◌, ◌≡◌, refl, sym, ap, subst, ◌∙◌, not, ◌||◌, Option, none, some, ◌>>=◌, [], ◌∷◌,
  ◌++◌, arith, length, length-append, take, length-take, leb-false, take_append, Next, again, stop,
  Holds, run, run_inv, ◌==◌, if◌then◌else◌, leb, Bool-cases, inl, inr, append_assoc,
}
use anything_tool.Text.{Bytes, is_space}
use anything_tool.Rpc.Scan.{skip_ws, skip_escape, skip_string_step}
use anything_tool.Rpc.Literal.{skip_json_string, skip_string_loop}
use anything_tool.Rpc.Value.{
  Nesting, skip_inner_string, object_step, array_step, object_loop, array_loop,
  copy_json_object_raw, skip_scalar, skip_value_at, skip_json_value,
}

-- The text `p` ends in `q`.
abbrev pub EndsIn : Bytes → Bytes → Type 0
EndsIn p q = (before : Bytes) × (p ≡ before ++ q)

pub EndsIn-refl : (p : Bytes) → EndsIn p p
EndsIn-refl p = ([], refl)

pub EndsIn-tail : (p : Bytes) (c : ℕ) (q : Bytes) → EndsIn p (c ∷ q) → EndsIn p q
EndsIn-tail p c q (before, e) = (before ++ c ∷ [], e ∙ sym (append_assoc before (c ∷ []) q))

pub EndsIn-trans : (p q r : Bytes) → EndsIn p q → EndsIn q r → EndsIn p r
EndsIn-trans p q r (a, e) (b, f) = (a ++ b, e ∙ ap (λ t. a ++ t) f ∙ sym (append_assoc a b r))

pub EndsIn-length : (p q : Bytes) → EndsIn p q → length q ≤ length p
EndsIn-length p q (before, e) = omega (arith, ap length e, length-append before q)

abbrev pub MayEndIn : Bytes → Option Bytes → Type 0
MayEndIn p none = Unit
MayEndIn p (some q) = EndsIn p q

skip_escape-EndsIn : (p q : Bytes) → EndsIn p q → Holds (EndsIn p) (MayEndIn p) (skip_escape q)
unfolding skip_escape
skip_escape-EndsIn p [] h = tt
skip_escape-EndsIn p (d ∷ q) h = ground (arith, EndsIn-tail p d q h)

skip_string_step-EndsIn :
    (p q : Bytes) → EndsIn p q → Holds (EndsIn p) (MayEndIn p) (skip_string_step q)
unfolding skip_string_step
skip_string_step-EndsIn p [] h = tt
skip_string_step-EndsIn p (c ∷ q) h =
    ground (arith, EndsIn-tail p c q h, skip_escape-EndsIn p q (EndsIn-tail p c q h))

pub skip_ws-EndsIn : (p : Bytes) → EndsIn p (skip_ws p)
unfolding skip_ws
skip_ws-EndsIn [] = ([], refl)
skip_ws-EndsIn (c ∷ cs) =
    let (before, e) = skip_ws-EndsIn cs in
    elim (Bool-cases (is_space c)) [
      | inl blank ↦ rw blank (c ∷ before, ap (◌∷◌ c) e)
      | inr there ↦ rw there ([], refl)
    ]

pub skip_json_string-EndsIn : (p : Bytes) → MayEndIn p (skip_json_string p)
unfolding skip_json_string
skip_json_string-EndsIn [] = tt
skip_json_string-EndsIn (c ∷ cs) = elim (Bool-cases (not (c == b'"'))) [
  | inl bad ↦ rw bad tt
  | inr good ↦ rw good (
      run_inv skip_string_loop (EndsIn (c ∷ cs)) (MayEndIn (c ∷ cs))
        (skip_string_step-EndsIn (c ∷ cs)) cs (c ∷ [], refl))
]

abbrev Within : Bytes → Nesting → Type 0
Within p s = EndsIn p s.1

skip_inner_string-Within :
    (p : Bytes) (depth : ℕ) (q : Bytes)
    → EndsIn p q
    → Holds (Within p) (MayEndIn p) (skip_inner_string depth q)
unfolding skip_inner_string
skip_inner_string-Within p depth q h = go (skip_json_string q) (skip_json_string-EndsIn q)
  where
    go :
        (r : Option Bytes)
        → MayEndIn q r
        → Holds (Within p) (MayEndIn p) (elim r as (λ _. Next Nesting (Option Bytes)) [
          | none ↦ stop none
          | some rest ↦ again (depth, rest)
        ])
    go none k = tt
    go (some rest) k = EndsIn-trans p q rest h k

object_step-Within :
    (p : Bytes) (s : Nesting) → Within p s → Holds (Within p) (MayEndIn p) (object_step s)
unfolding object_step
object_step-Within p (depth, []) h = tt
object_step-Within p (depth, c ∷ q) h =
    ground (arith, EndsIn-tail p c q h, skip_inner_string-Within p depth (c ∷ q) h)

array_step-Within :
    (p : Bytes) (s : Nesting) → Within p s → Holds (Within p) (MayEndIn p) (array_step s)
unfolding array_step
array_step-Within p (depth, []) h = tt
array_step-Within p (depth, c ∷ q) h =
    ground (arith, EndsIn-tail p c q h, skip_inner_string-Within p depth (c ∷ q) h)

-- A copy of n bytes at most: what the cursor passed, from a brace on.
abbrev pub IsCopied : Bytes → ℕ → Option (Bytes × Bytes) → Type 0
IsCopied p n none = Unit
IsCopied p n (some (raw, rest)) = (p ≡ raw ++ rest) × (length raw < n)

take_before : (p q : Bytes) → EndsIn p q → p ≡ take (length p - length q) p ++ q
take_before p q (before, e) =
    let cut : length (before ++ q) - length q ≡ length before =
      omega (arith, length-append before q) in
    subst (λ t. t ≡ take (length t - length q) t ++ q) (sym e) (rw (cut, take_append))

-- An object that is copied is, byte for byte, what the cursor passed, and it fits in the buffer
-- of n bytes.
pub copy_json_object_raw-IsCopied : (p : Bytes) (n : ℕ) → IsCopied p n (copy_json_object_raw p n)
unfolding copy_json_object_raw
copy_json_object_raw-IsCopied [] n = tt
copy_json_object_raw-IsCopied (c ∷ cs) n = elim (Bool-cases (not (c == b'{'))) [
  | inl bad ↦ rw bad tt
  | inr good ↦ rw good (
      go (run object_loop (0, c ∷ cs)) (
        run_inv object_loop (Within (c ∷ cs)) (MayEndIn (c ∷ cs)) (object_step-Within (c ∷ cs))
          (0, c ∷ cs) ([], refl)))
]
  where
    go :
        (r : Option Bytes)
        → MayEndIn (c ∷ cs) r
        → IsCopied (c ∷ cs) n (
            r >>= λ rest.
            let len = length (c ∷ cs) - length rest in
            if leb n len then none else some (take len (c ∷ cs), rest))
    go none k = tt
    go (some rest) k = elim (Bool-cases (leb n (length (c ∷ cs) - length rest))) [
      | inl long ↦ rw long tt
      | inr short ↦ rw short (
        take_before (c ∷ cs) rest k,
        omega (
          arith,
          length-take (length (c ∷ cs) - length rest) (c ∷ cs),
          leb-false n (length (c ∷ cs) - length rest) short,
        ),
      )
    ]

skip_scalar-EndsIn : (p : Bytes) → EndsIn p (skip_scalar p)
unfolding skip_scalar
skip_scalar-EndsIn [] = ([], refl)
skip_scalar-EndsIn (c ∷ cs) =
    let (before, e) = skip_scalar-EndsIn cs in
    elim (Bool-cases (c == b',' || (c == b'}' || c == b']'))) [
      | inl end ↦ rw end ([], refl)
      | inr inside ↦ rw inside (c ∷ before, ap (◌∷◌ c) e)
    ]

copied-MayEndIn :
    (p : Bytes) (n : ℕ) (r : Option (Bytes × Bytes))
    → IsCopied p n r
    → MayEndIn p (Option.map (λ copied. copied.1) r)
copied-MayEndIn p n none h = tt
copied-MayEndIn p n (some (raw, rest)) h = (raw, h.0)

skip_value_at-EndsIn : (p : Bytes) → MayEndIn p (skip_value_at p)
unfolding skip_value_at
skip_value_at-EndsIn [] = ([], refl)
skip_value_at-EndsIn (c ∷ cs) = ground (
  arith,
  skip_json_string-EndsIn (c ∷ cs),
  copied-MayEndIn (c ∷ cs) 1024 (copy_json_object_raw (c ∷ cs) 1024)
      (copy_json_object_raw-IsCopied (c ∷ cs) 1024),
  run_inv array_loop (Within (c ∷ cs)) (MayEndIn (c ∷ cs)) (array_step-Within (c ∷ cs)) (0, c ∷ cs)
      ([], refl),
  skip_scalar-EndsIn (c ∷ cs),
)

pub skip_json_value-EndsIn : (p : Bytes) → MayEndIn p (skip_json_value p)
unfolding skip_json_value
skip_json_value-EndsIn p = go (skip_value_at (skip_ws p)) (skip_value_at-EndsIn (skip_ws p))
  where
    go : (r : Option Bytes) → MayEndIn (skip_ws p) r → MayEndIn p r
    go none h = tt
    go (some q) h = EndsIn-trans p (skip_ws p) q (skip_ws-EndsIn p) h

pub length-skip_json_value : (p q : Bytes) → skip_json_value p ≡ some q → length q ≤ length p
length-skip_json_value p q e = EndsIn-length p q (rw e at (skip_json_value-EndsIn p))

pub copy_json_object_raw-some :
    (p : Bytes) (n : ℕ) (copied : Bytes × Bytes)
    → copy_json_object_raw p n ≡ some copied
    → (p ≡ copied.0 ++ copied.1) × (length copied.0 < n)
copy_json_object_raw-some p n copied e = rw e at (copy_json_object_raw-IsCopied p n)

abbrev pub Leaves : ℕ → Option Bytes → Type 0
Leaves m none = Unit
Leaves m (some q) = length q ≤ m

abbrev pub LeavesCopied : ℕ → Option (Bytes × Bytes) → Type 0
LeavesCopied m none = Unit
LeavesCopied m (some copied) = length copied.1 ≤ m

pub skip_json_value-Leaves : (p : Bytes) → Leaves (length p) (skip_json_value p)
skip_json_value-Leaves p = go (skip_json_value p) (skip_json_value-EndsIn p)
  where
    go : (r : Option Bytes) → MayEndIn p r → Leaves (length p) r
    go none h = tt
    go (some q) h = EndsIn-length p q h

pub copy_json_object_raw-LeavesCopied :
    (p : Bytes) (n : ℕ) → LeavesCopied (length p) (copy_json_object_raw p n)
copy_json_object_raw-LeavesCopied p n =
    go (copy_json_object_raw p n) (copy_json_object_raw-IsCopied p n)
  where
    go : (r : Option (Bytes × Bytes)) → IsCopied p n r → LeavesCopied (length p) r
    go none h = tt
    go (some copied) h = omega (arith, ap length h.0, length-append copied.0 copied.1)

abbrev pub CopyFits : ℕ → Option (Bytes × Bytes) → Type 0
CopyFits n none = Unit
CopyFits n (some copied) = length copied.0 < n

pub copy_json_object_raw-Fits : (p : Bytes) (n : ℕ) → CopyFits n (copy_json_object_raw p n)
copy_json_object_raw-Fits p n = go (copy_json_object_raw p n) (copy_json_object_raw-IsCopied p n)
  where
    go : (r : Option (Bytes × Bytes)) → IsCopied p n r → CopyFits n r
    go none h = tt
    go (some copied) h = h.1
