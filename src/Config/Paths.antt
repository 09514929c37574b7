-- ===== src/Config/Paths.antt =====
-- path_is_under of config.c, and audit_path_under of audit.c, which is the same text.
use mathlib.Core.List.{concat-ne-nil}
use anything_tool.Base.{
  ℕ, ◌≡◌, ◌≢◌, refl, subst, sym, ap, ◌∙◌, ◌⊎◌, inl, inr, ◌↔◌, Bool, true, false, not, [], ◌∷◌, ◌++◌,
  append-nil, arith, length, drop, ◌==◌, if◌then◌else◌,
}
use anything_tool.Text.{Bytes, starts_with}
use anything_tool.Text.Equal.{starts_with_split, starts_with-append}

-- path[n] is a NUL or a slash.
unfoldable pub at_boundary : Bytes → Bool
at_boundary [] = true
at_boundary (c ∷ cs) = c == b'/'

unfoldable pub path_is_under : Bytes → Bytes → Bool
unfolding at_boundary starts_with
path_is_under path root =
    if length root == 0
    then false
    else if not (starts_with root path)
    then false
    else at_boundary (drop (length root) path)

-- The path is the root, or goes on behind the root with a slash.
abbrev pub IsBelow : Bytes → Bytes → Type 0
IsBelow path root = (path ≡ root) ⊎ ((rest : Bytes) × (path ≡ root ++ (b'/' ∷ rest)))

drop-append : (a b : Bytes) → drop (length a) (a ++ b) ≡ b
drop-append [] b = refl
drop-append (x ∷ a) b = drop-append a b

pub at_boundary-append :
    (root rest : Bytes) → root ≢ [] → path_is_under (root ++ rest) root ≡ at_boundary rest
unfolding path_is_under
at_boundary-append [] rest h = absurd (h refl)
at_boundary-append (r ∷ root) rest h =
    ground (arith, starts_with-append (r ∷ root) rest, drop-append (r ∷ root) rest)

under-starts_with :
    (path root : Bytes) → path_is_under path root ≡ true → starts_with root path ≡ true
unfolding path_is_under
under-starts_with path root h = ground arith

boundary-IsBelow : (root rest : Bytes) → at_boundary rest ≡ true → IsBelow (root ++ rest) root
unfolding at_boundary
boundary-IsBelow root [] h = inl (append-nil root)
boundary-IsBelow root (c ∷ cs) h = inr (cs, ap (λ x. root ++ x ∷ cs) (ground arith))

-- A path is under a root that is not empty exactly when it is the root, or the root and then a
-- slash begin it.
pub path_is_under_iff :
    (path root : Bytes) → root ≢ [] → (path_is_under path root ≡ true) ↔ IsBelow path root
unfolding at_boundary
path_is_under_iff path root h = (
  λ under.
      let (rest, e) = starts_with_split root path (under-starts_with path root under) in
      subst (λ p. IsBelow p root) (sym e)
        (boundary-IsBelow root rest (
          sym (at_boundary-append root rest h) ∙ subst (λ p. path_is_under p root ≡ true) e under)),
  λ below. elim below [
    | inl e ↦
        subst (λ p. path_is_under p root ≡ true) (append-nil root ∙ sym e)
          (at_boundary-append root [] h)
    | inr (rest, e) ↦
        subst (λ p. path_is_under p root ≡ true) (sym e) (at_boundary-append root (b'/' ∷ rest) h)
  ],
)

-- A root that is written with a slash at its end covers no path that goes on behind that slash with
-- a byte other than a second slash.
pub not_under_slash :
    (root rest : Bytes) (c : ℕ)
    → c ≢ b'/'
    → path_is_under ((root ++ b'/' ∷ []) ++ (c ∷ rest)) (root ++ b'/' ∷ []) ≡ false
not_under_slash root rest c h =
    at_boundary-append (root ++ b'/' ∷ []) (c ∷ rest) (λ e. concat-ne-nil b'/' root e)
    ∙ (unfold at_boundary in ground arith)
