-- ===== src/Text/Equal.antt =====
-- The comparisons of C text decide equality and prefixes.
use anything_tool.Base.{◌≡◌, refl, ◌↔◌, true, [], ◌∷◌, ◌++◌, arith}
use anything_tool.Text.{Bytes, str_eq, starts_with}

pub str_eq_iff : (a b : Bytes) → (str_eq a b ≡ true) ↔ (a ≡ b)
unfolding str_eq
str_eq_iff (x ∷ a) (y ∷ b) = ground (arith, str_eq_iff a b)
str_eq_iff _ _ = ground arith

pub str_eq_refl : (a : Bytes) → str_eq a a ≡ true
str_eq_refl a = (str_eq_iff a a).1 refl

pub starts_with_split : (p s : Bytes) → starts_with p s ≡ true → (rest : Bytes) × (s ≡ p ++ rest)
unfolding starts_with
starts_with_split [] s h = (s, refl)
starts_with_split (x ∷ p) [] h = absurd (cc)
starts_with_split (x ∷ p) (y ∷ s) h =
    let (rest, e) = starts_with_split p s (ground arith) in (rest, ground arith)

pub starts_with-append : (p rest : Bytes) → starts_with p (p ++ rest) ≡ true
unfolding starts_with
starts_with-append [] rest = refl
starts_with-append (x ∷ p) rest = ground (arith, starts_with-append p rest)
