-- ===== src/Approval/Lookup.antt =====
-- Each entry of a sound store is found by its id.
use anything_tool.Base.{
  ℕ, zero, suc, ◌+◌, ◌<◌, ◌≡◌, ◌≢◌, sym, ap, ◌∙◌, some, List, [], ◌∷◌, ◌++◌, arith, length,
  length-append, get_elem?, subst, Option, if◌then◌else◌,
}
use anything_tool.Text.{Bytes, codes, str_eq}
use anything_tool.Text.Equal.{str_eq_iff, str_eq_refl}
use anything_tool.Text.Clip.{clip_fits}
use anything_tool.Text.Decimal.{decimal, decimal_injective, decimal_short}
use anything_tool.Config.{Config}
use anything_tool.Approval.{Pending, Store, request_id_of, Found, find_from, find}
use anything_tool.Approval.Sound.{Numbered, IsSound}

prefix_injective : (a b : Bytes) → codes "req_" ++ a ≡ codes "req_" ++ b → a ≡ b
prefix_injective a b e = ground arith

request_id_whole : (n : ℕ) → n < 100 → request_id_of n ≡ codes "req_" ++ decimal n
unfolding request_id_of
request_id_whole n h =
    clip_fits 40 (codes "req_" ++ decimal n)
      (omega (arith, decimal_short n h, length-append (codes "req_") (decimal n)))

request_id_of_injective : (m n : ℕ) → m < 100 → n < 100 → request_id_of m ≡ request_id_of n → m ≡ n
request_id_of_injective m n hm hn e = decimal_injective m n (
    prefix_injective (decimal m) (decimal n)
      (sym (request_id_whole m hm) ∙ e ∙ request_id_whole n hn))

Numbered-get :
    (n : ℕ) (ps : List Pending) (j : ℕ) (p : Pending)
    → Numbered n ps
    → get_elem? ps j ≡ some p
    → p.request_id ≡ request_id_of (n + j)
Numbered-get n [] j p h e = absurd (cc)
Numbered-get n (q ∷ ps) zero p h e = ground (arith, h.0)
Numbered-get n (q ∷ ps) (suc j) p h e =
    Numbered-get (n + 1) ps j p h.1 e ∙ ap request_id_of (omega arith)

pub get_bound : (ps : List Pending) (j : ℕ) (p : Pending) → get_elem? ps j ≡ some p → j < length ps
get_bound [] j p e = absurd (cc)
get_bound (q ∷ ps) zero p e = omega arith
get_bound (q ∷ ps) (suc j) p e = omega (arith, get_bound ps j p e)

later : (n j : ℕ) → n ≢ n + suc j
later n j e = omega arith

found_here :
    (k : ℕ) (q p : Pending) (rest : Option Found)
    → q ≡ p
    → (if str_eq q.request_id p.request_id then some (k, q) else rest) ≡ some (k + 0, p)
found_here k q p rest e =
    subst
      (λ (t : Pending).
        (if str_eq t.request_id p.request_id then some (k, t) else rest) ≡ some (k + 0, p))
      (sym e) (rw (str_eq_refl p.request_id) (ap (λ m. some (m, p)) (omega arith)))

passed_by :
    (k : ℕ) (q p : Pending) (rest : Option Found)
    → q.request_id ≢ p.request_id
    → (if str_eq q.request_id p.request_id then some (k, q) else rest) ≡ rest
passed_by k q p rest h = ground (arith, str_eq_iff q.request_id p.request_id)

find_from-Numbered :
    (k n : ℕ) (ps : List Pending) (j : ℕ) (p : Pending)
    → Numbered n ps
    → n + j < 100
    → get_elem? ps j ≡ some p
    → find_from k ps p.request_id ≡ some (k + j, p)
unfolding find_from
find_from-Numbered k n [] j p h b e = absurd (cc)
find_from-Numbered k n (q ∷ ps) zero p h b e =
    found_here k q p (find_from (k + 1) ps p.request_id) (ground arith)
find_from-Numbered k n (q ∷ ps) (suc j) p h b e =
    passed_by k q p (find_from (k + 1) ps p.request_id) (λ same. later n j (
      request_id_of_injective n (n + suc j) (omega arith) b
        (sym h.0 ∙ same ∙ Numbered-get n (q ∷ ps) (suc j) p h e)))
    ∙ find_from-Numbered (k + 1) (n + 1) ps j p h.1 (omega arith) e
    ∙ ap (λ m. some (m, p)) (omega arith)

-- Each entry of a sound store, which every run of the daemon keeps, is the one that a search for its
-- id finds: no two entries share an id.
pub get-find :
    (config : Config) (s : Store) (i : ℕ) (p : Pending)
    → IsSound config s
    → get_elem? s.entries i ≡ some p
    → find s p.request_id ≡ some (i, p)
unfolding find
get-find config s i p h e =
    find_from-Numbered 0 1 s.entries i p h.numbered
      (omega (arith, get_bound s.entries i p e, h.room)) e
    ∙ ap (λ m. some (m, p)) (omega arith)
