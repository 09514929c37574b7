-- ===== src/Transport/Lines.antt =====
-- A request of one line that arrives in time is handed over whole, in whatever pieces it arrives.
use anything_tool.Base.{
  ℕ, ◌-◌, ◌≤◌, ◌<◌, ◌≡◌, refl, sym, ap, ◌∙◌, Bool, true, false, List, [], ◌∷◌, ◌++◌, append_assoc,
  append-nil, arith, leb, length, take, take_all, length-append, Bool-cases, inl, inr,
}
use anything_tool.Text.{Bytes}
use anything_tool.Transport.{
  ReadAnswer, interrupted, closed, broken, arrived, received, has_newline, read_rounds,
  finish_reading, read_request,
}
use anything_tool.Transport.Reads.{stream}

-- Only bytes arrive, with interruptions between them.
abbrev pub only_bytes : List ReadAnswer → Bool
only_bytes [] = true
only_bytes (interrupted ∷ answers) = only_bytes answers
only_bytes (arrived c cs ∷ answers) = only_bytes answers
only_bytes (_ ∷ answers) = false

abbrev pub line : Bytes → Bytes
line text = text ++ b'\n' ∷ []

has_newline-line : (text : Bytes) → has_newline (line text) ≡ true
unfolding has_newline
has_newline-line [] = refl
has_newline-line (c ∷ text) = ground (arith, has_newline-line text)

cons_same : {x y : ℕ} {xs ys : Bytes} → x ∷ xs ≡ y ∷ ys → (x ≡ y) × (xs ≡ ys)
cons_same e = (cc, cc)

append-empty : (a b : Bytes) → a ++ b ≡ [] → a ≡ []
append-empty [] b e = refl
append-empty (x ∷ a) b e = absurd (cc)

-- A beginning of the line that has its newline is all of it.
line_prefix :
    (a b text : Bytes)
    → a ++ b ≡ line text
    → has_newline text ≡ false
    → has_newline a ≡ true
    → a ≡ line text
unfolding has_newline
line_prefix [] b text e h k = absurd (cc)
line_prefix (x ∷ a) b [] e h k =
    let (same, none_left) = cons_same e in let nothing : a ≡ [] = append-empty a b none_left in cc
line_prefix (x ∷ a) b (c ∷ text) e h k =
    let (same, rest) = cons_same e in
    let later : a ≡ line text = line_prefix a b text rest (ground arith) (ground arith) in cc

module _ (max_bytes : ℕ) (text : Bytes) (one_line : has_newline text ≡ false)
    (fits : length (line text) < max_bytes) where
  room : (got rest : Bytes) → got ++ rest ≡ line text → leb max_bytes (length got) ≡ false
  room got rest all = ground (arith, length-append got rest, ap length all)

  within :
      (got new rest : Bytes)
      → got ++ (new ++ rest) ≡ line text
      → length new ≤ max_bytes - length got
  within got new rest all =
      omega (arith, length-append got (new ++ rest), length-append new rest, ap length all)

  read_rounds-line :
      (got : Bytes) (answers : List ReadAnswer)
      → only_bytes answers ≡ true
      → got ++ stream answers ≡ line text
      → has_newline got ≡ false
      → read_rounds max_bytes got answers ≡ received (line text)
  unfolding read_rounds
  read_rounds-line got [] only all h =
      let whole : got ≡ line text = sym (append-nil got) ∙ all in
      absurd (ground (arith, has_newline-line text))
  read_rounds-line got (interrupted ∷ answers) only all h =
      rw (room got (stream answers) all) (read_rounds-line got answers only all h)
  read_rounds-line got (closed ∷ answers) only all h = absurd (cc)
  read_rounds-line got (broken why ∷ answers) only all h = absurd (cc)
  read_rounds-line got (arrived c cs ∷ answers) only all h =
      let all_took : take (max_bytes - length got) (c ∷ cs) ≡ c ∷ cs =
        take_all (max_bytes - length got) (c ∷ cs) (within got (c ∷ cs) (stream answers) all) in
      let after_all : (got ++ (c ∷ cs)) ++ stream answers ≡ line text =
        append_assoc got (c ∷ cs) (stream answers) ∙ all in
      rw (room got (stream (arrived c cs ∷ answers)) all, all_took)
        (elim (Bool-cases (has_newline (got ++ (c ∷ cs)))) [
          | inl ended ↦ rw ended (
              ap received
                (line_prefix (got ++ (c ∷ cs)) (stream answers) text after_all one_line ended))
          | inr more ↦ rw more (read_rounds-line (got ++ (c ∷ cs)) answers only after_all more)
        ])

-- A request of one line, shorter than the limit, that arrives before the deadline, is handed over
-- whole, in whatever pieces it arrives and however often the reads are interrupted.
pub read_request-line :
    (max_bytes : ℕ) (text : Bytes) (answers : List ReadAnswer)
    → has_newline text ≡ false
    → length (line text) < max_bytes
    → only_bytes answers ≡ true
    → stream answers ≡ line text
    → read_request max_bytes answers false ≡ received (line text)
unfolding read_request finish_reading
read_request-line max_bytes text answers one_line fits only all =
    rw (read_rounds-line max_bytes text one_line fits [] answers only all refl, short) refl
  where
    short : leb max_bytes (length (line text)) ≡ false
    short = ground arith
