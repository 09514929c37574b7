-- ===== src/Config/Parse.antt =====
-- The text of the configuration file: trim, parse_quoted and parse_long_array of config.c.
use anything_tool.Base.{
  ℕ, suc, ◌≤◌, ◌<◌, ◌≡◌, false, Option, none, some, ◌>>=◌, List, [], ◌∷◌, ◌++◌, arith, leb,
  leb-false, ◌==◌, if◌then◌else◌, if-Holds, length, length-append, Next, again, stop, Falls, Holds,
  Loop, run, run_inv, ℤ,
}
use anything_tool.Text.{Bytes, is_space}
use anything_tool.Text.Lines.{
  skip_spaces, length-skip_spaces, strip_end, length-strip_end, split_at,
}
use anything_tool.Text.Numbers.{Scanned, scan_number, scan_number-Shorter, Shorter, clamp_long}

unfoldable pub trim : Bytes → Bytes
unfolding strip_end skip_spaces
trim text = strip_end is_space (skip_spaces text)

length-trim : (text : Bytes) → length (trim text) ≤ length text
unfolding trim
length-trim text =
    omega (arith, length-strip_end is_space (skip_spaces text), length-skip_spaces text)

-- What is between the first two quotes, where it fits in n bytes with its NUL.
unfoldable pub parse_quoted : ℕ → Bytes → Option Bytes
unfolding split_at
parse_quoted n value = do
  start ← split_at b'"' value
  text ← split_at b'"' start.1
  if leb n (length text.0) then none else some text.0

pub parse_quoted-fits :
    (n : ℕ) (value text : Bytes) → parse_quoted n value ≡ some text → length text < n
unfolding parse_quoted
parse_quoted-fits n value text h = ground arith

-- The ids so far, and the cursor.
abbrev Listing : Type 0
Listing = List ℤ × Bytes

-- Behind an id.
unfoldable pub end_id : List ℤ → Bytes → Next Listing (Option (List ℤ))
end_id ids [] = stop none
end_id ids (c ∷ cs) =
    if c == b',' then again (ids, cs) else if c == b']' then stop (some ids) else stop none

unfoldable pub read_id_at : ℕ → List ℤ → Bytes → Next Listing (Option (List ℤ))
read_id_at max_count ids p =
    if leb max_count (length ids) then stop none else elim (scan_number p) [
      | none ↦ stop none
      | some n ↦ end_id (ids ++ clamp_long n.negative n.magnitude ∷ []) (skip_spaces n.rest)
    ]

-- The text behind `trim`.
unfoldable pub id_at : ℕ → List ℤ → Bytes → Next Listing (Option (List ℤ))
id_at max_count ids [] = read_id_at max_count ids []
id_at max_count ids (c ∷ cs) =
    if c == b']' then stop (some ids) else read_id_at max_count ids (c ∷ cs)

unfoldable pub ids_step : ℕ → Listing → Next Listing (Option (List ℤ))
ids_step max_count (ids, []) = stop none
ids_step max_count (ids, c ∷ cs) = id_at max_count ids (trim (c ∷ cs))

abbrev unread : Listing → ℕ
unread s = length s.1

end_id-Falls : (m : ℕ) (ids : List ℤ) (p : Bytes) → length p ≤ m → Falls unread m (end_id ids p)
unfolding end_id
end_id-Falls m ids [] h = tt
end_id-Falls m ids (c ∷ cs) h = ground arith

read_id_at-Falls :
    (max_count m : ℕ) (ids : List ℤ) (p : Bytes)
    → length p ≤ m
    → Falls unread m (read_id_at max_count ids p)
unfolding read_id_at
read_id_at-Falls max_count m ids p h =
    if-Holds (Falls unread m) (leb max_count (length ids)) (λ _. tt)
      (λ _. go (scan_number p) (scan_number-Shorter p))
  where
    go :
        (o : Option Scanned)
        → Shorter (length p) o
        → Falls unread m (elim o [
          | none ↦ stop none
          | some n ↦ end_id (ids ++ clamp_long n.negative n.magnitude ∷ []) (skip_spaces n.rest)
        ])
    go none k = tt
    go (some n) k = end_id-Falls m _ (skip_spaces n.rest) (omega (arith, length-skip_spaces n.rest))

id_at-Falls :
    (max_count m : ℕ) (ids : List ℤ) (p : Bytes)
    → length p ≤ m
    → Falls unread m (id_at max_count ids p)
unfolding id_at
id_at-Falls max_count m ids [] h = read_id_at-Falls max_count m ids [] h
id_at-Falls max_count m ids (c ∷ cs) h =
    if-Holds (Falls unread m) (c == b']') (λ _. tt)
      (λ _. read_id_at-Falls max_count m ids (c ∷ cs) h)

pub ids-Falls : (max_count : ℕ) (s : Listing) → Falls unread (unread s) (ids_step max_count s)
unfolding ids_step
ids-Falls max_count (ids, []) = tt
ids-Falls max_count (ids, c ∷ cs) =
    id_at-Falls max_count (suc (length cs)) ids (trim (c ∷ cs)) (length-trim (c ∷ cs))

abbrev pub ids_loop : ℕ → Loop Listing (Option (List ℤ))
ids_loop max_count = record {
  step = ids_step max_count;
  measure = unread;
  spent = none;
  falls = ids-Falls max_count;
}

-- The ids between brackets, max_count of them at most.
unfoldable pub parse_long_array : ℕ → Bytes → Option (List ℤ)
unfolding run ids_step id_at read_id_at end_id trim scan_number clamp_long skip_spaces split_at
parse_long_array max_count value = do
  start ← split_at b'[' value
  run (ids_loop max_count) ([], start.1)

abbrev pub AtMost : ℕ → Option (List ℤ) → Type 0
AtMost m none = Unit
AtMost m (some ids) = length ids ≤ m

abbrev InListing : ℕ → Listing → Type 0
InListing m s = length s.0 ≤ m

end_id-AtMost :
    (m : ℕ) (ids : List ℤ) (p : Bytes)
    → length ids ≤ m
    → Holds (InListing m) (AtMost m) (end_id ids p)
unfolding end_id
end_id-AtMost m ids [] h = tt
end_id-AtMost m ids (c ∷ cs) h = ground arith

read_id_at-AtMost :
    (m : ℕ) (ids : List ℤ) (p : Bytes) → Holds (InListing m) (AtMost m) (read_id_at m ids p)
unfolding read_id_at
read_id_at-AtMost m ids p =
    if-Holds (Holds (InListing m) (AtMost m)) (leb m (length ids)) (λ _. tt)
      (λ room. go room (scan_number p))
  where
    go :
        leb m (length ids) ≡ false
        → (o : Option Scanned)
        → Holds (InListing m) (AtMost m) (elim o [
          | none ↦ stop none
          | some n ↦ end_id (ids ++ clamp_long n.negative n.magnitude ∷ []) (skip_spaces n.rest)
        ])
    go room none = tt
    go room (some n) = end_id-AtMost m _ (skip_spaces n.rest) (
        omega (
          arith,
          leb-false m (length ids) room,
          length-append ids (clamp_long n.negative n.magnitude ∷ []),
        ))

id_at-AtMost :
    (m : ℕ) (ids : List ℤ) (p : Bytes)
    → length ids ≤ m
    → Holds (InListing m) (AtMost m) (id_at m ids p)
unfolding id_at
id_at-AtMost m ids [] h = read_id_at-AtMost m ids []
id_at-AtMost m ids (c ∷ cs) h =
    if-Holds (Holds (InListing m) (AtMost m)) (c == b']') (λ _. h)
      (λ _. read_id_at-AtMost m ids (c ∷ cs))

ids_step-AtMost :
    (m : ℕ) (s : Listing) → InListing m s → Holds (InListing m) (AtMost m) (ids_step m s)
unfolding ids_step
ids_step-AtMost m (ids, []) h = tt
ids_step-AtMost m (ids, c ∷ cs) h = id_at-AtMost m ids (trim (c ∷ cs)) h

pub parse_long_array-AtMost : (m : ℕ) (value : Bytes) → AtMost m (parse_long_array m value)
unfolding parse_long_array
parse_long_array-AtMost m value = go (split_at b'[' value)
  where
    go : (o : Option (Bytes × Bytes)) → AtMost m (o >>= λ start. run (ids_loop m) ([], start.1))
    go none = tt
    go (some start) =
        run_inv (ids_loop m) (InListing m) (AtMost m) (ids_step-AtMost m) ([], start.1)
          (omega arith)
