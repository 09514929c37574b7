-- ===== src/Rpc/Value.antt =====
-- copy_json_object_raw and skip_json_value of rpc.c.
pub mod Suffix
use mathlib.Core.Option
use anything_tool.Base.{
  ℕ, suc, ◌+◌, ◌-◌, ◌≤◌, ◌<◌, ◌≡◌, Bool, true, false, not, ◌||◌, Option, none, some, ◌>>=◌, List,
  [], ◌∷◌, ◌++◌, arith, length, take, Next, again, stop, Falls, Loop, run, ◌==◌, if◌then◌else◌, leb,
}
use anything_tool.Text.{Bytes}
use anything_tool.Rpc.Scan.{skip_ws}
use anything_tool.Rpc.Literal.{skip_json_string, skip_json_string-Skips}

-- The loop's variables: how many brackets are open, and the cursor.
abbrev pub Nesting : Type 0
Nesting = ℕ × Bytes

-- A string inside is skipped whole, then `continue`.
unfoldable pub skip_inner_string : ℕ → Bytes → Next Nesting (Option Bytes)
skip_inner_string depth p = elim (skip_json_string p) [
  | none ↦ stop none
  | some rest ↦ again (depth, rest)
]

-- `depth` is an int, and 0 only at the opening brace: a closing one is met at 1 or more.
unfoldable pub object_step : Nesting → Next Nesting (Option Bytes)
object_step (depth, []) = stop none
object_step (depth, c ∷ cs) =
    if c == b'"'
    then skip_inner_string depth (c ∷ cs)
    else if c == b'{'
    then again (depth + 1, cs)
    else if c == b'}'
    then (if depth == 1 then stop (some cs) else again (depth - 1, cs))
    else again (depth, cs)

pub array_step : Nesting → Next Nesting (Option Bytes)
array_step (depth, []) = stop none
array_step (depth, c ∷ cs) =
    if c == b'"'
    then skip_inner_string depth (c ∷ cs)
    else if c == b'['
    then again (depth + 1, cs)
    else if c == b']'
    then (if depth == 1 then stop (some cs) else again (depth - 1, cs))
    else again (depth, cs)

pub object-Falls : (s : Nesting) → Falls (λ s. length s.1) (length s.1) (object_step s)
unfolding object_step skip_inner_string
object-Falls (depth, []) = tt
object-Falls (depth, c ∷ cs) = ground (arith, skip_json_string-Skips (c ∷ cs))

pub array-Falls : (s : Nesting) → Falls (λ s. length s.1) (length s.1) (array_step s)
unfolding array_step skip_inner_string
array-Falls (depth, []) = tt
array-Falls (depth, c ∷ cs) = ground (arith, skip_json_string-Skips (c ∷ cs))

abbrev pub object_loop : Loop Nesting (Option Bytes)
object_loop = record {
  step = object_step;
  measure = λ s. length s.1;
  spent = none;
  falls = object-Falls;
}

abbrev pub array_loop : Loop Nesting (Option Bytes)
array_loop = record {
  step = array_step;
  measure = λ s. length s.1;
  spent = none;
  falls = array-Falls;
}

-- The text of the object, copied into a buffer of n bytes, and the cursor behind it.
unfoldable pub copy_json_object_raw : Bytes → ℕ → Option (Bytes × Bytes)
unfolding run object_step skip_inner_string skip_json_string
copy_json_object_raw [] n = none
copy_json_object_raw (c ∷ cs) n = if not (c == b'{') then none else do
  rest ← run object_loop (0, c ∷ cs)
  let len = length (c ∷ cs) - length rest
  if leb n len then none else some (take len (c ∷ cs), rest)

-- A number, a name, or nothing: up to the next separator.
pub skip_scalar : Bytes → Bytes
skip_scalar [] = []
skip_scalar (c ∷ cs) = if c == b',' || (c == b'}' || c == b']') then c ∷ cs else skip_scalar cs

pub skip_value_at : Bytes → Option Bytes
skip_value_at [] = some []
skip_value_at (c ∷ cs) =
    if c == b'"'
    then skip_json_string (c ∷ cs)
    else if c == b'{'
    then Option.map (λ copied. copied.1) (copy_json_object_raw (c ∷ cs) 1024)
    else if c == b'['
    then run array_loop (0, c ∷ cs)
    else some (skip_scalar (c ∷ cs))

-- The cursor behind the value.
unfoldable pub skip_json_value : Bytes → Option Bytes
unfolding skip_value_at skip_scalar copy_json_object_raw array_step skip_inner_string
skip_json_value p = skip_value_at (skip_ws p)
