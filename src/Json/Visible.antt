-- ===== src/Json/Visible.antt =====
-- Text without control bytes, and the lines that are made of it.
use anything_tool.Base.{
  ◌≡◌, Bool, true, false, Option, none, some, [], ◌∷◌, ◌++◌, ℕ, length, All, All-append,
  if◌then◌else◌, ltb,
}
use anything_tool.Text.{Bytes}
use anything_tool.Json.{escape_string}
use anything_tool.Json.Escape.{
  IsVisible, all_visible, escaped, escaped-IsVisible, escape_string-escaped, all_visible-IsVisible,
}

abbrev pub Visible : Bytes → Type 0
Visible = All IsVisible

-- A text with no control byte, ended by a newline.
abbrev pub IsLine : Bytes → Type 0
IsLine s = (text : Bytes) × (s ≡ text ++ b'\n' ∷ []) × All IsVisible text

abbrev pub VisibleOr : Option Bytes → Type 0
VisibleOr none = Unit
VisibleOr (some t) = Visible t

pub escape_string-Visible : (n : ℕ) (s : Bytes) → VisibleOr (escape_string (some s) n)
escape_string-Visible n s = rw (escape_string-escaped n s) (go (ltb (length (escaped s)) n))
  where
    go : (b : Bool) → VisibleOr (if b then some (escaped s) else none)
    go true = escaped-IsVisible s
    go false = tt

pub lit : (s : Bytes) → all_visible s ≡ true → Visible s
lit s h = all_visible-IsVisible s h

-- Two pieces in a row, the first a literal.
pub then_text : (s t : Bytes) → all_visible s ≡ true → Visible t → Visible (s ++ t)
then_text s t h v = All-append IsVisible s t (lit s h) v
