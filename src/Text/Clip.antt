-- ===== src/Text/Clip.antt =====
-- A copy into a buffer fits in it, and loses nothing that fitted before.
use anything_tool.Base.{ℕ, ◌-◌, ◌<◌, ◌≡◌, arith, length, length-take, take_all, All, All-take}
use anything_tool.Text.{Bytes, clip}

pub length-clip : (n : ℕ) (s : Bytes) → 0 < n → length (clip n s) < n
length-clip n s h = omega (arith, length-take (n - 1) s)

pub clip_fits : (n : ℕ) (s : Bytes) → length s < n → clip n s ≡ s
clip_fits n s h = take_all (n - 1) s (omega arith)

pub All-clip {κ} : (P : ℕ → Type κ) (n : ℕ) (s : Bytes) → All P s → All P (clip n s)
All-clip P n s h = All-take P (n - 1) s h
