-- ===== src/Base/Word.antt =====
-- Machine words of the C source as native numbers: u8, u16 and u32 keep their wrap-around.
use liberdos.Base.{ℕ, ◌+◌, ◌*◌, ◌/◌, ◌%◌, ◌^◌}

abbrev pub u8 : ℕ → ℕ
u8 x = x % 2 ^ 8

abbrev pub u16 : ℕ → ℕ
u16 x = x % 2 ^ 16

abbrev pub u32 : ℕ → ℕ
u32 x = x % 2 ^ 32

-- `(u8)(w >> 8)` and `(u8)w` of a u16.
abbrev pub high : ℕ → ℕ
high w = w / 256 % 256

abbrev pub low : ℕ → ℕ
low w = w % 256

-- `(w & 0xFF00) | v` for a u16 `w` and a u8 `v`: the low byte replaced.
abbrev pub with_low : ℕ → ℕ → ℕ
with_low w v = w / 256 * 256 + v

-- `(v << 8) | (w & 0xFF)`: the high byte replaced.
abbrev pub with_high : ℕ → ℕ → ℕ
with_high w v = v * 256 + w % 256
