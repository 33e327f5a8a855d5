-- ===== src/Setver.antt =====
-- src/kernel/setver.c: the table of versions that programs are told.
pub mod Path
pub mod Lookup
mod Tests
use Prim.Native.Nat.{bit_or}
use liberdos.Base.{
  ℕ, zero, suc, ◌+◌, ◌-◌, ◌*◌, Bool, true, false, ◌&&◌, ◌||◌, Option, none, some, leb, ◌==◌,
  if◌then◌else◌, Array,
}
use liberdos.Base.Word.{u8, u16}
use liberdos.Machine.{Ram, peek_byte, poke_word}

-- `SETVER_MAX`, and the size of `setver_entry`'s name.
abbrev pub setver_max : ℕ
setver_max = 16

abbrev pub name_size : ℕ
name_size = 14

pub record SetverEntry : Type 0 where
  pub name : Array ℕ
  pub major : ℕ
  pub minor : ℕ

-- `up`: a letter as a capital.
abbrev pub up : ℕ → ℕ
up c = if leb 0x61 c && leb c 0x7A then u8 (c - 32) else c

abbrev pub is_separator : ℕ → Bool
is_separator c = c == 0x5C || (c == 0x2F || c == 0x3A)

-- The loop over the path at `seg:off`: where its last component begins. A path has an end within the
-- segment; `none` is a path that has none.
unfoldable pub base_loop : Ram → ℕ → ℕ → ℕ → ℕ → ℕ → Option ℕ
base_loop ram seg off zero i base = none
base_loop ram seg off (suc n) i base =
    let c = peek_byte ram seg (off + i) in
    let rest =
      base_loop ram seg off n (i + 1) (if is_separator c then u16 (off + i + 1) else base) in
    if c == 0 then some base else rest

-- The comparison of a name with the `n` characters from `k` on.
unfoldable pub name_loop : Array ℕ → Array ℕ → ℕ → ℕ → Bool
name_loop name text zero k = false
name_loop name text (suc n) k =
    let rest = name_loop name text n (k + 1) in
    if u8 (name k) == up (u8 (text k)) then if u8 (name k) == 0 then true else rest else false

abbrev pub is_for : Array ℕ → SetverEntry → Bool
is_for text e = if u8 (e.name 0) == 0 then false else name_loop e.name text name_size 0

-- The loop over the table.
abbrev pub version_of : SetverEntry → ℕ
version_of e = bit_or e.major (u16 (e.minor * 256))

unfoldable pub table_loop : Array SetverEntry → Array ℕ → ℕ → ℕ → ℕ → Ram → Ram
table_loop table text psp zero i ram = ram
table_loop table text psp (suc n) i ram =
    let rest = table_loop table text psp n (i + 1) ram in
    if is_for text (table i) then poke_word ram psp 0x40 (version_of (table i)) else rest

abbrev pub text_at : Ram → ℕ → ℕ → Array ℕ
text_at ram seg off k = peek_byte ram seg (off + k)

abbrev pub apply_at : Array SetverEntry → ℕ → ℕ → Ram → Option ℕ → Option Ram
apply_at table psp seg ram none = none
apply_at table psp seg ram (some base) =
    some (table_loop table (text_at ram seg base) psp setver_max 0 ram)

unfoldable pub setver_apply : Array SetverEntry → ℕ → ℕ → ℕ → Ram → Option Ram
unfolding base_loop table_loop name_loop
setver_apply table psp seg off ram = apply_at table psp seg ram (base_loop ram seg off 65536 0 off)
