-- ===== src/Fat/Slots.antt =====
-- src/kernel/fat.c: the slots of a long name, as `fat_alloc_lfn_entry` fills them and
-- `fat_dir_next_lfn` gathers them.
use Prim.Native.Nat.{bit_or}
use liberdos.Base.{
  ℕ, zero, suc, ◌+◌, ◌-◌, ◌*◌, ◌/◌, ◌%◌, Bool, true, false, ◌&&◌, ◌||◌, ltb, leb, ◌==◌,
  if◌then◌else◌, Array, update,
}
use liberdos.Base.Word.{u8, u16}
use liberdos.Fat.{word_at, put_word}

-- `lfn_unit_off`: five units from byte 1 on, six from 14 and two from 28.
abbrev pub unit_off : ℕ → ℕ
unit_off k = if ltb k 5 then 1 + 2 * k else if ltb k 11 then 4 + 2 * k else 6 + 2 * k

-- The characters of the name, an end, and filling.
abbrev pub unit_of : Array ℕ → ℕ → ℕ → ℕ
unit_of name len idx = if ltb idx len then u8 (name idx) else if idx == len then 0 else 0xFFFF

unfoldable pub fill_loop : Array ℕ → ℕ → ℕ → ℕ → ℕ → Array ℕ → Array ℕ
fill_loop name len base zero k raw = raw
fill_loop name len base (suc n) k raw =
    fill_loop name len base n (k + 1)
      (put_word raw (unit_off k) (unit_of name len (u16 (base + k))))

-- The slot with the ordinal `ordn`; `is_last` where it holds the end of the name.
abbrev pub base_of : ℕ → ℕ
base_of ordn = u16 ((ordn - 1) * 13)

abbrev pub empty_slot : Bool → ℕ → ℕ → Array ℕ
empty_slot is_last sum ordn =
    update (update (update (λ _. 0) 0 (u8 (bit_or ordn (if is_last then 0x40 else 0)))) 11 0x0F) 13
      sum

unfoldable pub filled_slot : Array ℕ → ℕ → Bool → ℕ → ℕ → Array ℕ
unfolding fill_loop
filled_slot name len is_last sum ordn =
    fill_loop name len (base_of ordn) 13 0 (empty_slot is_last sum ordn)

-- The loop over the units of a slot: the name so far, and its length.
unfoldable pub gather_loop : Array ℕ → ℕ → ℕ → ℕ → Array ℕ → ℕ → Array ℕ × ℕ
gather_loop raw base zero k buf len = (buf, len)
gather_loop raw base (suc n) k buf len =
    let unit = word_at raw (unit_off k) in
    let end = u16 (base + k + 1) in
    let rest =
      gather_loop raw base n (k + 1) (update buf (base + k) (u8 unit))
        (if ltb len end then end else len) in
    if unit == 0 || unit == 0xFFFF then (buf, len) else rest

-- The run of slots in progress: `buf`, `len`, `have` and `sum`.
pub record Gathered : Type 0 where
  pub buf : Array ℕ
  pub len : ℕ
  pub have : Bool
  pub sum : ℕ

abbrev pub restart : Array ℕ → Gathered → Gathered
restart raw g =
    if u8 (raw 0) / 64 % 2 == 1 then record g { have = true; len = 0; sum = u8 (raw 13) } else g

abbrev pub is_in_run : Array ℕ → Gathered → Bool
is_in_run raw g =
    g.have && (u8 (raw 13) == g.sum && (leb 1 (u8 (raw 0) % 32) && leb (u8 (raw 0) % 32 * 13) 260))

unfoldable pub gather : Array ℕ → Gathered → Gathered
unfolding gather_loop
gather raw start =
    let g = restart raw start in
    let (buf, len) = gather_loop raw (base_of (u8 (raw 0) % 32)) 13 0 g.buf g.len in
    if is_in_run raw g then record g { buf = buf; len = len } else record g { have = false }
