-- ===== src/Xms/Move.antt =====
-- src/kernel/xms.c: function 0Bh, and the copy loop under it that EMS uses too. A copy goes through
-- the BIOS in chunks of 64 KB, each described by a GDT of 8-byte descriptors.
pub mod Copy
pub mod Bounds
pub mod Ends
use liberdos.Base.{
  ℕ, zero, suc, ◌+◌, ◌-◌, ◌*◌, ◌/◌, ◌%◌, ◌^◌, Bool, true, false, not, ◌||◌, Option, none, some,
  List, [], ◌∷◌, ltb, ◌==◌, if◌then◌else◌, Array,
}
use liberdos.Base.Word.{u8, u16, u32}
use liberdos.Machine.{Bios, Ram}
use liberdos.Xms.Pool.{Handle, handle_count}

-- `put_desc`: a data descriptor with a limit of 64 KB.
unfoldable pub put_desc : ℕ → List ℕ
put_desc base =
    0xFF
    ∷ 0xFF
    ∷ u8 base
    ∷ u8 (base / 2 ^ 8)
    ∷ u8 (base / 2 ^ 16)
    ∷ 0x93
    ∷ 0
    ∷ u8 (base / 2 ^ 24)
    ∷ []

-- The base address in a descriptor, by the layout of the processor.
abbrev pub desc_base : List ℕ → ℕ
desc_base (l0 ∷ l1 ∷ b0 ∷ b1 ∷ b2 ∷ access ∷ flags ∷ b3 ∷ []) =
    b0 + 2 ^ 8 * b1 + 2 ^ 16 * b2 + 2 ^ 24 * b3
desc_base _ = 0

-- The size of the next chunk.
abbrev pub chunk_of : ℕ → ℕ
chunk_of len = if ltb 0x10000 len then 0x10000 else len

-- The loop of `do_move` and `xms_copy`: the status of the last BIOS call and RAM; `none` when the
-- fuel ran out.
unfoldable pub copy_loop : Bios → ℕ → ℕ → ℕ → ℕ → Ram → Option (ℕ × Ram)
copy_loop bios zero dst src len ram = none
copy_loop bios (suc fuel) dst src len ram =
    let chunk = chunk_of len in
    let (status, ram') = bios.move (put_desc src) (put_desc dst) (u16 (chunk / 2)) ram in
    let rest = copy_loop bios fuel (u32 (dst + chunk)) (u32 (src + chunk)) (len - chunk) ram' in
    if len == 0 then some (0, ram) else if status == 0 then rest else some (status, ram')

-- A round for each 64 KB, one for the remainder and the last test.
abbrev pub copy_fuel : ℕ → ℕ
copy_fuel len = len / 0x10000 + 2

-- `xms_copy`: 0, or 1 for the -1 of the source.
unfoldable pub xms_copy : Bios → ℕ → ℕ → ℕ → Ram → Option (ℕ × Ram)
xms_copy bios dst src bytes ram = elim (copy_loop bios (copy_fuel bytes) dst src bytes ram) [
  | none ↦ none
  | some (status, ram') ↦ some (if status == 0 then 0 else 1, ram')
]

-- One side of a move: its linear address, or the error code for BL.
pub data Linear : Type 0 where
  bad : ℕ → Linear
  at : ℕ → Linear

pub emm_linear : Array Handle → ℕ → ℕ → ℕ → ℕ → ℕ → Linear
emm_linear xh handle off len err_h err_o =
    if handle == 0
    then at (off / 2 ^ 16 * 16 + off % 2 ^ 16)
    else if ltb handle_count handle || not (xh (handle - 1)).used
    then bad err_h
    else if ltb (u32 ((xh (handle - 1)).size_kb * 1024)) (u32 (off + len))
    then bad err_o
    else at (u32 ((xh (handle - 1)).base_kb * 1024 + off))

-- `emm_move`.
pub record EmmMove : Type 0 where
  pub length : ℕ
  pub src_handle : ℕ
  pub src_off : ℕ
  pub dst_handle : ℕ
  pub dst_off : ℕ

-- The outcome of `do_move`: AX = 1, or AX = 0 with an error code in BL; and RAM.
pub data Moved : Type 0 where
  done : Ram → Moved
  failed : ℕ → Ram → Moved

-- The end of `do_move`, when both sides are resolved.
copy_moved : Option (ℕ × Ram) → Option Moved
copy_moved none = none
copy_moved (some (status, ram)) = some (if status == 0 then done ram else failed 0x82 ram)

resolved : Bios → Ram → ℕ → Linear → Linear → Option Moved
resolved bios ram len (bad e) dst = some (failed e ram)
resolved bios ram len (at src) (bad e) = some (failed e ram)
resolved bios ram len (at src) (at dst) =
    copy_moved (copy_loop bios (copy_fuel len) dst src len ram)

pub do_move : Bios → Array Handle → EmmMove → Ram → Option Moved
unfolding resolved copy_moved
do_move bios xh m ram =
    if m.length % 2 == 1
    then some (failed 0xA7 ram)
    else resolved bios ram m.length (emm_linear xh m.src_handle m.src_off m.length 0xA3 0xA4)
        (emm_linear xh m.dst_handle m.dst_off m.length 0xA5 0xA6)
