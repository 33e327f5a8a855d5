-- ===== src/Ems.antt =====
-- src/kernel/ems.c: the EMS driver. The static variables are the record `Ems`, with RAM; a function
-- that copies pages answers `none` where `xms_copy` runs out of fuel.
pub mod Runs
pub mod Calls
pub mod Tables
pub mod Switch
pub mod Start
pub mod Store
pub mod Kept
pub mod Answers
pub mod Dispatch
pub mod Pages
pub mod Paging
pub mod Ready
pub mod Shrink
mod Tests
use liberdos.Base.{
  ℕ, zero, suc, ◌+◌, ◌-◌, ◌*◌, ◌^◌, Bool, true, false, not, ◌&&◌, ◌||◌, Option, none, some, ltb,
  leb, ◌==◌, if◌then◌else◌, Array, update,
}
use liberdos.Base.Word.{u16, u32}
use liberdos.Machine.{Bios, Ram}
use liberdos.Xms.Move.{xms_copy}

abbrev pub frame_seg : ℕ
frame_seg = 0xD000

abbrev pub phys_pages : ℕ
phys_pages = 4

abbrev pub handle_count : ℕ
handle_count = 32

-- `EMS_UNMAPPED`, and the owner of a free page.
abbrev pub unmapped : ℕ
unmapped = 0xFFFF

abbrev pub no_owner : ℕ
no_owner = 0xFF

abbrev pub page_bytes : ℕ
page_bytes = 16384

-- `ehandle` and `emap`.
pub record Ehandle : Type 0 where
  pub used : Bool
  pub npages : ℕ
  pub first : ℕ
  pub name : Array ℕ

pub record Emap : Type 0 where
  pub handle : ℕ
  pub lpage : ℕ

pub record Ems : Type 0 where
  pub eh : Array Ehandle
  pub backing_base : ℕ
  pub total_pages : ℕ
  pub used_pages : ℕ
  pub present : Bool
  pub page_owner : Array ℕ
  pub cur_map : Array Emap
  pub saved_map : Array (Array Emap)
  pub saved_used : Array Bool
  pub ram : Ram

-- The loop of `backing_alloc` over the `n` pages from `i` on, with `run` free ones in front of them.
pub run_loop : Array ℕ → ℕ → ℕ → ℕ → ℕ → Option ℕ
run_loop owner npages zero i run = none
run_loop owner npages (suc n) i run =
    let longer = run_loop owner npages n (i + 1) (run + 1) in
    let fresh = run_loop owner npages n (i + 1) 0 in
    if owner i == no_owner
    then if run + 1 == npages then some (u16 (i + 1 + (2 ^ 16 - npages))) else longer
    else fresh

pub backing_alloc : Ems → ℕ → Option ℕ
backing_alloc x npages = run_loop x.page_owner npages x.total_pages 0 0

abbrev pub backing_lin : Ems → ℕ → ℕ
backing_lin x page = u32 (x.backing_base + page * page_bytes)

abbrev pub frame_lin : ℕ → ℕ
frame_lin ppage = frame_seg * 16 + ppage * page_bytes

-- The backing page of a logical page.
abbrev pub backing_page : Ems → ℕ → ℕ → ℕ
backing_page x h lpage = u16 ((x.eh h).first + lpage)

-- `phys_flush`: whether it worked.
flushed : Ems → ℕ → Option (ℕ × Ram) → Option (Ems × Bool)
flushed x ppage none = none
flushed x ppage (some (status, ram)) =
    if status == 0
    then some (
      record x {
        ram = ram;
        cur_map = update x.cur_map ppage (record (x.cur_map ppage) { handle = unmapped });
      },
      true,
    )
    else some (record x { ram = ram }, false)

pub phys_flush : Bios → Ems → ℕ → Option (Ems × Bool)
unfolding flushed
phys_flush bios x ppage =
    let m = x.cur_map ppage in
    if m.handle == unmapped
    then some (x, true)
    else flushed x ppage (
        xms_copy bios (backing_lin x (backing_page x m.handle m.lpage)) (frame_lin ppage) page_bytes
          x.ram)

-- The two steps of `map_page` behind its checks; the status that goes to AH.
brought_in : Ems → ℕ → ℕ → ℕ → Option (ℕ × Ram) → Option (Ems × ℕ)
brought_in x h lpage ppage none = none
brought_in x h lpage ppage (some (status, ram)) =
    if status == 0
    then some (
      record x {
        ram = ram;
        cur_map = update x.cur_map ppage (record { handle = h; lpage = lpage });
      },
      0x00,
    )
    else some (record x { ram = ram }, 0x80)

bring_in : Bios → ℕ → ℕ → ℕ → Option (Ems × Bool) → Option (Ems × ℕ)
unfolding brought_in
bring_in bios h lpage ppage none = none
bring_in bios h lpage ppage (some (x, false)) = some (x, 0x80)
bring_in bios h lpage ppage (some (x, true)) =
    brought_in x h lpage ppage
      (xms_copy bios (frame_lin ppage) (backing_lin x (backing_page x h lpage)) page_bytes x.ram)

unmapping : Option (Ems × Bool) → Option (Ems × ℕ)
unmapping none = none
unmapping (some (x, ok)) = some (x, if ok then 0x00 else 0x80)

pub map_page : Bios → Ems → ℕ → ℕ → ℕ → Option (Ems × ℕ)
unfolding bring_in unmapping
map_page bios x h lpage ppage =
    if leb phys_pages ppage
    then some (x, 0x8B)
    else if lpage == unmapped
    then unmapping (phys_flush bios x ppage)
    else if leb handle_count h || not (x.eh h).used
    then some (x, 0x83)
    else if leb (x.eh h).npages lpage
    then some (x, 0x8A)
    else if (x.cur_map ppage).handle == h && (x.cur_map ppage).lpage == lpage
    then some (x, 0x00)
    else bring_in bios h lpage ppage (phys_flush bios x ppage)

-- A loop of calls of `map_page`, that ends at the first one that fails: `request` is what the next
-- call is given, read from the state that the calls before it left.
pub map_many : Bios → (Ems → ℕ → ℕ × ℕ × ℕ) → ℕ → ℕ → Ems → Option (Ems × ℕ)
map_many bios request zero i x = some (x, 0x00)
map_many bios request (suc n) i x =
    let (h, lpage, ppage) = request x i in
    elim (map_page bios x h lpage ppage) [
      | none ↦ none
      | some (y, status) ↦
          let rest = map_many bios request n (i + 1) y in
          if status == 0 then rest else some (y, status)
    ]
