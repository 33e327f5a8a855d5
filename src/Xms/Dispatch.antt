-- ===== src/Xms/Dispatch.antt =====
-- src/kernel/xms.c: `xms_dispatch`, the switch over the functions of the driver.
pub mod Invariant
use liberdos.Base.{ℕ, ◌||◌, Option, some, ◌==◌, if◌then◌else◌}
use liberdos.Base.Word.{high}
use liberdos.Machine.{Bios}
use liberdos.Xms.{
  Xms, XFrame, Reply, fail, query_extended, allocate, free, move, lock, unlock, handle_info,
  reallocate,
}
use liberdos.Xms.Gates.{request_hma, release_hma, enable_a20, disable_a20, query_a20}

-- The functions of the driver, as the switch on AH tells them apart.
pub data Function : Type 0 where
  version_fn request_hma_fn release_hma_fn enable_a20_fn disable_a20_fn query_a20_fn : Function
  query_extended_fn allocate_fn free_fn move_fn lock_fn unlock_fn handle_info_fn : Function
  reallocate_fn request_umb_fn release_umb_fn unknown_fn : Function

unfoldable pub function_of : ℕ → Function
function_of fn =
    if fn == 0x00
    then version_fn
    else if fn == 0x01
    then request_hma_fn
    else if fn == 0x02
    then release_hma_fn
    else if fn == 0x03 || fn == 0x05
    then enable_a20_fn
    else if fn == 0x04 || fn == 0x06
    then disable_a20_fn
    else if fn == 0x07
    then query_a20_fn
    else if fn == 0x08
    then query_extended_fn
    else if fn == 0x09
    then allocate_fn
    else if fn == 0x0A
    then free_fn
    else if fn == 0x0B
    then move_fn
    else if fn == 0x0C
    then lock_fn
    else if fn == 0x0D
    then unlock_fn
    else if fn == 0x0E
    then handle_info_fn
    else if fn == 0x0F
    then reallocate_fn
    else if fn == 0x10
    then request_umb_fn
    else if fn == 0x11
    then release_umb_fn
    else unknown_fn

unfoldable pub perform : Bios → Xms → XFrame → Function → Reply
perform bios x r version_fn = some (x, record r { ax = 0x0200; bx = 0x0001; dx = 1 })
perform bios x r request_hma_fn = some (request_hma x r)
perform bios x r release_hma_fn = some (release_hma x r)
perform bios x r enable_a20_fn = some (enable_a20 bios x r)
perform bios x r disable_a20_fn = some (disable_a20 x r)
perform bios x r query_a20_fn = some (x, query_a20 bios x r)
perform bios x r query_extended_fn = query_extended x r
perform bios x r allocate_fn = allocate x r
perform bios x r free_fn = some (free x r)
perform bios x r move_fn = move bios x r
perform bios x r lock_fn = some (lock x r)
perform bios x r unlock_fn = some (unlock x r)
perform bios x r handle_info_fn = some (x, handle_info x r)
perform bios x r reallocate_fn = some (reallocate x r)
perform bios x r request_umb_fn = some (x, record (fail r 0xB1) { dx = 0 })
perform bios x r release_umb_fn = some (x, fail r 0xB2)
perform bios x r unknown_fn = some (x, fail r 0x80)

unfoldable pub xms_dispatch : Bios → Xms → XFrame → Reply
unfolding function_of perform
xms_dispatch bios x r = perform bios x r (function_of (high r.ax))
