-- ===== src/Ems/Switch.antt =====
-- src/kernel/ems.c: the switch in `ems_dispatch`.
use liberdos.Base.{not, some, ◌==◌, if◌then◌else◌}
use liberdos.Base.Word.{high}
use liberdos.Machine.{Bios, Iregs}
use liberdos.Ems.{Ems, frame_seg}
use liberdos.Ems.Calls.{
  Reply, status, page_count, allocate, fn_map, release, save_map, restore_map, open_handles,
  handle_pages, reallocate,
}
use liberdos.Ems.Tables.{all_pages, page_map, map_multiple, handle_name}

-- `ems_dispatch`.
unfoldable pub ems_dispatch : Bios → Ems → Iregs → Reply
ems_dispatch bios x r =
    let fn = high r.ax in
    if not x.present
    then status x r 0x84
    else if fn == 0x40
    then status x r 0
    else if fn == 0x41
    then status x (record r { bx = frame_seg }) 0
    else if fn == 0x42
    then page_count x r
    else if fn == 0x43
    then allocate x r
    else if fn == 0x44
    then fn_map bios x r
    else if fn == 0x45
    then release x r
    else if fn == 0x46
    then some (x, record r { ax = 0x40 })
    else if fn == 0x47
    then save_map x r
    else if fn == 0x48
    then restore_map bios x r
    else if fn == 0x4B
    then open_handles x r
    else if fn == 0x4C
    then handle_pages x r
    else if fn == 0x4D
    then all_pages x r
    else if fn == 0x4E
    then page_map bios x r
    else if fn == 0x50
    then map_multiple bios x r
    else if fn == 0x51
    then reallocate bios x r
    else if fn == 0x53
    then handle_name x r
    else status x r 0x84
