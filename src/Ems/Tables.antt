-- ===== src/Ems/Tables.antt =====
-- src/kernel/ems.c: the functions of INT 67h that move tables between the driver and the program.
use liberdos.Base.{ℕ, zero, suc, ◌+◌, ◌*◌, not, ◌||◌, some, ltb, ◌==◌, if◌then◌else◌, Array, update}
use liberdos.Base.Word.{low}
use liberdos.Machine.{Bios, Ram, Iregs, peek_byte, peek_word, poke_byte, poke_word}
use liberdos.Ems.{Ems, Ehandle, Emap, phys_pages, handle_count, map_many}
use liberdos.Ems.Calls.{Reply, status, with_handle, mapped, request_of}

-- 4Dh: the table at ES:DI; each entry is two words.
unfoldable pub table_loop : Array Ehandle → Iregs → ℕ → ℕ → ℕ → Ram → ℕ × Ram
table_loop eh r zero i n ram = (n, ram)
table_loop eh r (suc k) i n ram =
    let written = table_loop eh r k (i + 1) (n + 1) (
      poke_word (poke_word ram r.es (r.di + 4 * n) (i + 1)) r.es (r.di + 4 * n + 2)
        (eh i).npages) in
    let skipped = table_loop eh r k (i + 1) n ram in if (eh i).used then written else skipped

unfoldable pub all_pages : Ems → Iregs → Reply
unfolding table_loop
all_pages x r =
    let (n, ram) = table_loop x.eh r handle_count 0 0 x.ram in
    status (record x { ram = ram }) (record r { bx = n }) 0

-- 4Eh: the four mappings as 16 bytes at ES:DI, or from DS:SI.
unfoldable pub put_maps : Array Emap → Iregs → ℕ → ℕ → Ram → Ram
put_maps m r zero i ram = ram
put_maps m r (suc k) i ram =
    put_maps m r k (i + 1) (
      poke_word (poke_word ram r.es (r.di + 4 * i) (m i).handle) r.es (r.di + 4 * i + 2)
        (m i).lpage)

abbrev pub get_map_at : Ram → Iregs → ℕ → Emap
get_map_at ram r i = record {
  handle = peek_word ram r.ds (r.si + 4 * i);
  lpage = peek_word ram r.ds (r.si + 4 * i + 2);
}

unfoldable pub page_map : Bios → Ems → Iregs → Reply
unfolding put_maps
page_map bios x r =
    let sub = low r.ax in
    let y =
      if sub == 0 || sub == 2
      then record x { ram = put_maps x.cur_map r phys_pages 0 x.ram }
      else x in
    if sub == 1 || sub == 2
    then mapped r (map_many bios (λ z i. request_of (get_map_at z.ram r i) i) phys_pages 0 y)
    else if sub == 3
    then some (y, record r { ax = 16 })
    else if ltb 3 sub
    then status y r 0x8F
    else status y r 0

-- 50h.
abbrev pub multiple_at : Bios → Ems → Iregs → ℕ → Reply
multiple_at bios x r h =
    if not (low r.ax == 0)
    then status x r 0x8F
    else mapped r (
        map_many bios
          (λ z i. (h, peek_word z.ram r.ds (r.si + 4 * i), peek_word z.ram r.ds (r.si + 4 * i + 2)))
          r.cx 0 x)

unfoldable pub map_multiple : Bios → Ems → Iregs → Reply
map_multiple bios x r = with_handle x r (multiple_at bios x r)

-- 53h: `fmemcpy` of the eight bytes of the name.
unfoldable pub put_name : Array ℕ → Iregs → ℕ → ℕ → Ram → Ram
put_name name r zero i ram = ram
put_name name r (suc k) i ram = put_name name r k (i + 1) (poke_byte ram r.es (r.di + i) (name i))

abbrev pub name_at : Ems → Iregs → ℕ → Reply
name_at x r h =
    if low r.ax == 0
    then status (record x { ram = put_name (x.eh h).name r 8 0 x.ram }) r 0
    else if low r.ax == 1
    then status
        (record x {
          eh = update x.eh h (record (x.eh h) {
            name = λ i. if ltb i 8 then peek_byte x.ram r.ds (r.si + i) else (x.eh h).name i;
          });
        })
        r 0
    else status x r 0x8F

unfoldable pub handle_name : Ems → Iregs → Reply
unfolding put_name
handle_name x r = with_handle x r (name_at x r)
