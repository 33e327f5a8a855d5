-- ===== src/Ems/Calls.antt =====
-- src/kernel/ems.c: the functions of INT 67h, one for each case of the switch in `ems_dispatch`.
use liberdos.Base.{
  ℕ, ◌+◌, ◌-◌, ◌*◌, ◌^◌, Bool, true, false, not, ◌||◌, Option, none, some, ltb, ◌==◌, if◌then◌else◌,
  Array, update,
}
use liberdos.Base.Loop.{find_from, for_each, count_from}
use liberdos.Base.Word.{u8, u16, u32, low}
use liberdos.Machine.{Bios, Ram, Iregs, set_ah}
use liberdos.Xms.Move.{xms_copy}
use liberdos.Ems.{
  Ems, Emap, phys_pages, handle_count, unmapped, no_owner, page_bytes, backing_alloc, backing_lin,
  map_page, map_many,
}

abbrev pub Reply : Type 0
Reply = Option (Ems × Iregs)

-- A reply that only sets the status in AH.
abbrev pub status : Ems → Iregs → ℕ → Reply
status x r st = some (x, set_ah r st)

-- `handle_arg`: the test that it makes of DX; a bad handle ends the call.
abbrev pub is_bad : Ems → ℕ → Bool
is_bad x dx = dx == 0 || (ltb handle_count dx || not (x.eh (dx - 1)).used)

abbrev pub with_handle : Ems → Iregs → (ℕ → Reply) → Reply
with_handle x r k = if is_bad x r.dx then status x r 0x83 else k (r.dx - 1)

-- 42h.
unfoldable pub page_count : Ems → Iregs → Reply
page_count x r =
    status x (record r { bx = u16 (x.total_pages + (2 ^ 16 - x.used_pages)); dx = x.total_pages }) 0

-- 43h: the first handle that is not in use, and the pages that it is given.
unfoldable pub free_handle : Ems → Option ℕ
free_handle x = find_from (λ i. not (x.eh i).used) handle_count 0

abbrev pub no_name : Array ℕ
no_name _ = 0

abbrev pub given : Ems → ℕ → ℕ → ℕ → Ems
given x h npages first = record x {
  eh = update x.eh h (record { used = true; npages = npages; first = first; name = no_name });
  page_owner = for_each npages first (λ _. u8 h) x.page_owner;
  used_pages = u16 (x.used_pages + npages);
  saved_used = update x.saved_used h false;
}

unfoldable pub allocate_run : Ems → Iregs → ℕ → Option ℕ → Reply
allocate_run x r h none = status x r 0x88
allocate_run x r h (some first) = status (given x h r.bx first) (record r { dx = u16 (h + 1) }) 0

unfoldable pub allocate_for : Ems → Iregs → Option ℕ → Reply
unfolding allocate_run
allocate_for x r none = status x r 0x85
allocate_for x r (some h) = allocate_run x r h (backing_alloc x r.bx)

unfoldable pub allocate : Ems → Iregs → Reply
unfolding allocate_for free_handle
allocate x r =
    if r.bx == 0
    then status x r 0x89
    else if ltb x.total_pages r.bx
    then status x r 0x87
    else allocate_for x r (free_handle x)

-- What a call of `map_page` or of several comes to.
abbrev pub mapped : Iregs → Option (Ems × ℕ) → Reply
mapped r none = none
mapped r (some (x, st)) = status x r st

-- 44h.
abbrev pub map_at : Bios → Ems → Iregs → ℕ → Reply
map_at bios x r h = mapped r (map_page bios x h r.bx (low r.ax))

unfoldable pub fn_map : Bios → Ems → Iregs → Reply
fn_map bios x r = with_handle x r (map_at bios x r)

-- 45h: the mappings of the handle are dropped, its pages freed.
abbrev pub dropped : ℕ → Emap → Emap
dropped h m = if m.handle == h then record m { handle = unmapped } else m

abbrev pub released : Ems → ℕ → Ems
released x h = record x {
  cur_map = for_each phys_pages 0 (dropped h) x.cur_map;
  page_owner = for_each (x.eh h).npages (x.eh h).first (λ _. no_owner) x.page_owner;
  used_pages = u16 (x.used_pages + (2 ^ 16 - (x.eh h).npages));
  eh = update x.eh h (record (x.eh h) { used = false });
  saved_used = update x.saved_used h false;
}

abbrev pub release_at : Ems → Iregs → ℕ → Reply
release_at x r h = status (released x h) r 0

unfoldable pub release : Ems → Iregs → Reply
release x r = with_handle x r (release_at x r)

-- 47h.
abbrev pub save_at : Ems → Iregs → ℕ → Reply
save_at x r h =
    if x.saved_used h
    then status x r 0x8D
    else status
        (record x {
          saved_map =
              update x.saved_map h (λ i. if ltb i phys_pages then x.cur_map i else x.saved_map h i);
          saved_used = update x.saved_used h true;
        })
        r 0

unfoldable pub save_map : Ems → Iregs → Reply
save_map x r = with_handle x r (save_at x r)

-- 48h: the mappings are requested again, from the save area.
abbrev pub request_of : Emap → ℕ → ℕ × ℕ × ℕ
request_of m ppage = (m.handle, if m.handle == unmapped then unmapped else m.lpage, ppage)

abbrev pub restored : Iregs → ℕ → Option (Ems × ℕ) → Reply
restored r h none = none
restored r h (some (x, st)) =
    if st == 0
    then status (record x { saved_used = update x.saved_used h false }) r 0
    else status x r st

abbrev pub restore_at : Bios → Ems → Iregs → ℕ → Reply
restore_at bios x r h =
    if not (x.saved_used h)
    then status x r 0x8E
    else restored r h (map_many bios (λ y i. request_of (y.saved_map h i) i) phys_pages 0 x)

unfoldable pub restore_map : Bios → Ems → Iregs → Reply
restore_map bios x r = with_handle x r (restore_at bios x r)

-- 4Bh and 4Ch.
unfoldable pub open_handles : Ems → Iregs → Reply
open_handles x r = status x (record r { bx = count_from (λ i. (x.eh i).used) handle_count 0 }) 0

abbrev pub pages_at : Ems → Iregs → ℕ → Reply
pages_at x r h = status x (record r { bx = (x.eh h).npages }) 0

unfoldable pub handle_pages : Ems → Iregs → Reply
handle_pages x r = with_handle x r (pages_at x r)

-- 51h: the tail is freed, or the pages are copied to a new run.
abbrev pub shrunk : Ems → ℕ → ℕ → Ems
shrunk x h npages = record x {
  page_owner =
      for_each ((x.eh h).npages - npages) ((x.eh h).first + npages) (λ _. no_owner) x.page_owner;
  used_pages = u16 (x.used_pages + (2 ^ 16 - ((x.eh h).npages - npages)));
  eh = update x.eh h (record (x.eh h) { npages = npages });
}

abbrev pub moved : Ems → ℕ → ℕ → ℕ → Ems
moved x h npages first = record x {
  page_owner =
      for_each npages first (λ _. u8 h)
        (for_each (x.eh h).npages (x.eh h).first (λ _. no_owner) x.page_owner);
  used_pages = u16 (x.used_pages + (npages - (x.eh h).npages));
  eh = update x.eh h (record (x.eh h) { first = first; npages = npages });
}

abbrev pub grown : Ems → Iregs → ℕ → ℕ → Option (ℕ × Ram) → Reply
grown x r h first none = none
grown x r h first (some (st, ram)) =
    if st == 0
    then status (moved (record x { ram = ram }) h r.bx first) r 0
    else status (record x { ram = ram }) r 0x80

unfoldable pub grow_to : Bios → Ems → Iregs → ℕ → Option ℕ → Reply
grow_to bios x r h none = status x r 0x88
grow_to bios x r h (some first) = grown x r h first (
    xms_copy bios (backing_lin x first) (backing_lin x (x.eh h).first)
      (u32 ((x.eh h).npages * page_bytes)) x.ram)

abbrev pub resize_at : Bios → Ems → Iregs → ℕ → Reply
resize_at bios x r h =
    if r.bx == (x.eh h).npages
    then status x r 0
    else if ltb r.bx (x.eh h).npages
    then status (shrunk x h r.bx) r 0
    else grow_to bios x r h (backing_alloc x r.bx)

unfoldable pub reallocate : Bios → Ems → Iregs → Reply
unfolding grow_to
reallocate bios x r = with_handle x r (resize_at bios x r)
