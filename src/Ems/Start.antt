-- ===== src/Ems/Start.antt =====
-- src/kernel/ems.c: `frame_unlock`, `ems_init` and `ems_avail`. The chipset is a parameter: the call of
-- startup.asm that opens the region D000h, and a store of a word there, which need not find RAM.
use liberdos.Base.{
  ℕ, zero, suc, ◌+◌, ◌*◌, ◌/◌, Bool, true, false, Option, none, some, ◌==◌, ◌&&◌, if◌then◌else◌,
}
use liberdos.Base.Loop.{for_each}
use liberdos.Base.Word.{u16}
use liberdos.Machine.{Ram, peek_word}
use liberdos.Xms.{Xms}
use liberdos.Xms.Start.{xms_reserve}
use liberdos.Ems.{Ems, Ehandle, Emap, frame_seg, phys_pages, handle_count, unmapped, no_owner}

-- `pci_pam_unlock`, with the RAM as it is seen after it, and `pokew`.
pub record Chipset : Type 0 where
  pub pci_pam_unlock : Ram → ℕ × Ram
  pub pokew : Ram → ℕ → ℕ → ℕ → Ram

abbrev pub backing_kb : ℕ
backing_kb = 4096

abbrev pub page_kb : ℕ
page_kb = 16

-- The write test of the four pages.
unfoldable pub probe_loop : Chipset → ℕ → ℕ → Ram → Bool × Ram
probe_loop c zero off ram = (true, ram)
probe_loop c (suc n) off ram =
    let o = u16 (off * 0x4000) in
    let after =
      c.pokew (c.pokew ram frame_seg o 0x55AA) frame_seg (u16 (o + 0x3FFE)) (u16 (0x1234 + off)) in
    let rest = probe_loop c n (off + 1) after in
    if peek_word after frame_seg o == 0x55AA
      && peek_word after frame_seg (u16 (o + 0x3FFE)) == u16 (0x1234 + off)
    then rest
    else (false, after)

unfoldable pub frame_unlock : Chipset → Ram → Bool × Ram
unfolding probe_loop
frame_unlock c ram =
    if peek_word ram frame_seg 0 == 0xAA55
    then (false, ram)
    else let (pam, opened) = c.pci_pam_unlock ram in
      if pam == 0x3333 then probe_loop c 4 0 opened else (false, opened)

-- The tables as `ems_init` sets them, and the size for the boot banner.
abbrev pub started : Ems → ℕ → Ems
started x base = record x {
  backing_base = base;
  total_pages = backing_kb / page_kb;
  used_pages = 0;
  eh = for_each handle_count 0 (λ (h : Ehandle). record h { used = false }) x.eh;
  saved_used = for_each handle_count 0 (λ _. false) x.saved_used;
  page_owner = for_each (backing_kb / page_kb) 0 (λ _. no_owner) x.page_owner;
  cur_map = for_each phys_pages 0 (λ (m : Emap). record m { handle = unmapped }) x.cur_map;
  present = true;
}

unfoldable pub reserved : Ems → Option (Xms × ℕ) → Option (Xms × Ems × ℕ)
reserved x none = none
reserved x (some (xms, base)) =
    if base == 0
    then some (xms, record x { backing_base = 0 }, 0)
    else some (xms, started x base, backing_kb)

unfoldable pub ems_init : Chipset → Xms → Ems → Option (Xms × Ems × ℕ)
unfolding frame_unlock reserved
ems_init c xms x =
    let (ok, ram) = frame_unlock c x.ram in
    let y = record x { ram = ram } in
    if ok then reserved y (xms_reserve xms backing_kb) else some (xms, y, 0)

abbrev pub ems_avail : Ems → Bool
ems_avail x = x.present
