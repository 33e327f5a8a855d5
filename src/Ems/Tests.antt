-- ===== src/Ems/Tests.antt =====
-- src/kernel/ems.c: runs of the driver on small inputs, and the theorems at such inputs.
use liberdos.Base.{
  ℕ, zero, suc, ◌+◌, ◌-◌, ◌*◌, ◌/◌, ◌%◌, ◌^◌, ◌≤◌, ◌<◌, ◌≡◌, ◌≢◌, ◌⊎◌, inl, inr, refl, sym, ap, ◌∙◌,
  Bool, true, false, not, ◌&&◌, ◌||◌, Option, none, some, arith, Array, update, ltb, leb, ◌==◌,
  if◌then◌else◌, ℕ_discrete, some→eq,
}
use liberdos.Base.Loop.{for_each, find_from}
use liberdos.Machine.{Bios, Iregs, set_ah, copied, poke_word}
use liberdos.Xms.{Xms, free_handle}
use liberdos.Xms.Start.{xms_reserve, reserve_at}
use liberdos.Xms.Reserve.{IsTaken}
use liberdos.Xms.Pool.{find_gap, gap_loop, next_block_above, next_loop}
use liberdos.Xms.Invariant.{HasPool}
use liberdos.Xms.Move.{desc_base, put_desc, copy_loop, xms_copy}
use liberdos.Xms.Move.Copy.{Moves}
use liberdos.Ems.{
  Ems, Ehandle, Emap, page_bytes, frame_lin, unmapped, no_owner, run_loop, backing_alloc, flushed,
  phys_flush, brought_in, bring_in, map_page,
}
use liberdos.Ems.Runs.{FirstRun, backing_alloc-FirstRun}
use liberdos.Ems.Calls.{no_name, shrunk, reallocate}
use liberdos.Ems.Kept.{IsStore}
use liberdos.Ems.Answers.{Returns}
use liberdos.Ems.Switch.{ems_dispatch}
use liberdos.Ems.Dispatch.{ems_dispatch-Returns}
use liberdos.Ems.Pages.{IsBacked, HasPage, home}
use liberdos.Ems.Paging.{mapping, map_page-map_page}
use liberdos.Ems.Shrink.{shrink_keeps_mapping}
use liberdos.Ems.Start.{Chipset, probe_loop, frame_unlock, reserved, ems_init}
use liberdos.Ems.Ready.{IsReady, ems_init-IsReady}

-- A BIOS whose block move always works.
abbrev test_bios : Bios
test_bios = record {
  move = λ src dst words ram. (0, copied (desc_base dst) (desc_base src) (2 * words) ram);
  e801_kb = 15360;
  kb_88 = 0;
  in_92 = λ port. port;
  out_92 = λ port v. v;
}

test_bios-Moves : Moves test_bios
test_bios-Moves = record { moved = λ src dst words ram a small apart ok. refl }

-- Handle 0 has pages 0 and 1 of six; page 1 is in the frame.
abbrev no_handle : Ehandle
no_handle = record { used = false; npages = 0; first = 0; name = no_name }

abbrev test_handles : Array Ehandle
test_handles =
    update (λ _. no_handle) 0 (record { used = true; npages = 2; first = 0; name = no_name })

abbrev test_owner : Array ℕ
test_owner p = if ltb p 2 then 0 else no_owner

abbrev nothing : Emap
nothing = record { handle = unmapped; lpage = 0 }

abbrev test_ems : Ems
test_ems = record {
  eh = test_handles;
  backing_base = 0x110000;
  total_pages = 6;
  used_pages = 2;
  present = true;
  page_owner = test_owner;
  cur_map = update (λ _. nothing) 0 (mapping 0 1);
  saved_map = λ _ _. nothing;
  saved_used = λ _. false;
  ram = λ a. a;
}

test_ems-IsStore : IsStore test_ems
unfolding liberdos.Base.Loop.count_from
test_ems-IsStore = record {
  owned = record {
    small = omega arith;
    end = λ h hh u. ground arith;
    owns = λ h p i. ground (arith, i.used, i.from, i.below);
    owned = λ p hp ne. record {
      index = ground arith;
      used = ground arith;
      from = ground arith;
      below = ground arith;
    };
  };
  count = refl;
}

test_ems-IsBacked : IsBacked test_ems
test_ems-IsBacked = record { above = omega arith; below = omega arith }

page : (l : ℕ) → l < 2 → HasPage test_ems 0 l
page l hl = record { index = omega arith; used = refl; below = hl }

abbrev regs : ℕ → ℕ → ℕ → Iregs
regs ax bx dx = record {
  ax = ax;
  bx = bx;
  cx = 0;
  dx = dx;
  si = 0;
  di = 0;
  bp = 0;
  ds = 0;
  es = 0;
  ip = 0;
  cs = 0;
  flags = 0;
}

free_run : backing_alloc test_ems 4 ≡ some 2
unfolding backing_alloc run_loop
free_run = refl

backing_alloc-FirstRun_example : FirstRun test_owner 6 4 (backing_alloc test_ems 4)
backing_alloc-FirstRun_example = backing_alloc-FirstRun test_ems 4 (omega arith) (omega arith)

ems_dispatch-Returns_example : Returns (ems_dispatch test_bios test_ems (regs 0x4300 4 0))
ems_dispatch-Returns_example =
    ems_dispatch-Returns test_bios test_ems (regs 0x4300 4 0) test_ems-IsStore

-- The state that a call leaves.
abbrev left_by : {A : Type 0} → Option (Ems × A) → Ems
left_by none = test_ems
left_by (some (y, a)) = y

abbrev first_mapped : Ems
first_mapped = left_by (map_page test_bios test_ems 0 0 0)

first_mapped_lem : map_page test_bios test_ems 0 0 0 ≡ some (first_mapped, 0)
unfolding map_page bring_in brought_in phys_flush flushed xms_copy copy_loop put_desc
first_mapped_lem = refl

abbrev mapped_back : Ems
mapped_back = left_by (map_page test_bios first_mapped 0 1 0)

mapped_back_lem : map_page test_bios first_mapped 0 1 0 ≡ some (mapped_back, 0)
unfolding map_page bring_in brought_in phys_flush flushed xms_copy copy_loop put_desc
mapped_back_lem = refl

map_page-map_page_example :
    (mapped_back.cur_map 0 ≡ mapping 0 1)
    × ((a : ℕ)
        → frame_lin 0 ≤ a
        → a < frame_lin 0 + page_bytes
        → mapped_back.ram a ≡ test_ems.ram a)
map_page-map_page_example =
    map_page-map_page test_bios test_ems first_mapped mapped_back 0 1 0 0 0 test_bios-Moves
      test_ems-IsStore test_ems-IsBacked (omega arith) (page 1 (omega arith)) (page 0 (omega arith))
      (inr (omega arith)) refl first_mapped_lem mapped_back_lem

-- Handle 0 keeps one page; its page 1 stays in the frame.
abbrev shrink_regs : Iregs
shrink_regs = regs 0x5100 1 1

abbrev one_page : Ems
one_page = shrunk test_ems 0 1

one_page_lem : reallocate test_bios test_ems shrink_regs ≡ some (one_page, set_ah shrink_regs 0)
unfolding reallocate
one_page_lem = refl

abbrev written : Ems
written = left_by (phys_flush test_bios one_page 0)

written_lem : phys_flush test_bios one_page 0 ≡ some (written, true)
unfolding phys_flush flushed xms_copy copy_loop put_desc for_each
written_lem = refl

shrink_keeps_mapping_example :
    (set_ah shrink_regs 0 ≡ set_ah shrink_regs 0)
    × (one_page.cur_map 0 ≡ mapping 0 1)
    × (one_page.page_owner 1 ≡ no_owner)
    × ((a : ℕ) → written.ram a ≡ copied (home test_ems 0 1) (frame_lin 0) page_bytes test_ems.ram a)
shrink_keeps_mapping_example =
    shrink_keeps_mapping test_bios test_ems one_page written shrink_regs (set_ah shrink_regs 0) 1 0
      test_bios-Moves test_ems-IsStore test_ems-IsBacked (omega arith) (page 1 (omega arith))
      (omega arith) (omega arith) refl one_page_lem written_lem

-- A machine with RAM at D000h and an empty pool.
abbrev test_chipset : Chipset
test_chipset = record {
  pci_pam_unlock = λ ram. (0x3333, ram);
  pokew = λ ram seg off v. poke_word ram seg off v;
}

abbrev test_pool : Xms
test_pool = record {
  xh = λ _. record { used = false; locks = 0; base_kb = 0; size_kb = 0 };
  pool_end_kb = 16384;
  hma_used = false;
  a20_count = 0;
  port_92 = 0;
  ram = λ _. 0;
}

test_pool-HasPool : HasPool test_pool
test_pool-HasPool = record {
  start = omega arith;
  bound = omega arith;
  inside = λ i hi u. ground arith;
  apart = λ i j hi hj ne u w. ground arith;
  locks = λ i hi. omega arith;
}

abbrev cold : Ems
cold = record test_ems { ram = λ _. 0; total_pages = 0; used_pages = 0; present = false }

abbrev boot : Option (Xms × Ems × ℕ)
boot = ems_init test_chipset test_pool cold

abbrev pool_of : Option (Xms × Ems × ℕ) → Xms
pool_of none = test_pool
pool_of (some (p, x, kb)) = p

abbrev ems_of : Option (Xms × Ems × ℕ) → Ems
ems_of none = cold
ems_of (some (p, x, kb)) = x

boot_lem : ems_init test_chipset test_pool cold ≡ some (pool_of boot, ems_of boot, 4096)
unfolding ems_init frame_unlock probe_loop reserved xms_reserve reserve_at free_handle find_from
    find_gap gap_loop next_block_above next_loop
boot_lem = refl

ems_init-IsReady_example :
    IsReady (ems_of boot)
    × IsTaken test_pool (pool_of boot) 4096 (ems_of boot).backing_base
    × (◌≡◌ {A = ℕ} 4096 4096)
ems_init-IsReady_example =
    ems_init-IsReady test_chipset test_pool (pool_of boot) cold (ems_of boot) 4096 test_pool-HasPool
      boot_lem (omega arith)
