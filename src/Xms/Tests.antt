-- ===== src/Xms/Tests.antt =====
-- src/kernel/xms.c: runs of the driver on small inputs, and the theorems at such inputs.

use liberdos.Base.{
  ℕ, ◌+◌, ◌-◌, ◌^◌, ◌%◌, ◌*◌, ◌<◌, ◌≡◌, inl, refl, true, false, none, some, arith, Array, update,
}
use liberdos.Base.Loop.{find_from}
use liberdos.Machine.{Bios, copied}
use liberdos.Xms.Pool.{
  Handle, pool_start_kb, next_loop, next_block_above, gap_loop, find_gap, query_loop, query_free,
  IsPool, HasSizes,
}
use liberdos.Xms.Pool.Walk.{FirstFit, find_gap-total}
use liberdos.Xms.Pool.Query.{Reports, query_free-Reports}
use liberdos.Xms.Move.{desc_base, at, emm_linear, EmmMove, Moved, copy_loop, do_move}
use liberdos.Xms.Move.Copy.{Moves, Copies, copy_loop-Copies}
use liberdos.Xms.Move.Bounds.{HasCopied, do_move-copies, emm_linear_wraps}
use liberdos.Xms.{Xms, XFrame, fail, free, lock, unlock, allocate, reallocate, free_handle}
use liberdos.Xms.Start.{reserve_at, xms_reserve}
use liberdos.Xms.Answers.{IsSound, Answers}
use liberdos.Xms.Hang.{IsPlugged, walks_hang, allocate_nothing-IsPlugged}
use liberdos.Xms.Overlap.{SharesBase, grow_overlaps}
use liberdos.Xms.Alloc.{Allocated, allocate-Allocated}
use liberdos.Xms.Locks.{lock-guards, reserve_freed}
use liberdos.Xms.Dispatch.{xms_dispatch}
use liberdos.Xms.Dispatch.Invariant.{xms_dispatch-Answers}

-- A BIOS whose block move always works.
abbrev test_bios : Bios
test_bios = record {
  move = λ src dst words ram. (0, copied (desc_base dst) (desc_base src) (2 * words) ram);
  e801_kb = 15360;
  kb_88 = 0;
  in_92 = λ port. port;
  out_92 = λ port v. v;
}

test_bios-Moves : Moves test_bios
test_bios-Moves = record { moved = λ src dst words ram a small apart ok. refl }

abbrev no_block : Handle
no_block = record { used = false; locks = 0; base_kb = 0; size_kb = 0 }

-- Handles 1 and 2: 64 KB at the start of the pool, and 100 KB behind a gap of 48 KB.
abbrev block_a : Handle
block_a = record { used = true; locks = 0; base_kb = 1088; size_kb = 64 }

abbrev block_b : Handle
block_b = record { used = true; locks = 0; base_kb = 1200; size_kb = 100 }

abbrev two_blocks : Array Handle
two_blocks = update (update (λ _. no_block) 0 block_a) 1 block_b

abbrev test_xms : Array Handle → Xms
test_xms xh = record {
  xh = xh;
  pool_end_kb = 2048;
  hma_used = false;
  a20_count = 0;
  port_92 = 0;
  ram = λ a. a;
}

abbrev frame : ℕ → ℕ → ℕ → XFrame
frame ax bx dx = record {
  ax = ax;
  bx = bx;
  cx = 0;
  dx = dx;
  si = 0;
  di = 0;
  bp = 0;
  ds = 0;
  es = 0;
}

two_blocks-IsPool : IsPool two_blocks 2048
two_blocks-IsPool = record {
  start = omega arith;
  bound = omega arith;
  inside = λ i hi u. ground arith;
  apart = λ i j hi hj ne u w. ground arith;
  locks = λ i hi. ground arith;
}

two_blocks-HasSizes : HasSizes two_blocks
two_blocks-HasSizes i hi u = ground arith

two_blocks-IsSound : IsSound (test_xms two_blocks)
two_blocks-IsSound = record { pool = two_blocks-IsPool; sizes = two_blocks-HasSizes }

gap_between : find_gap two_blocks 2048 40 ≡ some 1152
unfolding find_gap gap_loop next_block_above next_loop
gap_between = refl

gap_behind : find_gap two_blocks 2048 60 ≡ some 1300
unfolding find_gap gap_loop next_block_above next_loop
gap_behind = refl

all_that_is_free : query_free two_blocks 2048 ≡ some (748, 796)
unfolding query_free query_loop next_block_above next_loop
all_that_is_free = refl

find_gap-total_example :
    (g : ℕ) × (find_gap two_blocks 2048 60 ≡ some g) × FirstFit two_blocks 2048 60 g
find_gap-total_example =
    find_gap-total two_blocks 2048 60 two_blocks-IsPool (omega arith) two_blocks-HasSizes

query_free-Reports_example :
    (r : ℕ × ℕ) × (query_free two_blocks 2048 ≡ some r) × Reports two_blocks 2048 r
query_free-Reports_example =
    query_free-Reports two_blocks 2048 two_blocks-IsPool two_blocks-HasSizes

copy_loop-Copies_example :
    Copies 0x200000 0x100000 70000 (λ a. a) (copy_loop test_bios 3 0x200000 0x100000 70000 (λ a. a))
copy_loop-Copies_example =
    copy_loop-Copies test_bios test_bios-Moves 3 0x200000 0x100000 70000 (λ a. a) refl
      (omega arith, omega arith, inl (omega arith)) (omega arith)

abbrev a_to_b : EmmMove
a_to_b = record { length = 1000; src_handle = 1; src_off = 64; dst_handle = 2; dst_off = 0 }

do_move-copies_example :
    (r : Moved) × (do_move test_bios two_blocks a_to_b (λ a. a) ≡ some r)
    × HasCopied two_blocks a_to_b (λ a. a) r
do_move-copies_example =
    do_move-copies two_blocks 2048 two_blocks-IsPool test_bios a_to_b (λ a. a) test_bios-Moves
      (omega arith) (omega arith) (omega arith) (omega arith) (omega arith)

emm_linear_wraps_example :
    (emm_linear two_blocks 1 (2 ^ 32 - 2) 4 0xA3 0xA4 ≡ at ((1088 * 1024 + (2 ^ 32 - 2)) % 2 ^ 32))
    × (64 * 1024 < 2 ^ 32 - 2 + 4)
emm_linear_wraps_example =
    emm_linear_wraps two_blocks 1 (2 ^ 32 - 2) 4 0xA3 0xA4 (omega arith) (omega arith) refl
      (omega arith) (omega arith) (omega arith) (omega arith) (omega arith)

xms_dispatch-Answers_example :
    Answers (xms_dispatch test_bios (test_xms two_blocks) (frame 0x0900 0 60))
xms_dispatch-Answers_example =
    xms_dispatch-Answers test_bios (test_xms two_blocks) (frame 0x0900 0 60) two_blocks-IsSound
      (record {
        dx = omega arith;
        bx = omega arith;
        allocates = λ e. omega arith;
        reallocates = λ e. ground arith;
      })

allocate-Allocated_example :
    Allocated
      (test_xms two_blocks)
      (frame 0x0900 0 60)
      (allocate (test_xms two_blocks) (frame 0x0900 0 60))
allocate-Allocated_example =
    allocate-Allocated (test_xms two_blocks) (frame 0x0900 0 60) two_blocks-IsSound (omega arith)
      (omega arith)

lock-guards_example :
    let y = (lock (test_xms two_blocks) (frame 0x0C00 0 1)).0 in
    (free y (frame 0x0A00 0 1) ≡ (y, fail (frame 0x0A00 0 1) 0xAB))
    × (reallocate y (frame 0x0A00 0 1) ≡ (y, fail (frame 0x0A00 0 1) 0xAB))
    × ((unlock y (frame 0x0A00 0 1)).0 ≡ test_xms two_blocks)
lock-guards_example =
    lock-guards (test_xms two_blocks) (frame 0x0C00 0 1) (frame 0x0A00 0 1) refl (omega arith) refl

-- The state after a reservation of 16 KB.
abbrev reserved_16 : Xms
reserved_16 =
    test_xms (update two_blocks 2 (record { used = true; locks = 1; base_kb = 1152; size_kb = 16 }))

reserves_16 : xms_reserve (test_xms two_blocks) 16 ≡ some (reserved_16, 1152 * 1024)
unfolding xms_reserve reserve_at free_handle find_from find_gap gap_loop next_block_above next_loop
reserves_16 = refl

reserve_freed_example :
    (h : ℕ) × ((reserved_16.xh h).used ≡ true)
    × ((unlock reserved_16 (record (frame 0 0 0) { dx = h + 1 })).1.ax ≡ 1)
    × ((free
          (unlock reserved_16 (record (frame 0 0 0) { dx = h + 1 })).0
          (record (frame 0 0 0) { dx = h + 1 })).1.ax
        ≡ 1)
    × (((free
            (unlock reserved_16 (record (frame 0 0 0) { dx = h + 1 })).0
            (record (frame 0 0 0) { dx = h + 1 })).0.xh
          h).used
        ≡ false)
reserve_freed_example =
    reserve_freed (test_xms two_blocks) 16 reserved_16 (1152 * 1024) (frame 0 0 0) reserves_16
      (omega arith)

-- A pool with nothing but an empty block, as function 09h makes it for DX = 0.
abbrev plugged : Xms
plugged =
    test_xms
      (update (λ _. no_block) 0 (record { used = true; locks = 0; base_kb = 1088; size_kb = 0 }))

plugged-IsPlugged : IsPlugged plugged 0
plugged-IsPlugged = record {
  index = omega arith;
  used = refl;
  base = refl;
  empty = refl;
  alone = λ i hi u ne. ground arith;
}

walks_hang_example :
    (gap_loop 1000 plugged.xh 2048 16 pool_start_kb ≡ none)
    × (query_loop 1000 plugged.xh 2048 pool_start_kb (0, 0) ≡ none)
walks_hang_example =
    walks_hang plugged 0 16 1000 (0, 0) plugged-IsPlugged (omega arith) (omega arith)

abbrev no_blocks : Array Handle
no_blocks = λ _. no_block

no_blocks-IsPool : IsPool no_blocks 2048
no_blocks-IsPool = record {
  start = omega arith;
  bound = omega arith;
  inside = λ i hi u. cc;
  apart = λ i j hi hj ne u w. cc;
  locks = λ i hi. omega arith;
}

no_blocks_free : free_handle no_blocks ≡ some 0
unfolding free_handle find_from
no_blocks_free = refl

allocate_nothing-IsPlugged_example :
    (y : Xms) × (q : XFrame) × (allocate (test_xms no_blocks) (frame 0x0900 0 0) ≡ some (y, q))
    × (q.ax ≡ 1)
    × IsPlugged y 0
allocate_nothing-IsPlugged_example =
    allocate_nothing-IsPlugged (test_xms no_blocks) (frame 0x0900 0 0) 0 no_blocks-IsPool
      no_blocks_free refl (λ i hi u. cc)

-- The empty block of handle 3 and the 64 KB of handle 1 start at one base.
abbrev shared_base : Xms
shared_base =
    test_xms (update two_blocks 2 (record { used = true; locks = 0; base_kb = 1088; size_kb = 0 }))

shared_base-SharesBase : SharesBase shared_base (frame 0x0F00 100 3) 0
shared_base-SharesBase = record {
  handle = refl;
  other = omega arith;
  unlocked = refl;
  base = refl;
  empty = refl;
  b_base = refl;
  clear = λ i hi u ne nb. ground arith;
  room = omega arith;
  asked = omega arith;
  small = omega arith;
}

grow_overlaps_example :
    let (y, q) = reallocate shared_base (frame 0x0F00 100 3) in
    (q.ax ≡ 1)
    × ((y.xh 2).base_kb ≡ (y.xh 0).base_kb)
    × ((y.xh 2).size_kb ≡ 100)
    × ((y.xh 0).size_kb ≡ 64)
grow_overlaps_example = grow_overlaps shared_base (frame 0x0F00 100 3) 0 shared_base-SharesBase
