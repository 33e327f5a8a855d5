-- ===== src/Xms.antt =====
-- src/kernel/xms.c: the XMS driver. The static variables are the record `Xms`, with RAM and the
-- device behind port 92h; each function takes the register frame and returns it changed. `none`
-- stands for a call that never returns, since a walk through the pool took more than its fuel.
pub mod Pool
pub mod Move
pub mod Invariant
pub mod Grow
pub mod Start
pub mod Sizes
pub mod Reserve
pub mod Answers
pub mod Gates
pub mod Overlap
pub mod Alloc
pub mod Hang
pub mod Locks
pub mod Dispatch
mod Tests
use Prim.Native.Nat.{bit_and, bit_or}
use liberdos.Base.{
  ℕ, ◌+◌, ◌-◌, ◌*◌, ◌/◌, ◌%◌, ◌^◌, Bool, true, false, not, ◌&&◌, ◌||◌, Option, none, some, ltb, leb,
  ◌==◌, if◌then◌else◌, Array, update,
}
use liberdos.Base.Loop.{find_from, count_from, for_each}
use liberdos.Base.Word.{u8, u16, u32, with_low}
use liberdos.Machine.{Bios, Ram, peek_word, peek_dword}
use liberdos.Xms.Pool.{Handle, handle_count, pool_start_kb, next_block_above, find_gap, query_free}
use liberdos.Xms.Move.{EmmMove, Moved, done, failed, do_move}

pub record Xms : Type 0 where
  pub xh : Array Handle
  pub pool_end_kb : ℕ
  pub hma_used : Bool
  pub a20_count : ℕ
  pub port_92 : ℕ
  pub ram : Ram

-- `xframe`.
pub record XFrame : Type 0 where
  pub ax : ℕ
  pub bx : ℕ
  pub cx : ℕ
  pub dx : ℕ
  pub si : ℕ
  pub di : ℕ
  pub bp : ℕ
  pub ds : ℕ
  pub es : ℕ

abbrev pub Reply : Type 0
Reply = Option (Xms × XFrame)

-- AX = 0 and an error code in BL; AX = 1.
abbrev pub fail : XFrame → ℕ → XFrame
fail r err = record r { ax = 0; bx = with_low r.bx err }

abbrev pub succeed : XFrame → XFrame
succeed r = record r { ax = 1 }

-- 08h.
pub query_extended : Xms → XFrame → Reply
query_extended x r = elim (query_free x.xh x.pool_end_kb) [
  | none ↦ none
  | some (largest, total) ↦ some (
    x,
    record r {
      ax = u16 largest;
      dx = u16 total;
      bx = with_low r.bx (if largest == 0 then 0xA0 else 0);
    },
  )
]

-- The first handle that is not in use.
unfoldable pub free_handle : Array Handle → Option ℕ
free_handle xh = find_from (λ i. not (xh i).used) handle_count 0

-- 09h, behind the search for a handle.
pub allocate_at : Xms → XFrame → ℕ → Option ℕ → Reply
allocate_at x r h none = none
allocate_at x r h (some base) =
    if base == 0 && not (r.dx == 0)
    then some (x, fail r 0xA0)
    else some (
      record x {
        xh = update x.xh h (record {
          used = true;
          locks = 0;
          base_kb = if base == 0 then pool_start_kb else base;
          size_kb = r.dx;
        });
      },
      record r { ax = 1; dx = u16 (h + 1) },
    )

pub allocate : Xms → XFrame → Reply
unfolding allocate_at
allocate x r = elim (free_handle x.xh) [
  | none ↦ some (x, fail r 0xA1)
  | some h ↦ allocate_at x r h (find_gap x.xh x.pool_end_kb r.dx)
]

-- The test that 0Ah to 0Fh begin with, and the entry of a handle.
abbrev pub is_bad : Array Handle → ℕ → Bool
is_bad xh dx = dx == 0 || (ltb handle_count dx || not (xh (dx - 1)).used)

abbrev pub entry : Xms → XFrame → Handle
entry x r = x.xh (r.dx - 1)

abbrev pub set_entry : Xms → XFrame → Handle → Xms
set_entry x r h = record x { xh = update x.xh (r.dx - 1) h }

-- 0Ah.
pub free : Xms → XFrame → Xms × XFrame
free x r =
    if is_bad x.xh r.dx
    then (x, fail r 0xA2)
    else if not ((entry x r).locks == 0)
    then (x, fail r 0xAB)
    else (set_entry x r (record (entry x r) { used = false }), succeed r)

-- 0Bh: the structure at DS:SI, and the move.
read_move : Ram → ℕ → ℕ → EmmMove
read_move m ds si = record {
  length = peek_dword m ds si;
  src_handle = peek_word m ds (si + 4);
  src_off = peek_dword m ds (si + 6);
  dst_handle = peek_word m ds (si + 10);
  dst_off = peek_dword m ds (si + 12);
}

pub move : Bios → Xms → XFrame → Reply
unfolding read_move
move bios x r = elim (do_move bios x.xh (read_move x.ram r.ds r.si) x.ram) [
  | none ↦ none
  | some m ↦ elim m [
    | done ram ↦ some (record x { ram = ram }, succeed r)
    | failed err ram ↦ some (record x { ram = ram }, fail r err)
  ]
]

-- 0Ch.
pub lock : Xms → XFrame → Xms × XFrame
lock x r =
    if is_bad x.xh r.dx
    then (x, fail r 0xA2)
    else let h = entry x r in
      let lin = u32 (h.base_kb * 1024) in
      (
        set_entry x r (record h { locks = if ltb h.locks 0xFF then h.locks + 1 else h.locks }),
        record r { dx = lin / 2 ^ 16; bx = u16 lin; ax = 1 },
      )

-- 0Dh.
pub unlock : Xms → XFrame → Xms × XFrame
unlock x r =
    if is_bad x.xh r.dx
    then (x, fail r 0xA2)
    else if (entry x r).locks == 0
    then (x, fail r 0xAA)
    else (set_entry x r (record (entry x r) { locks = (entry x r).locks - 1 }), succeed r)

-- 0Eh.
pub handle_info : Xms → XFrame → XFrame
handle_info x r = if is_bad x.xh r.dx then fail r 0xA2 else record r {
  bx = u16 ((entry x r).locks * 256 + u8 (count_from (λ i. not (x.xh i).used) handle_count 0));
  dx = u16 (entry x r).size_kb;
  ax = 1;
}

-- The limit for a block that grows: the next block behind its start, or the end of the pool.
pub grow_limit : Xms → XFrame → ℕ
grow_limit x r =
    let alone = update x.xh (r.dx - 1) (record (entry x r) { size_kb = 0 }) in
    elim (next_block_above alone (u32 ((entry x r).base_kb + 1))) [
      | none ↦ x.pool_end_kb
      | some nb ↦ (x.xh nb).base_kb
    ]

-- 0Fh.
pub reallocate : Xms → XFrame → Xms × XFrame
unfolding grow_limit
reallocate x r =
    let h = entry x r in
    if is_bad x.xh r.dx
    then (x, fail r 0xA2)
    else if not (h.locks == 0)
    then (x, fail r 0xAB)
    else if leb r.bx h.size_kb
    then (set_entry x r (record h { size_kb = r.bx }), succeed r)
    else if leb (u32 (h.base_kb + r.bx)) (grow_limit x r)
    then (set_entry x r (record h { size_kb = r.bx }), succeed r)
    else (x, fail r 0xA0)
