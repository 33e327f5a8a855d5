-- ===== src/Arena.antt =====
-- src/kernel/proc.c: the memory arena, a chain of headers (MCBs) in front of the blocks of
-- conventional memory. Memory is here the headers by paragraph: a header lies in the first bytes of
-- its paragraph, so headers of different paragraphs do not meet. The walks are `for (;;)` loops in
-- the source: they take fuel here, and `none` means that it ran out.
pub mod Chain
pub mod FirstFit
pub mod Merge
pub mod Release
pub mod Largest
pub mod Owners
pub mod Calls
pub mod Resize
mod Tests
use liberdos.Base.{
  ℕ, zero, suc, ◌+◌, ◌-◌, Bool, ◌&&◌, not, Option, none, some, ltb, leb, ◌==◌, if◌then◌else◌, Array,
  update,
}
use liberdos.Base.Word.{u16}

-- The fields at offsets 0, 1 and 3 of an MCB.
pub record Mcb : Type 0 where
  pub mtype : ℕ
  pub mowner : ℕ
  pub msize : ℕ

abbrev pub Mem : Type 0
Mem = Array Mcb

-- 'M' and 'Z', and OWNER_FREE.
abbrev pub more : ℕ
more = 0x4D

abbrev pub last : ℕ
last = 0x5A

abbrev pub owner_free : ℕ
owner_free = 0

abbrev pub mnext : Mem → ℕ → ℕ
mnext mem m = u16 (m + 1 + (mem m).msize)

abbrev pub is_free : Mcb → Bool
is_free h = h.mowner == owner_free

-- `mcb_coalesce` from a header on.
unfoldable pub coalesce_loop : ℕ → Mem → ℕ → Option Mem
coalesce_loop zero mem m = none
coalesce_loop (suc fuel) mem m =
    let n = mnext mem m in
    let merged =
      coalesce_loop fuel
        (update mem m (record {
          mtype = (mem n).mtype;
          mowner = (mem m).mowner;
          msize = u16 ((mem m).msize + 1 + (mem n).msize);
        }))
        m in
    let rest = coalesce_loop fuel mem n in
    if (mem m).mtype == last
    then some mem
    else if is_free (mem m) && is_free (mem n)
    then merged
    else rest

-- A chain has fewer blocks than memory has paragraphs.
abbrev pub walk_fuel : ℕ
walk_fuel = 65536

unfoldable pub mcb_coalesce : Mem → ℕ → Option Mem
mcb_coalesce mem first = coalesce_loop walk_fuel mem first

-- The header `m` is given to an owner, and what is too much of it is split off.
pub take_block : Mem → ℕ → ℕ → ℕ → Mem
take_block mem m paras owner =
    let sz = (mem m).msize in
    let split =
      if ltb paras sz
      then update
          (update mem (u16 (m + 1 + paras))
            (record { mtype = (mem m).mtype; mowner = owner_free; msize = u16 (sz - paras - 1) }))
          m (record { mtype = more; mowner = (mem m).mowner; msize = paras })
      else mem in
    update split m (record (split m) { mowner = owner })

pub alloc_loop : ℕ → Mem → ℕ → ℕ → ℕ → Option (Mem × ℕ)
alloc_loop zero mem m paras owner = none
alloc_loop (suc fuel) mem m paras owner =
    let rest = alloc_loop fuel mem (mnext mem m) paras owner in
    if is_free (mem m) && leb paras (mem m).msize
    then some (take_block mem m paras owner, u16 (m + 1))
    else if (mem m).mtype == last
    then some (mem, 0)
    else rest

-- The segment of the block, or 0.
pub mcb_alloc : Mem → ℕ → ℕ → ℕ → Option (Mem × ℕ)
mcb_alloc mem first paras owner = alloc_loop walk_fuel mem first paras owner

unfoldable pub find_loop : ℕ → Mem → ℕ → ℕ → Option ℕ
find_loop zero mem m block = none
find_loop (suc fuel) mem m block =
    let rest = find_loop fuel mem (mnext mem m) block in
    if u16 (m + 1) == block then some m else if (mem m).mtype == last then some 0 else rest

unfoldable pub mcb_find : Mem → ℕ → ℕ → Option ℕ
mcb_find mem first block = find_loop walk_fuel mem first block

-- The error code, 0 for none.
pub free_at : Mem → ℕ → Option ℕ → Option (Mem × ℕ)
free_at mem first none = none
free_at mem first (some m) =
    if m == 0
    then some (mem, 0x09)
    else elim (mcb_coalesce (update mem m (record (mem m) { mowner = owner_free })) first) [
      | none ↦ none
      | some mem' ↦ some (mem', 0)
    ]

pub mcb_free : Mem → ℕ → ℕ → Option (Mem × ℕ)
unfolding free_at
mcb_free mem first block = free_at mem first (mcb_find mem first block)

-- `mcb_largest`: the walk that follows the merge, and both.
pub largest_loop : ℕ → Mem → ℕ → ℕ → Option ℕ
largest_loop zero mem m best = none
largest_loop (suc fuel) mem m best =
    let wider = if is_free (mem m) && ltb best (mem m).msize then (mem m).msize else best in
    let rest = largest_loop fuel mem (mnext mem m) wider in
    if (mem m).mtype == last then some wider else rest

largest_in : ℕ → Option Mem → Option (Mem × ℕ)
largest_in first none = none
largest_in first (some mem) = elim (largest_loop walk_fuel mem first 0) [
  | none ↦ none
  | some best ↦ some (mem, best)
]

pub mcb_largest : Mem → ℕ → Option (Mem × ℕ)
unfolding largest_in
mcb_largest mem first = largest_in first (mcb_coalesce mem first)

-- The walk of `mcb_free_owner`, and the merge that follows it.
pub disown_loop : ℕ → Mem → ℕ → ℕ → Option Mem
disown_loop zero mem m psp = none
disown_loop (suc fuel) mem m psp =
    let mem' =
      if (mem m).mowner == psp
      then update mem m (record (mem m) { mowner = owner_free })
      else mem in
    let rest = disown_loop fuel mem' (mnext mem' m) psp in
    if (mem' m).mtype == last then some mem' else rest

merged_from : ℕ → Option Mem → Option Mem
merged_from first none = none
merged_from first (some mem) = mcb_coalesce mem first

pub mcb_free_owner : Mem → ℕ → ℕ → Option Mem
unfolding merged_from
mcb_free_owner mem first psp = merged_from first (disown_loop walk_fuel mem first psp)

-- `proc_init`: one free block from `first` to the top of memory.
pub proc_init : Mem → ℕ → ℕ → Mem
proc_init mem first top =
    update mem first (record { mtype = last; mowner = owner_free; msize = u16 (top - first - 1) })
