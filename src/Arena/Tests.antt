-- ===== src/Arena/Tests.antt =====
-- src/kernel/proc.c: runs on a small arena, and the theorems at it.
use liberdos.Base.{ℕ, ◌<◌, ◌≡◌, refl, ◌⊎◌, Option, none, some, List, [], ◌∷◌, arith, update}
use liberdos.Arena.{
  Mcb, Mem, more, last, coalesce_loop, find_loop, mcb_find, mcb_coalesce, mcb_alloc, mcb_free,
  mcb_largest, mcb_free_owner,
}
use liberdos.Machine.{Iregs}
use liberdos.Arena.Resize.{Resized, available, absorb, give_back, resize_at, mcb_resize}
use liberdos.Arena.Calls.{Dos, Replies, f48_alloc, f48_alloc-Replies}
use liberdos.Arena.Chain.{Block, IsChain, span, IsArena}
use liberdos.Arena.Largest.{mcb_largest_lem}
use liberdos.Arena.Owners.{disowned, disowned_all, mcb_free_owner-disowned}
use liberdos.Arena.Merge.{merge, mcb_coalesce-merge}
use liberdos.Arena.FirstFit.{first_fit, Gives, mcb_alloc-first_fit}
use liberdos.Arena.Release.{released, Frees, mcb_free-released}

abbrev block : ℕ → ℕ → Block
block owner size = record { owner = owner; size = size }

abbrev mcb : ℕ → ℕ → ℕ → Mcb
mcb t owner size = record { mtype = t; mowner = owner; msize = size }

-- Blocks of 10, 20, 5 and 100 paragraphs from 84h on; the second and the last are free.
abbrev test_mem : Mem
test_mem =
    update
      (update (update (update (λ _. mcb 0 0 0) 132 (mcb more 200 10)) 143 (mcb more 0 20)) 164
        (mcb more 300 5))
      170 (mcb last 0 100)

abbrev rest : List Block
rest = block 0 20 ∷ block 300 5 ∷ block 0 100 ∷ []

test_mem-IsArena : IsArena test_mem 132 (block 200 10) rest
unfolding IsChain span
test_mem-IsArena = record {
  start = omega arith;
  end = omega arith;
  chain = (refl, (refl, (refl, (refl, tt))));
}

-- 30 paragraphs do not fit the first free block.
fits_behind :
    first_fit 30 400 132 (block 200 10 ∷ rest)
    ≡ some (171, block 200 10 ∷ block 0 20 ∷ block 300 5 ∷ block 400 30 ∷ block 0 69 ∷ [])
unfolding first_fit
fits_behind = refl

-- Without the block at A5h the free ones around it are one.
joins_three :
    released 165 132 (block 200 10) rest
    ≡ some (block 200 10, block 0 20 ∷ block 0 5 ∷ block 0 100 ∷ [])
unfolding released
joins_three = refl

joined_three :
    merge (block 200 10) (block 0 20 ∷ block 0 5 ∷ block 0 100 ∷ [])
    ≡ block 200 10 ∷ block 0 127 ∷ []
unfolding merge
joined_three = refl

mcb_alloc-first_fit_example :
    Gives test_mem 132 (first_fit 30 400 132 (block 200 10 ∷ rest)) (mcb_alloc test_mem 132 30 400)
mcb_alloc-first_fit_example =
    mcb_alloc-first_fit test_mem 132 30 400 (block 200 10) rest test_mem-IsArena

mcb_free-released_example :
    Frees test_mem 132 (released 165 132 (block 200 10) rest) (mcb_free test_mem 132 165)
mcb_free-released_example = mcb_free-released test_mem 132 165 (block 200 10) rest test_mem-IsArena

mcb_coalesce-merge_example :
    (after : Mem) × (mcb_coalesce test_mem 132 ≡ some after)
    × IsChain after 132 (merge (block 200 10) rest)
    × (span (merge (block 200 10) rest) ≡ span (block 200 10 ∷ rest))
    × ((i : ℕ) → i < 132 → after i ≡ test_mem i)
mcb_coalesce-merge_example = mcb_coalesce-merge test_mem 132 (block 200 10) rest test_mem-IsArena

-- The list of the test arena has its free blocks apart already.
mcb_largest_lem_example :
    (after : Mem) × (best : ℕ) × (mcb_largest test_mem 132 ≡ some (after, best))
    × IsChain after 132 (merge (block 200 10) rest)
    × ((paras : ℕ) → best < paras → first_fit paras 400 132 (merge (block 200 10) rest) ≡ none)
    × ((best ≡ 0)
        ⊎ ((r : ℕ × List Block) × (first_fit best 400 132 (merge (block 200 10) rest) ≡ some r)))
mcb_largest_lem_example = mcb_largest_lem test_mem 132 400 (block 200 10) rest test_mem-IsArena

mcb_free_owner-disowned_example :
    (after : Mem) × (mcb_free_owner test_mem 132 300 ≡ some after)
    × IsChain after 132 (merge (disowned 300 (block 200 10)) (disowned_all 300 rest))
mcb_free_owner-disowned_example =
    mcb_free_owner-disowned test_mem 132 300 (block 200 10) rest test_mem-IsArena

abbrev test_dos : Dos
test_dos = record { mem = test_mem; first = 132; current_psp = 400; ext_err = 0 }

-- BX = 30 and ES = A5h.
abbrev test_regs : Iregs
test_regs = record {
  ax = 0x4800;
  bx = 30;
  cx = 0;
  dx = 0;
  si = 0;
  di = 0;
  bp = 0;
  ds = 0;
  es = 165;
  ip = 0;
  cs = 0;
  flags = 0;
}

f48_alloc-Replies_example :
    Replies test_dos test_regs (block 200 10) rest (f48_alloc test_dos test_regs)
f48_alloc-Replies_example =
    f48_alloc-Replies test_dos test_regs (block 200 10) rest test_mem-IsArena

-- The first block, at 85h, can grow over the free one behind it to 31 paragraphs, and no further.
abbrev verdict : Option Resized → ℕ × ℕ
verdict none = (0, 0)
verdict (some a) = (a.err, a.maxout)

grow_too_far : verdict (mcb_resize test_mem 132 133 40 0) ≡ (0x08, 31)
unfolding mcb_resize mcb_find find_loop resize_at mcb_coalesce coalesce_loop available absorb
    give_back
grow_too_far = refl

grow_over : verdict (mcb_resize test_mem 132 133 31 0) ≡ (0, 0)
unfolding mcb_resize mcb_find find_loop resize_at mcb_coalesce coalesce_loop available absorb
    give_back
grow_over = refl

no_such_block : verdict (mcb_resize test_mem 132 134 8 0) ≡ (0x09, 0)
unfolding mcb_resize mcb_find find_loop resize_at mcb_coalesce coalesce_loop available absorb
    give_back
no_such_block = refl
