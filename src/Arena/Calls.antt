-- ===== src/Arena/Calls.antt =====
-- src/kernel/proc.c: INT 21h functions 48h and 49h on the arena.
use Prim.Native.Nat.{bit_or}
use liberdos.Base.{
  ℕ, ◌+◌, ◌<◌, ◌≡◌, refl, arith, List, [], ◌∷◌, inl, inr, false, Option, none, some, ◌==◌,
  if◌then◌else◌, Bool-cases, Option-cases, ne→==,
}
use liberdos.Machine.{Iregs}
use liberdos.Arena.{Mem, mcb_alloc, mcb_free, mcb_largest}
use liberdos.Arena.Chain.{Block, IsChain, IsArena}
use liberdos.Arena.Merge.{merge}
use liberdos.Arena.FirstFit.{first_fit, serves, Gives, mcb_alloc-first_fit}
use liberdos.Arena.Release.{released, Frees, mcb_free-released}
use liberdos.Arena.Largest.{mcb_largest_lem}

-- The headers, `mcb_first`, `current_psp` and `ext_err`.
pub record Dos : Type 0 where
  pub mem : Mem
  pub first : ℕ
  pub current_psp : ℕ
  pub ext_err : ℕ

abbrev pub owner_system : ℕ
owner_system = 8

-- `int21_error`: the carry flag, AX and the extended error.
abbrev pub int21_error : Dos → Iregs → ℕ → Dos × Iregs
int21_error d r code =
    (record d { ext_err = code }, record r { flags = bit_or r.flags 1; ax = code })

-- 48h: the owner, the end with no block, and the call.
abbrev pub owner_of : Dos → ℕ
owner_of d = if d.current_psp == 0 then owner_system else d.current_psp

largest_reply : Dos → Iregs → Option (Mem × ℕ) → Option (Dos × Iregs)
largest_reply d r none = none
largest_reply d r (some (mem, best)) =
    some (int21_error (record d { mem = mem }) (record r { bx = best }) 0x08)

alloc_reply : Dos → Iregs → Option (Mem × ℕ) → Option (Dos × Iregs)
unfolding largest_reply
alloc_reply d r none = none
alloc_reply d r (some (mem, seg)) =
    if seg == 0
    then largest_reply (record d { mem = mem }) r (mcb_largest mem d.first)
    else some (record d { mem = mem }, record r { ax = seg })

pub f48_alloc : Dos → Iregs → Option (Dos × Iregs)
unfolding alloc_reply
f48_alloc d r = alloc_reply d r (mcb_alloc d.mem d.first r.bx (owner_of d))

-- 49h.
free_reply : Dos → Iregs → Option (Mem × ℕ) → Option (Dos × Iregs)
free_reply d r none = none
free_reply d r (some (mem, err)) =
    if err == 0
    then some (record d { mem = mem }, r)
    else some (int21_error (record d { mem = mem }) r err)

pub f49_free : Dos → Iregs → Option (Dos × Iregs)
unfolding free_reply
f49_free d r = free_reply d r (mcb_free d.mem d.first r.es)

-- The replies of 48h to a program, for the blocks of the arena.
pub data Replies (d : Dos) (r : Iregs) (b : Block) (bs : List Block) (reply : Option (Dos × Iregs))
    : Type 0 where
  granted :
      (seg : ℕ) (l : List Block) (mem : Mem)
      → first_fit r.bx (owner_of d) d.first (b ∷ bs) ≡ some (seg, l)
      → IsChain mem d.first l
      → reply ≡ some (record d { mem = mem }, record r { ax = seg })
      → Replies d r b bs reply
  refused :
      (best : ℕ) (mem : Mem)
      → first_fit r.bx (owner_of d) d.first (b ∷ bs) ≡ none
      → IsChain mem d.first (merge b bs)
      → ((paras : ℕ) → best < paras → first_fit paras (owner_of d) d.first (merge b bs) ≡ none)
      → reply
        ≡ some (
          record d { mem = mem; ext_err = 0x08 },
          record r { bx = best; ax = 0x08; flags = bit_or r.flags 1 },
        )
      → Replies d r b bs reply

-- The segment of a block lies behind its header.
first_fit-above :
    (paras owner m : ℕ) (bs : List Block) {seg : ℕ} {l : List Block}
    → first_fit paras owner m bs ≡ some (seg, l)
    → m < seg
unfolding first_fit
first_fit-above paras owner m [] e = cc
first_fit-above paras owner m (b ∷ bs) {seg} {l} e = elim (Bool-cases (serves paras b)) [
  | inl t ↦ ground (arith, e)
  | inr f ↦ elim (Option-cases (first_fit paras owner (m + 1 + b.size) bs)) [
    | inl n ↦ ground (arith, e)
    | inr ((s, k), g) ↦
        let above = first_fit-above paras owner (m + 1 + b.size) bs g in ground (arith, e)
  ]
]

-- 48h on an arena returns. It grants the block that a first fit finds, with its segment in AX; or,
-- where that finds none, it sets the carry flag, answers error 8, and reports in BX a size above which
-- no request can be met after the free neighbours that it leaves joined.
pub f48_alloc-Replies :
    (d : Dos) (r : Iregs) (b : Block) (bs : List Block)
    → IsArena d.mem d.first b bs
    → Replies d r b bs (f48_alloc d r)
unfolding f48_alloc alloc_reply largest_reply
f48_alloc-Replies d r b bs v =
    by_fit (first_fit r.bx (owner_of d) d.first (b ∷ bs)) refl
      (mcb_alloc-first_fit d.mem d.first r.bx (owner_of d) b bs v)
  where
    by_fit :
        (o : Option (ℕ × List Block))
        → first_fit r.bx (owner_of d) d.first (b ∷ bs) ≡ o
        → Gives d.mem d.first o (mcb_alloc d.mem d.first r.bx (owner_of d))
        → Replies d r b bs (f48_alloc d r)
    by_fit none e g =
        let (mem, best, run, chain, above, _) = mcb_largest_lem d.mem d.first (owner_of d) b bs v in
        refused best mem e chain above (rw (g, alloc_reply) (rw (run, largest_reply) refl))
    by_fit (some (seg, l)) e (mem, run, chain, _, _) =
        let ne : seg == 0 ≡ false =
          ne→== seg 0 (omega (arith, first_fit-above r.bx (owner_of d) d.first (b ∷ bs) e)) in
        granted seg l mem e chain (rw (run, alloc_reply) (rw ne refl))

-- What 49h answers for each outcome of `released`.
abbrev pub FreeReplies : Dos → Iregs → Option (Block × List Block) → Option (Dos × Iregs) → Type 0
FreeReplies d r none reply = reply ≡ some (int21_error d r 0x09)
FreeReplies d r (some (c, l)) reply =
    (mem : Mem) × (reply ≡ some (record d { mem = mem }, r)) × IsChain mem d.first (merge c l)

free-FreeReplies :
    (d : Dos) (r : Iregs) (o : Option (Block × List Block)) (run : Option (Mem × ℕ))
    → Frees d.mem d.first o run
    → FreeReplies d r o (free_reply d r run)
unfolding free_reply
free-FreeReplies d r none run g = rw g refl
free-FreeReplies d r (some (c, l)) run (mem, e, chain) = (mem, rw e refl, chain)

-- 49h on an arena returns. Where no block starts at ES it sets the carry flag and answers error 9 with
-- the headers as they were; otherwise that block is free, and free neighbours are joined.
pub f49_free-FreeReplies :
    (d : Dos) (r : Iregs) (b : Block) (bs : List Block)
    → IsArena d.mem d.first b bs
    → FreeReplies d r (released r.es d.first b bs) (f49_free d r)
unfolding f49_free
f49_free-FreeReplies d r b bs v =
    free-FreeReplies d r (released r.es d.first b bs) (mcb_free d.mem d.first r.es)
      (mcb_free-released d.mem d.first r.es b bs v)
