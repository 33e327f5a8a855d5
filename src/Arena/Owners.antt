-- ===== src/Arena/Owners.antt =====
-- src/kernel/proc.c: `mcb_free_owner` frees every block of a process, and no other.
use liberdos.Base.{
  ℕ, zero, suc, ◌+◌, ◌<◌, ◌≡◌, refl, ◌∙◌, arith, List, [], ◌∷◌, update, inl, inr, Option, some,
  ◌==◌, if◌then◌else◌, Bool-cases,
}
use liberdos.Base.Word.{u16}
use liberdos.Arena.{Mem, owner_free, disown_loop, merged_from, mcb_free_owner, walk_fuel}
use liberdos.Arena.Chain.{
  Block, type_before, header, IsChain, span, span_cons, count, count-span, IsChain-update, IsArena,
}
use liberdos.Arena.Merge.{merge, mcb_coalesce-merge}

abbrev pub disowned : ℕ → Block → Block
disowned psp b = record b { owner = if b.owner == psp then owner_free else b.owner }

unfoldable pub disowned_all : ℕ → List Block → List Block
disowned_all psp [] = []
disowned_all psp (b ∷ bs) = disowned psp b ∷ disowned_all psp bs

span-disowned_all : (psp : ℕ) (bs : List Block) → span (disowned_all psp bs) ≡ span bs
unfolding disowned_all span
span-disowned_all psp [] = refl
span-disowned_all psp (b ∷ bs) = omega (arith, span-disowned_all psp bs)

record Disowned (mem : Mem) (m : ℕ) (bs : List Block) (r : Option Mem) : Type 0 where
  after : Mem
  run : r ≡ some after
  chain : IsChain after m bs
  below : (i : ℕ) → i < m → after i ≡ mem i

-- The header of one block, with its owner cleared if that is `psp`.
abbrev disown : Mem → ℕ → ℕ → Mem
disown mem m psp =
    if (mem m).mowner == psp then update mem m (record (mem m) { mowner = owner_free }) else mem

disown-at :
    (mem : Mem) (m psp : ℕ) (b : Block) (bs : List Block)
    → mem m ≡ header b bs
    → disown mem m psp m ≡ header (disowned psp b) bs
disown-at mem m psp b bs e = elim (Bool-cases (b.owner == psp)) [
  | inl t ↦ rw (e, t) (ground arith)
  | inr f ↦ rw (e, f) e
]

disown-IsChain :
    (mem : Mem) (m psp n : ℕ) (bs : List Block)
    → m < n
    → IsChain mem n bs
    → IsChain (disown mem m psp) n bs
disown-IsChain mem m psp n bs lt c = elim (Bool-cases ((mem m).mowner == psp)) [
  | inl t ↦ rw t (IsChain-update mem n m _ bs lt c)
  | inr f ↦ rw f c
]

type-more : (psp : ℕ) (bs : List Block) → type_before (disowned_all psp bs) ≡ type_before bs
unfolding disowned_all
type-more psp [] = refl
type-more psp (b ∷ bs) = refl

disown_next :
    (fuel : ℕ) (mem : Mem) (m psp : ℕ) (b d : Block) (bs : List Block)
    → m + 1 + b.size < 65536
    → mem m ≡ header b (d ∷ bs)
    → disown_loop (suc fuel) mem m psp ≡ disown_loop fuel (disown mem m psp) (m + 1 + b.size) psp
unfolding disown_loop
disown_next fuel mem m psp b d bs top e =
    let n : u16 (m + 1 + b.size) ≡ m + 1 + b.size = omega arith in
    rw (disown-at mem m psp b (d ∷ bs) e, n) refl

disown_loop-Disowned :
    (fuel : ℕ) (mem : Mem) (m psp : ℕ) (b : Block) (bs : List Block)
    → m + span (b ∷ bs) < 65536
    → IsChain mem m (b ∷ bs)
    → count bs < fuel
    → Disowned mem m (disowned_all psp (b ∷ bs)) (disown_loop fuel mem m psp)
unfolding disown_loop disowned_all IsChain span count
disown_loop-Disowned zero mem m psp b bs top c h = absurd (omega arith)
disown_loop-Disowned (suc fuel) mem m psp b [] top (e, c) h = record {
  after = disown mem m psp;
  run = rw (disown-at mem m psp b [] e) refl;
  chain = (disown-at mem m psp b [] e, tt);
  below = λ i lt. ground arith;
}
disown_loop-Disowned (suc fuel) mem m psp b (d ∷ bs) top (e, c) h =
    let r =
      disown_loop-Disowned fuel (disown mem m psp) (m + 1 + b.size) psp d bs (omega arith)
        (disown-IsChain mem m psp (m + 1 + b.size) (d ∷ bs) (omega arith) c) (omega arith) in
    record {
      after = r.after;
      run = disown_next fuel mem m psp b d bs (omega arith) e ∙ r.run;
      chain = (r.below m (omega arith) ∙ disown-at mem m psp b (d ∷ bs) e, r.chain);
      below = λ i lt. r.below i (omega arith) ∙ ground arith;
    }

-- `mcb_free_owner` on an arena ends, and the headers are those of the blocks with the owner of every
-- block of the process cleared, all other owners as they were, and free neighbours joined.
pub mcb_free_owner-disowned :
    (mem : Mem) (first psp : ℕ) (b : Block) (bs : List Block)
    → IsArena mem first b bs
    → (after : Mem) × (mcb_free_owner mem first psp ≡ some after)
      × IsChain after first (merge (disowned psp b) (disowned_all psp bs))
unfolding mcb_free_owner merged_from disowned_all
mcb_free_owner-disowned mem first psp b bs v =
    let r =
      disown_loop-Disowned walk_fuel mem first psp b bs v.end v.chain
        (omega (arith, count-span bs, span_cons b bs, v.end)) in
    let (after, run, chain, _, _) =
      mcb_coalesce-merge r.after first (disowned psp b) (disowned_all psp bs) (record {
        start = v.start;
        end = omega (
          arith,
          v.end,
          span_cons b bs,
          span_cons (disowned psp b) (disowned_all psp bs),
          span-disowned_all psp bs,
        );
        chain = r.chain;
      }) in
    (after, rw (r.run, merged_from) run, chain)
