-- ===== src/Arena/Largest.antt =====
-- src/kernel/proc.c: `mcb_largest` reports the largest block that an allocation can get.
use liberdos.Base.{
  ℕ, zero, suc, ◌+◌, ◌≤◌, ◌<◌, ◌≡◌, refl, arith, List, [], ◌∷◌, inl, inr, ◌⊎◌, ◌&&◌, false, none,
  some, ltb, ◌==◌, if◌then◌else◌, Bool-cases,
}
use liberdos.Base.Word.{u16}
use liberdos.Arena.{Mem, more, owner_free, largest_loop, largest_in, mcb_largest, walk_fuel}
use liberdos.Arena.Chain.{Block, type_before, IsChain, span, span_cons, count, count-span, IsArena}
use liberdos.Arena.Merge.{merge, merge-more, mcb_coalesce-merge}
use liberdos.Arena.FirstFit.{first_fit, serves, given}

abbrev wider : ℕ → Block → ℕ
wider best b = if b.owner == owner_free && ltb best b.size then b.size else best

-- The size of the largest free block, `best` for none above it.
unfoldable pub largest : ℕ → List Block → ℕ
largest best [] = best
largest best (b ∷ bs) = largest (wider best b) bs

largest_loop_lem :
    (fuel : ℕ) (mem : Mem) (m best : ℕ) (b : Block) (bs : List Block)
    → m + span (b ∷ bs) < 65536
    → IsChain mem m (b ∷ bs)
    → count bs < fuel
    → largest_loop fuel mem m best ≡ some (largest best (b ∷ bs))
unfolding largest_loop largest IsChain span count
largest_loop_lem zero mem m best b bs top c h = absurd (omega arith)
largest_loop_lem (suc fuel) mem m best b [] top (e, c) h = rw e refl
largest_loop_lem (suc fuel) mem m best b (d ∷ bs) top (e, c) h =
    let n : u16 (m + 1 + b.size) ≡ m + 1 + b.size = omega arith in
    rw (e, n)
      (largest_loop_lem fuel mem (m + 1 + b.size) (wider best b) d bs (omega arith) c (omega arith))

-- An allocation of more than the largest size finds no block.
pub best-largest : (best : ℕ) (bs : List Block) → best ≤ largest best bs
unfolding largest
best-largest best [] = omega arith
best-largest best (b ∷ bs) = ground (arith, best-largest (wider best b) bs)

pub above_largest :
    (best paras owner m : ℕ) (bs : List Block)
    → largest best bs < paras
    → first_fit paras owner m bs ≡ none
unfolding largest first_fit
above_largest best paras owner m [] h = refl
above_largest best paras owner m (b ∷ bs) h =
    let no : serves paras b ≡ false = ground (arith, best-largest (wider best b) bs) in
    rw (no, above_largest (wider best b) paras owner (m + 1 + b.size) bs h) refl

-- The largest size above `best` has a block that serves.
largest-fits :
    (best owner m : ℕ) (bs : List Block)
    → (largest best bs ≡ best)
      ⊎ ((r : ℕ × List Block) × (first_fit (largest best bs) owner m bs ≡ some r))
unfolding largest first_fit
largest-fits best owner m [] = inl refl
largest-fits best owner m (b ∷ bs) = elim (Bool-cases (serves (largest (wider best b) bs) b)) [
  | inl t ↦ inr ((m + 1, given (largest (wider best b) bs) owner b bs), rw t refl)
  | inr f ↦ elim (largest-fits (wider best b) owner (m + 1 + b.size) bs) [
    | inl e ↦ inl (ground arith)
    | inr ((seg, l), e) ↦ inr ((seg, b ∷ l), rw (f, e) refl)
  ]
]

-- The walk over a chain that is known as a list only.
walk_over :
    (mem : Mem) (first : ℕ) (l : List Block)
    → type_before l ≡ more
    → first + span l < 65536
    → IsChain mem first l
    → largest_loop walk_fuel mem first 0 ≡ some (largest 0 l)
walk_over mem first [] e top c = absurd (omega arith)
walk_over mem first (b ∷ bs) e top c =
    largest_loop_lem walk_fuel mem first 0 b bs top c (omega (arith, count-span bs, span_cons b bs))

-- `mcb_largest` on an arena ends and joins free neighbours. The size that it reports is the largest
-- that an allocation can then get: for any more a first fit finds no block, and for the size itself
-- it finds one, unless the size is 0.
pub mcb_largest_lem :
    (mem : Mem) (first owner : ℕ) (b : Block) (bs : List Block)
    → IsArena mem first b bs
    → (after : Mem) × (best : ℕ) × (mcb_largest mem first ≡ some (after, best))
      × IsChain after first (merge b bs)
      × ((paras : ℕ) → best < paras → first_fit paras owner first (merge b bs) ≡ none)
      × ((best ≡ 0) ⊎ ((r : ℕ × List Block) × (first_fit best owner first (merge b bs) ≡ some r)))
unfolding mcb_largest largest_in
mcb_largest_lem mem first owner b bs v =
    let (after, run, chain, same, _) = mcb_coalesce-merge mem first b bs v in
    let walk =
      walk_over after first (merge b bs) (merge-more b bs) (omega (arith, v.end, same)) chain in
    (
      after,
      largest 0 (merge b bs),
      rw (run, largest_in) (rw walk refl),
      chain,
      λ paras lt. above_largest 0 paras owner first (merge b bs) lt,
      largest-fits 0 owner first (merge b bs),
    )
