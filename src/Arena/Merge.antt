-- ===== src/Arena/Merge.antt =====
-- src/kernel/proc.c: `mcb_coalesce` joins free neighbours.
use liberdos.Base.{
  ℕ, zero, suc, ◌+◌, ◌<◌, ◌≡◌, refl, sym, ap, ◌∙◌, arith, List, [], ◌∷◌, update, inl, inr, ◌&&◌,
  true, false, Option, some, ◌==◌, if◌then◌else◌, Bool-cases,
}
use liberdos.Base.Word.{u16}
use liberdos.Arena.{Mem, more, owner_free, coalesce_loop, walk_fuel, mcb_coalesce}
use liberdos.Arena.Chain.{
  Block, type_before, header, IsChain, span, span_cons, count, count-span, IsChain-update, IsArena,
}

-- Free neighbours made one block, that takes the place of the header between them too.
unfoldable pub merge : Block → List Block → List Block
merge b [] = b ∷ []
merge b (c ∷ bs) =
    let joined = merge (record { owner = owner_free; size = b.size + 1 + c.size }) bs in
    let apart = b ∷ merge c bs in
    if b.owner == owner_free && c.owner == owner_free then joined else apart

-- The blocks take the same paragraphs as before.
pub span-merge : (b : Block) (bs : List Block) → span (merge b bs) ≡ span (b ∷ bs)
unfolding merge span
span-merge b [] = refl
span-merge b (c ∷ bs) = ground (
  arith,
  span-merge c bs,
  span-merge (record { owner = owner_free; size = b.size + 1 + c.size }) bs,
)

-- The outcome of a run from paragraph `m` on.
record Merged (mem : Mem) (m : ℕ) (bs : List Block) (r : Option Mem) : Type 0 where
  after : Mem
  run : r ≡ some after
  chain : IsChain after m bs
  below : (i : ℕ) → i < m → after i ≡ mem i

pub merge-more : (b : Block) (bs : List Block) → type_before (merge b bs) ≡ more
unfolding merge
merge-more b [] = refl
merge-more b (c ∷ bs) =
    ground (arith, merge-more (record { owner = owner_free; size = b.size + 1 + c.size }) bs)

-- The two rounds of the loop at a block `b` in front of a block `d`.
round_apart :
    (fuel : ℕ) (mem : Mem) (m : ℕ) (b d : Block) (bs : List Block)
    → m + 1 + b.size < 65536
    → mem m ≡ header b (d ∷ bs)
    → mem (m + 1 + b.size) ≡ header d bs
    → b.owner == owner_free && d.owner == owner_free ≡ false
    → coalesce_loop (suc fuel) mem m ≡ coalesce_loop fuel mem (m + 1 + b.size)
unfolding coalesce_loop
round_apart fuel mem m b d bs top e ed used =
    let w : u16 (m + 1 + b.size) ≡ m + 1 + b.size = omega arith in rw (e, w, ed, used) refl

-- The memory after a merge.
abbrev joined_mem : Mem → ℕ → Block → Block → List Block → Mem
joined_mem mem m b d bs =
    update mem m (header (record { owner = owner_free; size = b.size + 1 + d.size }) bs)

round_joined :
    (fuel : ℕ) (mem : Mem) (m : ℕ) (b d : Block) (bs : List Block)
    → m + 1 + b.size + 1 + d.size < 65536
    → mem m ≡ header b (d ∷ bs)
    → mem (m + 1 + b.size) ≡ header d bs
    → b.owner == owner_free && d.owner == owner_free ≡ true
    → coalesce_loop (suc fuel) mem m ≡ coalesce_loop fuel (joined_mem mem m b d bs) m
unfolding coalesce_loop
round_joined fuel mem m b d bs top e ed free =
    let w : u16 (m + 1 + b.size) ≡ m + 1 + b.size = omega arith in
    let size : u16 (b.size + 1 + d.size) ≡ b.size + 1 + d.size = omega arith in
    let owner : b.owner ≡ owner_free = ground arith in rw (e, w, ed, free, size) (rw owner refl)

coalesce-Merged :
    (fuel : ℕ) (mem : Mem) (m : ℕ) (b : Block) (bs : List Block)
    → m + span (b ∷ bs) < 65536
    → IsChain mem m (b ∷ bs)
    → count bs < fuel
    → Merged mem m (merge b bs) (coalesce_loop fuel mem m)
unfolding coalesce_loop merge IsChain span count
coalesce-Merged zero mem m b bs top c h = absurd (omega arith)
coalesce-Merged (suc fuel) mem m b [] top (e, c) h = record {
  after = mem;
  run = rw e refl;
  chain = (e, tt);
  below = λ i lt. refl;
}
coalesce-Merged (suc fuel) mem m b (d ∷ bs) top (e, (ed, c)) h =
    elim (Bool-cases (b.owner == owner_free && d.owner == owner_free)) [
      | inl free ↦
          let both : Block = record { owner = owner_free; size = b.size + 1 + d.size } in
          let start : m + 1 + both.size ≡ m + 1 + b.size + 1 + d.size = omega arith in
          let r =
            coalesce-Merged fuel (joined_mem mem m b d bs) m both bs (omega arith)
              (
                ground arith,
                IsChain-update mem (m + 1 + both.size) m (header both bs) bs (omega arith)
                    (rw start c),
              )
              (omega arith) in
          record {
            after = r.after;
            run = round_joined fuel mem m b d bs (omega arith) e ed free ∙ r.run;
            chain = rw free r.chain;
            below = λ i lt. r.below i lt ∙ ground arith;
          }
      | inr used ↦
          let r =
            coalesce-Merged fuel mem (m + 1 + b.size) d bs (omega arith) (ed, c) (omega arith) in
          record {
            after = r.after;
            run = round_apart fuel mem m b d bs (omega arith) e ed used ∙ r.run;
            chain = rw used (
              r.below m (omega arith)
                  ∙ e
                  ∙ ap (λ t. record { mtype = t; mowner = b.owner; msize = b.size })
                      (sym (merge-more d bs)),
              r.chain,
            );
            below = λ i lt. r.below i (omega arith);
          }
    ]

-- `mcb_coalesce` over an arena ends, and leaves the chain of its blocks with the free neighbours
-- joined, over the same paragraphs; no header below the arena changes.
pub mcb_coalesce-merge :
    (mem : Mem) (first : ℕ) (b : Block) (bs : List Block)
    → IsArena mem first b bs
    → (after : Mem) × (mcb_coalesce mem first ≡ some after)
      × IsChain after first (merge b bs)
      × (span (merge b bs) ≡ span (b ∷ bs))
      × ((i : ℕ) → i < first → after i ≡ mem i)
unfolding mcb_coalesce
mcb_coalesce-merge mem first b bs v =
    let r =
      coalesce-Merged walk_fuel mem first b bs v.end v.chain
        (omega (arith, count-span bs, span_cons b bs, v.end)) in
    (r.after, r.run, r.chain, span-merge b bs, r.below)
