-- ===== src/Arena/FirstFit.antt =====
-- src/kernel/proc.c: `mcb_alloc` gives out the first block that is large enough.
use liberdos.Base.{
  ℕ, zero, suc, ◌+◌, ◌-◌, ◌≤◌, ◌<◌, ◌≡◌, refl, sym, ap, ◌∙◌, arith, List, [], ◌∷◌, inl, inr, ◌&&◌,
  true, false, Bool, Option, none, some, ltb, leb, ◌==◌, if◌then◌else◌, Bool-cases,
}
use liberdos.Base.Word.{u16}
use liberdos.Arena.{Mem, more, is_free, owner_free, take_block, alloc_loop, walk_fuel, mcb_alloc}
use liberdos.Arena.Chain.{
  Block, type_before, header, IsChain, span, span_cons, count, count-span, IsChain-agree, IsArena,
}

-- A block is large enough and free.
abbrev pub serves : ℕ → Block → Bool
serves paras b = b.owner == owner_free && leb paras b.size

-- The block is given to an owner; what is left of it is a free block, with a header of its own.
abbrev pub given : ℕ → ℕ → Block → List Block → List Block
given paras owner b bs =
    if ltb paras b.size
    then record { owner = owner; size = paras }
      ∷ record { owner = owner_free; size = b.size - paras - 1 }
      ∷ bs
    else record { owner = owner; size = b.size } ∷ bs

abbrev pub behind : Block → Option (ℕ × List Block) → Option (ℕ × List Block)
behind b none = none
behind b (some (seg, bs)) = some (seg, b ∷ bs)

-- The first block that serves, in the blocks from paragraph `m` on: its segment, and the blocks after
-- it is given out.
unfoldable pub first_fit : ℕ → ℕ → ℕ → List Block → Option (ℕ × List Block)
first_fit paras owner m [] = none
first_fit paras owner m (b ∷ bs) =
    let rest = first_fit paras owner (m + 1 + b.size) bs in
    if serves paras b then some (m + 1, given paras owner b bs) else behind b rest

-- The reply that goes with an outcome of `first_fit`; no header in front of `m` changes.
abbrev pub Gives : Mem → ℕ → Option (ℕ × List Block) → Option (Mem × ℕ) → Type 0
Gives mem m none r = r ≡ some (mem, 0)
Gives mem m (some (seg, bs)) r =
    (after : Mem) × (r ≡ some (after, seg))
    × IsChain after m bs
    × (type_before bs ≡ more)
    × ((i : ℕ) → i < m → after i ≡ mem i)

-- The headers after a split: of the block, of what is left, and all others.
take_split :
    (mem : Mem) (m paras owner i : ℕ) (b : Block) (bs : List Block)
    → m + 1 + paras < 65536
    → mem m ≡ header b bs
    → ltb paras b.size ≡ true
    → take_block mem m paras owner i ≡ (
        if m == i
        then record { mtype = more; mowner = owner; msize = paras }
        else if m + 1 + paras == i
        then record {
          mtype = type_before bs;
          mowner = owner_free;
          msize = u16 (b.size - paras - 1);
        }
        else mem i)
unfolding take_block
take_split mem m paras owner i b bs top e splits =
    let w : u16 (m + 1 + paras) ≡ m + 1 + paras = omega arith in rw (e, splits, w) (ground arith)

take_whole :
    (mem : Mem) (m paras owner i : ℕ) (b : Block) (bs : List Block)
    → mem m ≡ header b bs
    → ltb paras b.size ≡ false
    → take_block mem m paras owner i ≡ (
        if m == i then record { mtype = type_before bs; mowner = owner; msize = b.size } else mem i)
unfolding take_block
take_whole mem m paras owner i b bs e whole = rw (e, whole) (rw e (ground arith))

take_block-IsChain :
    (mem : Mem) (m paras owner : ℕ) (b : Block) (bs : List Block)
    → m + span (b ∷ bs) < 65536
    → IsChain mem m (b ∷ bs)
    → paras ≤ b.size
    → IsChain (take_block mem m paras owner) m (given paras owner b bs)
unfolding IsChain span
take_block-IsChain mem m paras owner b bs top (e, c) le = elim (Bool-cases (ltb paras b.size)) [
  | inl splits ↦
      let at = λ (i : ℕ). take_split mem m paras owner i b bs (omega arith) e splits in
      let size : u16 (b.size - paras - 1) ≡ b.size - paras - 1 = omega arith in
      let end : m + 1 + paras + 1 + (b.size - paras - 1) ≡ m + 1 + b.size = ground arith in
      rw splits (
        ground (arith, at m),
        (
          ground (arith, at (m + 1 + paras), size),
          rw end (
              IsChain-agree mem (take_block mem m paras owner) (m + 1 + b.size) bs
                (λ i lt. ground (arith, at i)) c),
        ),
      )
  | inr whole ↦
      let at = λ (i : ℕ). take_whole mem m paras owner i b bs e whole in
      rw whole (
        ground (arith, at m),
        IsChain-agree mem (take_block mem m paras owner) (m + 1 + b.size) bs
            (λ i lt. ground (arith, at i)) c,
      )
]

-- Rounds of the loop.
round_fits :
    (fuel : ℕ) (mem : Mem) (m paras owner : ℕ) (b : Block) (bs : List Block)
    → m + 1 < 65536
    → mem m ≡ header b bs
    → serves paras b ≡ true
    → alloc_loop (suc fuel) mem m paras owner ≡ some (take_block mem m paras owner, m + 1)
unfolding alloc_loop
round_fits fuel mem m paras owner b bs top e t =
    let free : is_free (mem m) && leb paras (mem m).msize ≡ true = rw e t in
    let w : u16 (m + 1) ≡ m + 1 = omega arith in rw (free, w) refl

round_last :
    (fuel : ℕ) (mem : Mem) (m paras owner : ℕ) (b : Block)
    → mem m ≡ header b []
    → serves paras b ≡ false
    → alloc_loop (suc fuel) mem m paras owner ≡ some (mem, 0)
unfolding alloc_loop
round_last fuel mem m paras owner b e f = rw (e, f) refl

round_next :
    (fuel : ℕ) (mem : Mem) (m paras owner : ℕ) (b d : Block) (bs : List Block)
    → m + 1 + b.size < 65536
    → mem m ≡ header b (d ∷ bs)
    → serves paras b ≡ false
    → alloc_loop (suc fuel) mem m paras owner ≡ alloc_loop fuel mem (m + 1 + b.size) paras owner
unfolding alloc_loop
round_next fuel mem m paras owner b d bs top e f =
    let w : u16 (m + 1 + b.size) ≡ m + 1 + b.size = omega arith in rw (e, f, w) refl

take_block-below :
    (mem : Mem) (m paras owner i : ℕ) (b : Block) (bs : List Block)
    → m + span (b ∷ bs) < 65536
    → mem m ≡ header b bs
    → paras ≤ b.size
    → i < m
    → take_block mem m paras owner i ≡ mem i
unfolding span
take_block-below mem m paras owner i b bs top e le lt = elim (Bool-cases (ltb paras b.size)) [
  | inl splits ↦ take_split mem m paras owner i b bs (omega arith) e splits ∙ ground arith
  | inr whole ↦ take_whole mem m paras owner i b bs e whole ∙ ground arith
]

given-more :
    (paras owner : ℕ) (b : Block) (bs : List Block) → type_before (given paras owner b bs) ≡ more
given-more paras owner b bs = ground arith

-- What a reply for the blocks behind `b` says of the blocks from `b` on.
Gives-behind :
    (mem : Mem) (m : ℕ) (b d : Block) (bs : List Block) (o : Option (ℕ × List Block))
    (r : Option (Mem × ℕ))
    → mem m ≡ header b (d ∷ bs)
    → Gives mem (m + 1 + b.size) o r
    → Gives mem m (behind b o) r
unfolding IsChain
Gives-behind mem m b d bs none r e g = g
Gives-behind mem m b d bs (some (seg, l)) r e (after, er, c, tl, low) = (
  after,
  er,
  (
    low m (omega arith)
        ∙ e
        ∙ ap (λ t. record { mtype = t; mowner = b.owner; msize = b.size }) (sym tl),
    c,
  ),
  refl,
  λ i lt. low i (omega arith),
)

fits-Gives :
    (fuel : ℕ) (mem : Mem) (m paras owner : ℕ) (b : Block) (bs : List Block)
    → m + span (b ∷ bs) < 65536
    → IsChain mem m (b ∷ bs)
    → serves paras b ≡ true
    → Gives mem m (some (m + 1, given paras owner b bs)) (alloc_loop (suc fuel) mem m paras owner)
unfolding IsChain
fits-Gives fuel mem m paras owner b bs top (e, c) t =
    let le : paras ≤ b.size = ground arith in
    (
      take_block mem m paras owner,
      round_fits fuel mem m paras owner b bs (omega (arith, span_cons b bs)) e t,
      take_block-IsChain mem m paras owner b bs top (e, c) le,
      given-more paras owner b bs,
      λ i lt. take_block-below mem m paras owner i b bs top e le lt,
    )

alloc-Gives :
    (fuel : ℕ) (mem : Mem) (m paras owner : ℕ) (b : Block) (bs : List Block)
    → m + span (b ∷ bs) < 65536
    → IsChain mem m (b ∷ bs)
    → count bs < fuel
    → Gives mem m (first_fit paras owner m (b ∷ bs)) (alloc_loop fuel mem m paras owner)
unfolding first_fit IsChain span count
alloc-Gives zero mem m paras owner b bs top c h = absurd (omega arith)
alloc-Gives (suc fuel) mem m paras owner b [] top (e, c) h = elim (Bool-cases (serves paras b)) [
  | inl t ↦ rw t (fits-Gives fuel mem m paras owner b [] top (e, c) t)
  | inr f ↦ rw f (round_last fuel mem m paras owner b e f)
]
alloc-Gives (suc fuel) mem m paras owner b (d ∷ bs) top (e, c) h =
    elim (Bool-cases (serves paras b)) [
      | inl t ↦ rw t (fits-Gives fuel mem m paras owner b (d ∷ bs) top (e, c) t)
      | inr f ↦
          rw (f, round_next fuel mem m paras owner b d bs (omega arith) e f)
            (Gives-behind mem m b d bs (first_fit paras owner (m + 1 + b.size) (d ∷ bs))
              (alloc_loop fuel mem (m + 1 + b.size) paras owner) e
              (alloc-Gives fuel mem (m + 1 + b.size) paras owner d bs (omega arith) c
                (omega arith)))
    ]

-- `mcb_alloc` on an arena ends and does what a first fit over the list of its blocks does: with no
-- block that serves it answers 0 and changes nothing; otherwise it answers the segment of the first
-- one, and the headers are those of the blocks after it is given out and what is too much of it is
-- split off, with no header below the arena changed.
pub mcb_alloc-first_fit :
    (mem : Mem) (first paras owner : ℕ) (b : Block) (bs : List Block)
    → IsArena mem first b bs
    → Gives mem first (first_fit paras owner first (b ∷ bs)) (mcb_alloc mem first paras owner)
unfolding mcb_alloc
mcb_alloc-first_fit mem first paras owner b bs v =
    alloc-Gives walk_fuel mem first paras owner b bs v.end v.chain
      (omega (arith, count-span bs, span_cons b bs, v.end))

-- What is given out takes the same paragraphs as before.
pub span-given :
    (paras owner : ℕ) (b : Block) (bs : List Block) → span (given paras owner b bs) ≡ span (b ∷ bs)
unfolding span
span-given paras owner b bs = ground arith
