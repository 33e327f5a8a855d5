-- ===== src/Arena/Release.antt =====
-- src/kernel/proc.c: `mcb_free` clears the owner of the block that it is given, and no other.
use liberdos.Base.{
  ℕ, zero, suc, ◌+◌, ◌-◌, ◌≤◌, ◌<◌, ◌≡◌, refl, ap, ◌∙◌, arith, List, [], ◌∷◌, update, inl, inr,
  true, false, Option, none, some, ◌==◌, if◌then◌else◌, Bool-cases, ne→==, update_ne,
}
use liberdos.Base.Word.{u16}
use liberdos.Arena.{Mem, owner_free, find_loop, walk_fuel, mcb_find, free_at, mcb_free, proc_init}
use liberdos.Arena.Chain.{
  Block, header, IsChain, span, span_cons, count, count-span, IsChain-update, IsArena,
}
use liberdos.Arena.Merge.{merge, mcb_coalesce-merge}

abbrev hold : Block → Option (Block × List Block) → Option (Block × List Block)
hold b none = none
hold b (some (c, l)) = some (b, c ∷ l)

-- The blocks `b ∷ bs` from paragraph `m` on, with the owner of the one at segment `seg` cleared;
-- `none` if no block starts there.
unfoldable pub released : ℕ → ℕ → Block → List Block → Option (Block × List Block)
released seg m b [] =
    if m + 1 == seg then some (record { owner = owner_free; size = b.size }, []) else none
released seg m b (d ∷ bs) =
    let rest = released seg (m + 1 + b.size) d bs in
    if m + 1 == seg
    then some (record { owner = owner_free; size = b.size }, d ∷ bs)
    else hold b rest

-- The header of `k` with its owner cleared.
abbrev cleared : Mem → ℕ → Mem
cleared mem k = update mem k (record (mem k) { mowner = owner_free })

-- What the search finds, for each outcome of `released`.
abbrev Finds : Mem → ℕ → ℕ → Option (Block × List Block) → Option ℕ → Type 0
Finds mem m size none r = r ≡ some 0
Finds mem m size (some (c, l)) r =
    (k : ℕ) × (r ≡ some k) × (m ≤ k) × IsChain (cleared mem k) m (c ∷ l) × (span (c ∷ l) ≡ size)

find_here :
    (fuel : ℕ) (mem : Mem) (m seg : ℕ) (b : Block) (bs : List Block)
    → m + span (b ∷ bs) < 65536
    → IsChain mem m (b ∷ bs)
    → m + 1 == seg ≡ true
    → Finds mem m
        (span (b ∷ bs))
        (some (record { owner = owner_free; size = b.size }, bs))
        (find_loop (suc fuel) mem m seg)
unfolding find_loop IsChain span
find_here fuel mem m seg b bs top (e, c) t =
    let w : u16 (m + 1) ≡ m + 1 = omega arith in
    (
      m,
      rw (w, t) refl,
      omega arith,
      (ground (arith, e), IsChain-update mem (m + 1 + b.size) m _ bs (omega arith) c),
      refl,
    )

find_last :
    (fuel : ℕ) (mem : Mem) (m seg : ℕ) (b : Block)
    → m + 1 < 65536
    → mem m ≡ header b []
    → m + 1 == seg ≡ false
    → find_loop (suc fuel) mem m seg ≡ some 0
unfolding find_loop
find_last fuel mem m seg b top e f = let w : u16 (m + 1) ≡ m + 1 = omega arith in rw (w, f, e) refl

find_next :
    (fuel : ℕ) (mem : Mem) (m seg : ℕ) (b d : Block) (bs : List Block)
    → m + 1 + b.size < 65536
    → mem m ≡ header b (d ∷ bs)
    → m + 1 == seg ≡ false
    → find_loop (suc fuel) mem m seg ≡ find_loop fuel mem (m + 1 + b.size) seg
unfolding find_loop
find_next fuel mem m seg b d bs top e f =
    let w : u16 (m + 1) ≡ m + 1 = omega arith in
    let n : u16 (m + 1 + b.size) ≡ m + 1 + b.size = omega arith in rw (w, f, e, n) refl

Finds-hold :
    (mem : Mem) (m size : ℕ) (b d : Block) (bs : List Block) (o : Option (Block × List Block))
    (r : Option ℕ)
    → mem m ≡ header b (d ∷ bs)
    → Finds mem (m + 1 + b.size) size o r
    → Finds mem m (1 + b.size + size) (hold b o) r
unfolding IsChain span
Finds-hold mem m size b d bs none r e g = g
Finds-hold mem m size b d bs (some (c, l)) r e (k, er, le, ch, sp) = (
  k,
  er,
  omega arith,
  (update_ne mem k m (record (mem k) { mowner = owner_free }) (λ z. omega arith) ∙ e, ch),
  ap (λ n. 1 + b.size + n) sp,
)

find-Finds :
    (fuel : ℕ) (mem : Mem) (m seg : ℕ) (b : Block) (bs : List Block)
    → m + span (b ∷ bs) < 65536
    → IsChain mem m (b ∷ bs)
    → count bs < fuel
    → Finds mem m (span (b ∷ bs)) (released seg m b bs) (find_loop fuel mem m seg)
unfolding released IsChain span count
find-Finds zero mem m seg b bs top c h = absurd (omega arith)
find-Finds (suc fuel) mem m seg b [] top (e, c) h = elim (Bool-cases (m + 1 == seg)) [
  | inl t ↦ rw t (find_here fuel mem m seg b [] top (e, c) t)
  | inr f ↦ rw f (find_last fuel mem m seg b (omega arith) e f)
]
find-Finds (suc fuel) mem m seg b (d ∷ bs) top (e, c) h = elim (Bool-cases (m + 1 == seg)) [
  | inl t ↦ rw t (find_here fuel mem m seg b (d ∷ bs) top (e, c) t)
  | inr f ↦
      rw (f, find_next fuel mem m seg b d bs (omega arith) e f)
        (Finds-hold mem m (span (d ∷ bs)) b d bs (released seg (m + 1 + b.size) d bs)
          (find_loop fuel mem (m + 1 + b.size) seg) e
          (find-Finds fuel mem (m + 1 + b.size) seg d bs (omega arith) c (omega arith)))
]

-- The reply of `mcb_free` for each outcome of `released`.
abbrev pub Frees : Mem → ℕ → Option (Block × List Block) → Option (Mem × ℕ) → Type 0
Frees mem first none r = r ≡ some (mem, 0x09)
Frees mem first (some (c, l)) r =
    (after : Mem) × (r ≡ some (after, 0)) × IsChain after first (merge c l)

free-Frees :
    (mem : Mem) (first : ℕ) (b : Block) (bs : List Block) (o : Option (Block × List Block))
    (r : Option ℕ)
    → IsArena mem first b bs
    → Finds mem first (span (b ∷ bs)) o r
    → Frees mem first o (free_at mem first r)
unfolding free_at
free-Frees mem first b bs none r v g = rw g refl
free-Frees mem first b bs (some (c, l)) r v (k, e, le, ch, sp) =
    let (after, run, chain, _, _) =
      mcb_coalesce-merge (cleared mem k) first c l
        (record { start = v.start; end = omega (arith, v.end, sp); chain = ch }) in
    let k_ne : k == 0 ≡ false = ne→== k 0 (omega (arith, v.start)) in
    (after, rw (e, free_at) (rw k_ne (rw run refl)), chain)

-- `mcb_free` on an arena ends. Given a segment where no block starts it answers error 9 and changes
-- nothing; given a block it answers 0, and the headers are those of the blocks with its owner
-- cleared and free neighbours joined.
pub mcb_free-released :
    (mem : Mem) (first seg : ℕ) (b : Block) (bs : List Block)
    → IsArena mem first b bs
    → Frees mem first (released seg first b bs) (mcb_free mem first seg)
unfolding mcb_free mcb_find
mcb_free-released mem first seg b bs v =
    free-Frees mem first b bs (released seg first b bs) (find_loop walk_fuel mem first seg) v (
      find-Finds walk_fuel mem first seg b bs v.end v.chain
        (omega (arith, count-span bs, span_cons b bs, v.end)))

-- `proc_init` makes an arena of one free block from `first` to the top of memory, where there is
-- room for its header.
pub proc_init-IsArena :
    (mem : Mem) (first top : ℕ)
    → 0 < first
    → first < top
    → top < 65536
    → IsArena
        (proc_init mem first top)
        first
        (record { owner = owner_free; size = top - first - 1 })
        []
unfolding proc_init IsChain span
proc_init-IsArena mem first top pos lt small =
    let size : u16 (top - first - 1) ≡ top - first - 1 = omega arith in
    record {
      start = pos;
      end = omega (arith, span_cons (record { owner = owner_free; size = top - first - 1 }) []);
      chain = (ground (arith, size), tt);
    }
