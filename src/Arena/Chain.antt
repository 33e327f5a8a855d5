-- ===== src/Arena/Chain.antt =====
-- src/kernel/proc.c: the arena as a list of blocks.
use liberdos.Base.{ℕ, suc, ◌+◌, ◌≤◌, ◌<◌, ◌≡◌, refl, ◌∙◌, arith, List, [], ◌∷◌, update}
use liberdos.Arena.{Mcb, Mem, more, last}

-- A block: its owner and its size in paragraphs, without the header.
pub record Block : Type 0 where
  pub owner : ℕ
  pub size : ℕ

-- The type that the header of a block has, given the blocks behind it.
abbrev pub type_before : List Block → ℕ
type_before [] = last
type_before (_ ∷ _) = more

abbrev pub header : Block → List Block → Mcb
header b bs = record { mtype = type_before bs; mowner = b.owner; msize = b.size }

-- The headers from paragraph `m` on are those of the blocks, one behind the other.
unfoldable pub IsChain : Mem → ℕ → List Block → Type 0
IsChain mem m [] = Unit
IsChain mem m (b ∷ bs) = (mem m ≡ header b bs) × IsChain mem (m + 1 + b.size) bs

-- The paragraphs that blocks take, with their headers, and how many they are.
unfoldable pub span : List Block → ℕ
span [] = 0
span (b ∷ bs) = 1 + b.size + span bs

unfoldable pub count : List Block → ℕ
count [] = 0
count (b ∷ bs) = suc (count bs)

pub span_cons : (b : Block) (bs : List Block) → span (b ∷ bs) ≡ 1 + b.size + span bs
unfolding span
span_cons b bs = refl

pub count-span : (bs : List Block) → count bs ≤ span bs
unfolding count span
count-span [] = omega arith
count-span (b ∷ bs) = omega (arith, count-span bs)

-- A chain stays one in a memory that agrees from its first paragraph on.
pub IsChain-agree :
    (mem mem' : Mem) (m : ℕ) (bs : List Block)
    → ((i : ℕ) → m ≤ i → mem' i ≡ mem i)
    → IsChain mem m bs
    → IsChain mem' m bs
unfolding IsChain
IsChain-agree mem mem' m [] same c = tt
IsChain-agree mem mem' m (b ∷ bs) same (h, c) = (
  same m (omega arith) ∙ h,
  IsChain-agree mem mem' (m + 1 + b.size) bs (λ i le. same i (omega arith)) c,
)

pub IsChain-update :
    (mem : Mem) (m i : ℕ) (h : Mcb) (bs : List Block)
    → i < m
    → IsChain mem m bs
    → IsChain (update mem i h) m bs
IsChain-update mem m i h bs lt c = IsChain-agree mem (update mem i h) m bs (λ j le. ground arith) c

-- The arena: its blocks lie in the paragraphs from `first` on, below 1 MB.
pub record IsArena (mem : Mem) (first : ℕ) (b : Block) (bs : List Block) : Type 0 where
  pub start : 0 < first
  pub end : first + span (b ∷ bs) < 65536
  pub chain : IsChain mem first (b ∷ bs)
