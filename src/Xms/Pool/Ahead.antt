-- ===== src/Xms/Pool/Ahead.antt =====
-- src/kernel/xms.c: what a walk through the pool leaves behind, and what is still ahead of it.
use liberdos.Base.{
  ℕ, ◌+◌, ◌≤◌, ◌<◌, ◌≡◌, ◌⊎◌, inl, inr, true, Bool, ◌&&◌, arith, leb, Array, dec_lt, ℕ_discrete,
}
use liberdos.Base.Loop.{count_from, count_from-lt}
use liberdos.Base.Word.{u32}
use liberdos.Xms.Pool.{Handle, handle_count, pool_start_kb, IsPool, HasSizes}
use liberdos.Xms.Pool.Round.{end_of}
use liberdos.Xms.Pool.Next.{IsNext}

-- Every block in use that starts below `cand` ends there too.
abbrev pub IsBehind : Array Handle → ℕ → Type 0
IsBehind xh cand =
    (i : ℕ)
    → i < handle_count
    → (xh i).used ≡ true
    → (xh i).base_kb < cand
    → (xh i).base_kb + (xh i).size_kb ≤ cand

-- The blocks in use that the walk has still to pass.
abbrev pub ahead : Array Handle → ℕ → ℕ → Bool
ahead xh cand i = (xh i).used && leb cand (xh i).base_kb

-- No block lies across the end of the next block, and none in the gap before it.
pub IsNext-IsBehind :
    (xh : Array Handle) (pool_end cand nb : ℕ)
    → IsPool xh pool_end
    → IsBehind xh cand
    → IsNext xh cand handle_count nb
    → IsBehind xh (end_of (xh nb))
IsNext-IsBehind xh pool_end cand nb v b n i hi ui below = elim (ℕ_discrete nb i) [
  | yes e ↦ rw e (omega arith)
  | no ne ↦ ground (arith, b i hi ui, n.least i hi ui, v.apart nb i n.index hi ne n.used ui)
]

pub IsNext-free :
    (xh : Array Handle) (cand nb : ℕ)
    → IsBehind xh cand
    → IsNext xh cand handle_count nb
    → (i : ℕ) → i < handle_count
    → (xh i).used ≡ true
    → (end_of (xh i) ≤ cand) ⊎ ((xh nb).base_kb ≤ (xh i).base_kb)
IsNext-free xh cand nb b n i hi u = elim (dec_lt (xh i).base_kb cand) [
  | yes lt ↦ inl (b i hi u lt)
  | no ge ↦ inr (n.least i hi u (omega arith))
]

-- Nothing in use starts below the pool.
pub start-IsBehind :
    (xh : Array Handle) (pool_end : ℕ) → IsPool xh pool_end → IsBehind xh pool_start_kb
start-IsBehind xh pool_end v i hi u b = absurd (omega (arith, v.inside i hi u))

-- Each round leaves a block behind.
pub ahead-lt :
    (xh : Array Handle) (cand nb : ℕ)
    → HasSizes xh
    → IsNext xh cand handle_count nb
    → count_from (ahead xh (end_of (xh nb))) handle_count 0
      < count_from (ahead xh cand) handle_count 0
ahead-lt xh cand nb sizes x =
    count_from-lt _ _ handle_count 0 nb (λ k p. ground (arith, x.above)) (omega arith) x.index
      (ground (arith, sizes nb x.index x.used)) (ground (arith, x.used, x.above))

-- The end of a block does not wrap.
pub end-u32 :
    (xh : Array Handle) (pool_end : ℕ)
    → IsPool xh pool_end
    → (cand nb : ℕ) → IsNext xh cand handle_count nb
    → u32 (end_of (xh nb)) ≡ end_of (xh nb)
end-u32 xh pool_end v cand nb x = omega (arith, v.inside nb x.index x.used, v.bound)
