-- ===== src/Xms/Pool/Next.antt =====
-- src/kernel/xms.c: `next_block_above` finds the lowest block in use from a base on.
use liberdos.Base.{
  ℕ, zero, suc, ◌+◌, ◌≤◌, ◌<◌, ◌≡◌, inl, inr, true, Option, none, some, arith, Array, subst,
  Bool-cases, leb, ltb, ◌&&◌,
}
use liberdos.Base.Loop.{below-last}
use liberdos.Xms.Pool.{Handle, handle_count, better, next_loop, next_block_above}

-- `j` is the lowest of the blocks in use from `from` on, among the first `n` handles.
pub record IsNext (xh : Array Handle) (from n j : ℕ) : Type 0 where
  pub index : j < n
  pub used : (xh j).used ≡ true
  pub above : from ≤ (xh j).base_kb
  pub least :
      (k : ℕ) → k < n → (xh k).used ≡ true → from ≤ (xh k).base_kb → (xh j).base_kb ≤ (xh k).base_kb

-- What a walk up to index `n` has found: nothing yet, or the lowest block so far.
pub data Lowest (xh : Array Handle) (from n : ℕ) (r : Option ℕ) : Type 0 where
  nothing :
      r ≡ none → ((k : ℕ) → k < n → (xh k).used ≡ true → (xh k).base_kb < from) → Lowest xh from n r
  lowest : (j : ℕ) → r ≡ some j → IsNext xh from n j → Lowest xh from n r

module _ (xh : Array Handle) (from : ℕ) where
  better-Lowest :
      (i : ℕ) (best : Option ℕ)
      → Lowest xh from i best
      → Lowest xh from (i + 1) (better xh from i best)
  better-Lowest i best (nothing e h) = elim (Bool-cases ((xh i).used && leb from (xh i).base_kb)) [
    | inl c ↦ lowest i (ground arith) (record {
      index = omega arith;
      used = ground arith;
      above = ground arith;
      least = below-last _ i (λ k hk u lo. absurd (omega (arith, h k hk u))) (λ u lo. omega arith);
    })
    | inr c ↦ nothing (ground arith) (below-last _ i h (λ u. ground arith))
  ]
  better-Lowest i best (lowest j e x) =
      elim (Bool-cases
        ((xh i).used && (leb from (xh i).base_kb && ltb (xh i).base_kb (xh j).base_kb))) [
          | inl c ↦ lowest i (ground arith) (record {
            index = omega arith;
            used = ground arith;
            above = ground arith;
            least =
                below-last _ i (λ k hk u' lo'. ground (arith, x.least k hk u' lo'))
                  (λ u lo. omega arith);
          })
          | inr c ↦ lowest j (ground (arith, x.above, x.used)) (record {
            index = omega (arith, x.index);
            used = x.used;
            above = x.above;
            least = below-last _ i x.least (λ u' lo'. ground arith);
          })
        ]

  next_loop-Lowest :
      (n i m : ℕ) (best : Option ℕ)
      → i + n ≡ m
      → Lowest xh from i best
      → Lowest xh from m (next_loop xh from n i best)
  unfolding next_loop
  next_loop-Lowest zero i m best e h =
      let e' : i ≡ m = omega arith in subst (λ k. Lowest xh from k best) e' h
  next_loop-Lowest (suc n) i m best e h =
      next_loop-Lowest n (i + 1) m (better xh from i best) (omega arith) (better-Lowest i best h)

  pub next_block_above-Lowest : Lowest xh from handle_count (next_block_above xh from)
  unfolding next_block_above
  next_block_above-Lowest =
      next_loop-Lowest handle_count 0 handle_count none (omega arith)
        (nothing (ground arith) (λ k hk. absurd (omega arith)))
