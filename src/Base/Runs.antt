-- ===== src/Base/Runs.antt =====
-- Counting over a table whose entries change in one run of indices.
use liberdos.Base.{
  ℕ, zero, suc, ◌+◌, ◌-◌, ◌≤◌, ◌<◌, ◌≡◌, Bool, true, false, arith, Array, ltb, leb, ◌&&◌,
  if◌then◌else◌, dec_lt,
}
use liberdos.Base.Loop.{count_from, for_each, for_each_lem}

-- The tests `p` and `q` differ in the `m` indices from `a` on only, where `p` holds and `q` does not.
pub record DifferIn (p q : ℕ → Bool) (a m : ℕ) : Type 0 where
  pub before : (k : ℕ) → k < a → p k ≡ q k
  pub here : (k : ℕ) → a ≤ k → k < a + m → p k ≡ true
  pub there : (k : ℕ) → a ≤ k → k < a + m → q k ≡ false
  pub behind : (k : ℕ) → a + m ≤ k → p k ≡ q k

pub count_from_run :
    (p q : ℕ → Bool) (n i a m : ℕ)
    → DifferIn p q a m
    → a + m ≤ i + n
    → count_from p n i ≡ count_from q n i + (if ltb i a then m else a + m - i)
unfolding count_from
count_from_run p q zero i a m d hi = ground arith
count_from_run p q (suc n) i a m d hi =
    let ih = count_from_run p q n (i + 1) a m d (omega arith) in
    elim (dec_lt i a) [
      | yes lt ↦ ground (arith, ih, d.before i)
      | no ge ↦ elim (dec_lt i (a + m)) [
        | yes lt ↦ ground (arith, ih, d.here i, d.there i)
        | no gt ↦ ground (arith, ih, d.behind i)
      ]
    ]

-- A run of a table, set to one value.
pub filled {ℓ} :
    {A : Type ℓ} (n first : ℕ) (v : A) (a : Array A) (j : ℕ)
    → for_each n first (λ _. v) a j ≡ (if leb first j && ltb j (first + n) then v else a j)
filled n first v a j = for_each_lem n first (λ _. v) a j
