-- ===== src/Base/Loop.antt =====
-- The counted loops of the kernel over a fixed table: find the first index that passes a test,
-- change every entry, count the entries that pass.
use liberdos.Base.{
  ℕ, zero, suc, ◌+◌, ◌≤◌, ◌<◌, ◌≡◌, ◌≢◌, refl, sym, subst, inl, inr, Bool, true, false, ◌&&◌,
  Option, none, some, arith, ltb, leb, if◌then◌else◌, Bool-cases, ℕ_discrete, ap, Array, update,
}

-- A fact about `i` and about the `n` indices behind it is one about all of them.
pub below-suc {ℓ} :
    (P : ℕ → Type ℓ) (n i : ℕ)
    → P i
    → ((k : ℕ) → i + 1 ≤ k → k < i + 1 + n → P k)
    → (k : ℕ) → i ≤ k
    → k < i + suc n
    → P k
below-suc P n i h rest k lo hi = elim (ℕ_discrete i k) [
  | yes e ↦ subst P e h
  | no ne ↦ rest k (omega arith) (omega arith)
]

-- A fact about every index below `n` and about `n` is one about all below `n + 1`.
pub below-last {ℓ} :
    (P : ℕ → Type ℓ) (n : ℕ) → ((k : ℕ) → k < n → P k) → P n → (k : ℕ) → k < n + 1 → P k
below-last P n rest h k hi = elim (ℕ_discrete n k) [
  | yes e ↦ subst P e h
  | no ne ↦ rest k (omega arith)
]

-- `for (k = i; k < i + n; k++) if (p(k)) { found = k; break; }`
unfoldable pub find_from : (ℕ → Bool) → ℕ → ℕ → Option ℕ
find_from p zero i = none
find_from p (suc n) i = let rest = find_from p n (i + 1) in if p i then some i else rest

-- What a hit says: the test holds there, and at no index before it.
pub record IsFirst (p : ℕ → Bool) (n i j : ℕ) : Type 0 where
  pub hit : p j ≡ true
  pub from : i ≤ j
  pub below : j < i + n
  pub first : (k : ℕ) → i ≤ k → k < j → p k ≡ false

pub find_from-IsFirst :
    (p : ℕ → Bool) (n i : ℕ) {j : ℕ} → find_from p n i ≡ some j → IsFirst p n i j
unfolding find_from
find_from-IsFirst p zero i e = cc
find_from-IsFirst p (suc n) i {j} e = elim (Bool-cases (p i)) [
  | inl t ↦ record {
    hit = ground arith;
    from = ground arith;
    below = ground arith;
    first = λ k lo hi. ground arith;
  }
  | inr f ↦
      let ih = find_from-IsFirst p n (i + 1) {j = j} (ground arith) in
      record {
        hit = ih.hit;
        from = omega arith;
        below = omega arith;
        first = λ k lo hi. elim (ℕ_discrete i k) [
          | yes e ↦ rw (← e) f
          | no ne ↦ ih.first k (omega arith) hi
        ];
      }
]

pub find_from-none :
    (p : ℕ → Bool) (n i : ℕ) → find_from p n i ≡ none → (k : ℕ) → i ≤ k → k < i + n → p k ≡ false
unfolding find_from
find_from-none p zero i e k lo hi = absurd (omega arith)
find_from-none p (suc n) i e k lo hi =
    below-suc (λ k. p k ≡ false) n i (ground arith) (find_from-none p n (i + 1) (ground arith)) k lo
      hi

-- `for (k = i; k < i + n; k++) a[k] = f(a[k]);`
unfoldable pub for_each {ℓ} : {A : Type ℓ} → ℕ → ℕ → (A → A) → Array A → Array A
for_each zero i f a = a
for_each (suc n) i f a = for_each n (i + 1) f (update a i (f (a i)))

pub for_each_lem {ℓ} :
    {A : Type ℓ} (n i : ℕ) (f : A → A) (a : Array A) (j : ℕ)
    → for_each n i f a j ≡ (if leb i j && ltb j (i + n) then f (a j) else a j)
unfolding for_each
for_each_lem zero i f a j = ground arith
for_each_lem (suc n) i f a j = ground (arith, for_each_lem n (i + 1) f (update a i (f (a i))) j)

-- `for (k = i; k < i + n; k++) if (p(k)) c++;`
unfoldable pub count_from : (ℕ → Bool) → ℕ → ℕ → ℕ
count_from p zero i = 0
count_from p (suc n) i = let rest = count_from p n (i + 1) in if p i then suc rest else rest

-- A stronger test counts fewer, strictly where some index tells them apart.
pub count_from-le :
    (p q : ℕ → Bool) (n i : ℕ)
    → ((k : ℕ) → p k ≡ true → q k ≡ true)
    → count_from p n i ≤ count_from q n i
unfolding count_from
count_from-le p q zero i h = omega arith
count_from-le p q (suc n) i h = ground (arith, count_from-le p q n (i + 1) h, h i)

pub count_from-lt :
    (p q : ℕ → Bool) (n i j : ℕ)
    → ((k : ℕ) → p k ≡ true → q k ≡ true)
    → i ≤ j
    → j < i + n
    → p j ≡ false
    → q j ≡ true
    → count_from p n i < count_from q n i
unfolding count_from
count_from-lt p q zero i j h lo hi pj qj = absurd (omega arith)
count_from-lt p q (suc n) i j h lo hi pj qj = elim (ℕ_discrete i j) [
  | yes e ↦ ground (arith, count_from-le p q n (i + 1) h, ap p e, ap q e)
  | no ne ↦ ground (arith, h i, count_from-lt p q n (i + 1) j h (omega arith) (omega arith) pj qj)
]

pub count_from-none :
    (p : ℕ → Bool) (n i : ℕ) → ((k : ℕ) → i ≤ k → k < i + n → p k ≡ false) → count_from p n i ≡ 0
unfolding count_from
count_from-none p zero i h = refl
count_from-none p (suc n) i h =
    rw (h i (omega arith) (omega arith))
      (count_from-none p n (i + 1) (λ k lo hi. h k (omega arith) (omega arith)))

pub count_from_bound : (p : ℕ → Bool) (n i : ℕ) → count_from p n i ≤ n
unfolding count_from
count_from_bound p zero i = omega arith
count_from_bound p (suc n) i = ground (arith, count_from_bound p n (i + 1))

-- `for (k = i; k < i + n; k++) s += f(k);`
unfoldable pub sum_from : (ℕ → ℕ) → ℕ → ℕ → ℕ
sum_from f zero i = 0
sum_from f (suc n) i = f i + sum_from f n (i + 1)

pub sum_from_eq :
    (f g : ℕ → ℕ) (n i : ℕ)
    → ((k : ℕ) → i ≤ k → k < i + n → f k ≡ g k)
    → sum_from f n i ≡ sum_from g n i
unfolding sum_from
sum_from_eq f g zero i h = refl
sum_from_eq f g (suc n) i h = omega (
  arith,
  h i (omega arith) (omega arith),
  sum_from_eq f g n (i + 1) (λ k lo hi. h k (omega arith) (omega arith)),
)

-- Sums of functions that differ at one index.
pub sum_from_ne :
    (f g : ℕ → ℕ) (n i j d : ℕ)
    → i ≤ j
    → j < i + n
    → ((k : ℕ) → i ≤ k → k < i + n → k ≢ j → f k ≡ g k)
    → f j ≡ g j + d
    → sum_from f n i ≡ sum_from g n i + d
unfolding sum_from
sum_from_ne f g zero i j d lo hi h at = absurd (omega arith)
sum_from_ne f g (suc n) i j d lo hi h at = elim (ℕ_discrete i j) [
  | yes e ↦
      let here : f i ≡ g i + d = subst (λ k. f k ≡ g k + d) (sym e) at in
      omega (
        arith,
        here,
        sum_from_eq f g n (i + 1) (λ k a b. h k (omega arith) (omega arith) (omega arith)),
      )
  | no ne ↦ omega (
    arith,
    h i (omega arith) (omega arith) ne,
    sum_from_ne f g n (i + 1) j d (omega arith) (omega arith)
        (λ k a b. h k (omega arith) (omega arith)) at,
  )
]

pub sum_from_zero :
    (f : ℕ → ℕ) (n i : ℕ) → ((k : ℕ) → i ≤ k → k < i + n → f k ≡ 0) → sum_from f n i ≡ 0
unfolding sum_from
sum_from_zero f zero i h = refl
sum_from_zero f (suc n) i h = omega (
  arith,
  h i (omega arith) (omega arith),
  sum_from_zero f n (i + 1) (λ k a b. h k (omega arith) (omega arith)),
)
