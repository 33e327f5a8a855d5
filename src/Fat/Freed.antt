-- ===== src/Fat/Freed.antt =====
-- src/kernel/fat.c: what freeing a chain does to the table of entries.
use liberdos.Base.{
  ℕ, ◌-◌, ◌<◌, ◌≡◌, ◌≢◌, ◌⊎◌, Bool, true, false, not, ◌&&◌, arith, Array, update, leb, ◌==◌,
}
use liberdos.Base.Loop.{count_from, count_from-lt}
use liberdos.Fat.{Volume}
use liberdos.Fat.Volumes.{answer_of, stored_of}

-- A number of a data cluster of the volume.
abbrev pub is_cluster : Volume → ℕ → Bool
is_cluster m cl = leb 2 cl && leb cl m.max_cluster

-- What freeing a chain does to the table: nothing where no cluster is left; else the entry is cleared
-- and the chain goes on where it pointed; or the disk fails at the entry, as `F` says, and the entry
-- is cleared or not, and the rest of the chain stays.
pub data Freed (m : Volume) (F : Array ℕ → ℕ → Type 0) (t' : Array ℕ) : Array ℕ → ℕ → Type 0 where
  over : (cl : ℕ) → is_cluster m cl ≡ false → Freed m F t' t' cl
  step :
      (t : Array ℕ) (cl : ℕ)
      → is_cluster m cl ≡ true
      → Freed m F t' (update t cl 0) (answer_of m (t cl))
      → Freed m F t' t cl
  failed :
      (t : Array ℕ) (cl : ℕ)
      → is_cluster m cl ≡ true
      → F t cl
      → (t' ≡ update t cl 0) ⊎ (t' ≡ t)
      → Freed m F t' t cl

-- The clusters in use.
abbrev pub used : Volume → Array ℕ → ℕ
used m t = count_from (λ c. not (t c == 0)) (m.max_cluster - 1) 2

pub stored_zero : (m : Volume) → stored_of m 0 ≡ 0
stored_zero m = ground arith

pub answer_zero : (m : Volume) → answer_of m 0 ≡ 0
answer_zero m = ground arith

pub used-clear :
    (m : Volume) (t : Array ℕ) (cl : ℕ)
    → is_cluster m cl ≡ true
    → t cl ≢ 0
    → used m (update t cl 0) < used m t
used-clear m t cl h ne =
    count_from-lt (λ c. not (update t cl 0 c == 0)) (λ c. not (t c == 0)) (m.max_cluster - 1) 2 cl
      (λ c. ground arith) (ground arith) (ground arith) (ground arith) (ground (arith, ne))
