-- ===== src/Fat/Alloc.antt =====
-- src/kernel/fat.c: `fat_alloc` takes a free cluster.
use liberdos.Base.{ℕ, ◌≤◌, ◌≡◌, ◌≢◌, ◌⊎◌, Array, update, ◌==◌, if◌then◌else◌}
use liberdos.Fat.{Disk, Volume, Fat, clus_eoc}
use liberdos.Fat.Cache.{IsDisk}
use liberdos.Fat.Volumes.{stored_of, IsTable, CanFail}

-- The mark of the last cluster.
abbrev pub marked : Volume → Array ℕ → ℕ → Array ℕ
marked m t cl = update t cl (stored_of m clus_eoc)

module _ {S : Type 0} {disk : Disk S} (k : IsDisk disk) where
  -- A free cluster is marked as the last one and linked behind `prev`, where there is one; the link
  -- is lost where the disk fails. Or nothing is changed, and every cluster is in use or has an entry
  -- at which the disk fails.
  pub data Allocated (m : Volume) (t : Array ℕ) (prev : ℕ) (r : ℕ × Fat S) : Type 0 where
    linked :
        2 ≤ r.0
        → r.0 ≤ m.max_cluster
        → t r.0 ≡ 0
        → IsTable k r.1
            (if prev == 0 then marked m t r.0 else update (marked m t r.0) prev (stored_of m r.0))
        → Allocated m t prev r
    unlinked :
        2 ≤ r.0
        → r.0 ≤ m.max_cluster
        → t r.0 ≡ 0
        → prev ≢ 0
        → CanFail k m (marked m t r.0) prev
        → IsTable k r.1 (marked m t r.0)
        → Allocated m t prev r
    full :
        r.0 ≡ 0
        → ((c : ℕ) → 2 ≤ c → c ≤ m.max_cluster → (t c ≢ 0) ⊎ CanFail k m t c)
        → IsTable k r.1 t
        → Allocated m t prev r
