-- ===== src/Fat/Chains.antt =====
-- src/kernel/fat.c: `fat_free_chain` ends, whatever the entries of the chain are.
use liberdos.Base.{ℕ, ◌<◌, ◌≡◌, true, Option, some, Array}
use liberdos.Fat.{Disk, Volume, Fat, clus_eoc, selected}
use liberdos.Fat.Entries.{fat_next, fat_set}
use liberdos.Fat.Cache.{IsDisk}
use liberdos.Fat.Volumes.{IsTable, CanFail}
use liberdos.Fat.Freed.{is_cluster, Freed}

module _ {S : Type 0} {disk : Disk S} (k : IsDisk disk) where
  -- A run of the loop that ends, with the table that it leaves.
  pub record Ended (m : Volume) (t : Array ℕ) (cl : ℕ) (r : Option (Fat S)) : Type 0 where
    pub end : Fat S
    pub after : Array ℕ
    pub returns : r ≡ some end
    pub table : IsTable k end after
    pub same : selected end ≡ m
    pub freed : Freed m (CanFail k m) after t cl

  module _ (m : Volume) (small : m.max_cluster < clus_eoc) where
    -- One round of the loop, at a data cluster.
    module _ (fuel : ℕ) (x : Fat S) (t : Array ℕ) (cl : ℕ) (own : selected x ≡ m)
        (v : IsTable k x t) (b : is_cluster m cl ≡ true) where
      nx : ℕ
      nx = (fat_next disk x cl).0

      y : Fat S
      y = (fat_next disk x cl).1

      z : Fat S
      z = fat_set disk y cl 0
