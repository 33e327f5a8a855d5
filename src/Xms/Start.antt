-- ===== src/Xms/Start.antt =====
-- src/kernel/xms.c: `xms_init` at boot, and `xms_reserve` for another part of the kernel.
use liberdos.Base.{
  ℕ, ◌+◌, ◌-◌, ◌*◌, true, false, Option, none, some, ltb, ◌==◌, if◌then◌else◌, update,
}
use liberdos.Base.Loop.{for_each}
use liberdos.Base.Word.{u16, u32}
use liberdos.Machine.{Bios}
use liberdos.Xms.Pool.{handle_count, pool_start_kb, find_gap}
use liberdos.Xms.{Xms, free_handle}

-- `xms_init`: the new state, and the pool size for the boot banner.
unfoldable pub xms_init : Bios → Xms → Xms × ℕ
xms_init bios x =
    let kb = if bios.e801_kb == 0 then bios.kb_88 else bios.e801_kb in
    let pool_end = if ltb 64 kb then 1024 + kb else pool_start_kb in
    (
      record x {
        xh = for_each handle_count 0 (λ h. record h { used = false }) x.xh;
        pool_end_kb = pool_end;
      },
      u16 (pool_end - pool_start_kb),
    )

-- `xms_reserve`: the linear base of the block, 0 when there is none.
unfoldable pub reserve_at : Xms → ℕ → ℕ → Option ℕ → Option (Xms × ℕ)
reserve_at x kb h none = none
reserve_at x kb h (some base) =
    if base == 0
    then some (x, 0)
    else some (
      record x {
        xh = update x.xh h (record { used = true; locks = 1; base_kb = base; size_kb = kb });
      },
      u32 (base * 1024),
    )

unfoldable pub xms_reserve : Xms → ℕ → Option (Xms × ℕ)
unfolding reserve_at
xms_reserve x kb = elim (free_handle x.xh) [
  | none ↦ some (x, 0)
  | some h ↦ reserve_at x kb h (find_gap x.xh x.pool_end_kb kb)
]
