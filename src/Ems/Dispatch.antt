-- ===== src/Ems/Dispatch.antt =====
-- src/kernel/ems.c: `ems_dispatch` returns, and keeps the ownership of the pages.
use liberdos.Base.{
  ℕ, inl, inr, not, ◌||◌, arith, Array, update, Bool-cases, ltb, ◌==◌, if◌then◌else◌,
}
use liberdos.Base.Word.{high, low}
use liberdos.Machine.{Bios, Iregs}
use liberdos.Ems.{Ems, Ehandle, phys_pages, map_page}
use liberdos.Ems.Calls.{
  map_at, release_at, save_at, restore_at, pages_at, page_count, fn_map, release, save_map,
  restore_map, open_handles, handle_pages,
}
use liberdos.Ems.Tables.{
  multiple_at, name_at, all_pages, page_map, map_multiple, handle_name, put_maps,
}
use liberdos.Ems.Switch.{ems_dispatch}
use liberdos.Ems.Store.{IsIn}
use liberdos.Ems.Kept.{IsStore, released-IsStore}
use liberdos.Ems.Answers.{
  Returns, either-Returns, map_page-Returns, map_many-Returns, mapped-Returns, restored-Returns,
  with_handle-Returns, same-IsStore, allocate-Returns, reallocate-Returns,
}

-- A handle may have another name.
IsIn-named :
    (eh : Array Ehandle) (h k p : ℕ) (name : Array ℕ)
    → (IsIn (update eh h (record (eh h) { name = name })) k p → IsIn eh k p)
      × (IsIn eh k p → IsIn (update eh h (record (eh h) { name = name })) k p)
IsIn-named eh h k p name = (
  λ i. record {
    index = i.index;
    used = ground (arith, i.used);
    from = ground (arith, i.from);
    below = ground (arith, i.below);
  },
  λ i. record {
    index = i.index;
    used = ground (arith, i.used);
    from = ground (arith, i.from);
    below = ground (arith, i.below);
  },
)

named-IsStore :
    (x : Ems) (h : ℕ) (name : Array ℕ)
    → IsStore x
    → IsStore (record x { eh = update x.eh h (record (x.eh h) { name = name }) })
named-IsStore x h name v = record {
  owned = record {
    small = v.owned.small;
    end = λ k hk u. ground (arith, v.owned.end k);
    owns = λ k p i. v.owned.owns k p ((IsIn-named x.eh h k p name).0 i);
    owned = λ p hp ne. (IsIn-named x.eh h (x.page_owner p) p name).1 (v.owned.owned p hp ne);
  };
  count = v.count;
}

module _ (bios : Bios) (x : Ems) (r : Iregs) (v : IsStore x) where
  fn_map-Returns : Returns (fn_map bios x r)
  unfolding fn_map
  fn_map-Returns = with_handle-Returns x r (map_at bios x r) v (λ h hh u.
      mapped-Returns r (map_page bios x h r.bx (low r.ax))
        (map_page-Returns bios x h r.bx (low r.ax) v))

  release-Returns : Returns (release x r)
  unfolding release
  release-Returns =
      with_handle-Returns x r (release_at x r) v (λ h hh u. released-IsStore x h v hh u)

  save_map-Returns : Returns (save_map x r)
  unfolding save_map
  save_map-Returns =
      with_handle-Returns x r (save_at x r) v
        (λ h hh u. either-Returns (x.saved_used h) _ _ v (same-IsStore x x.ram x.cur_map _ _ v))

  restore_map-Returns : Returns (restore_map bios x r)
  unfolding restore_map
  restore_map-Returns = with_handle-Returns x r (restore_at bios x r) v (λ h hh u.
      either-Returns (not (x.saved_used h)) _ _ v
        (restored-Returns r h _ (map_many-Returns bios _ phys_pages 0 x v)))

  handle_pages-Returns : Returns (handle_pages x r)
  unfolding handle_pages
  handle_pages-Returns = with_handle-Returns x r (pages_at x r) v (λ h hh u. v)

  page_map-Returns : Returns (page_map bios x r)
  unfolding page_map
  page_map-Returns =
      either-Returns (low r.ax == 1 || low r.ax == 2) _ _
        (mapped-Returns r _ (map_many-Returns bios _ phys_pages 0 y w))
        (either-Returns (low r.ax == 3) _ _ w (either-Returns (ltb 3 (low r.ax)) _ _ w w))
    where
      y : Ems
      y =
          if low r.ax == 0 || low r.ax == 2
          then record x { ram = put_maps x.cur_map r phys_pages 0 x.ram }
          else x

      w : IsStore y
      w = elim (Bool-cases (low r.ax == 0 || low r.ax == 2)) [
        | inl t ↦ rw t (record { owned = v.owned; count = v.count })
        | inr f ↦ rw f v
      ]

  map_multiple-Returns : Returns (map_multiple bios x r)
  unfolding map_multiple
  map_multiple-Returns = with_handle-Returns x r (multiple_at bios x r) v (λ h hh u.
      either-Returns (not (low r.ax == 0)) _ _ v
        (mapped-Returns r _ (map_many-Returns bios _ r.cx 0 x v)))

  handle_name-Returns : Returns (handle_name x r)
  unfolding handle_name
  handle_name-Returns = with_handle-Returns x r (name_at x r) v (λ h hh u.
      either-Returns (low r.ax == 0) _ _ (record { owned = v.owned; count = v.count })
        (either-Returns (low r.ax == 1) _ _ (named-IsStore x h _ v) v))

  -- From a state where they are so, a call of INT 67h returns, whatever the BIOS does and whatever the
  -- registers hold, and leaves the pages of the backing store as they must be: the runs of the
  -- handles in use lie in the store, every page of such a run has that handle as its owner, every
  -- owned page lies in the run of its owner, and the count of used pages is that of the owned ones.
  pub ems_dispatch-Returns : Returns (ems_dispatch bios x r)
  unfolding ems_dispatch page_count open_handles all_pages
  ems_dispatch-Returns =
      let fn = high r.ax in
      either-Returns (not x.present) _ _ v (
        either-Returns (fn == 0x40) _ _ v (
          either-Returns (fn == 0x41) _ _ v (
            either-Returns (fn == 0x42) _ _ v (
              either-Returns (fn == 0x43) _ _ (allocate-Returns x r v) (
                either-Returns (fn == 0x44) _ _ fn_map-Returns (
                  either-Returns (fn == 0x45) _ _ release-Returns (
                    either-Returns (fn == 0x46) _ _ v (
                      either-Returns (fn == 0x47) _ _ save_map-Returns (
                        either-Returns (fn == 0x48) _ _ restore_map-Returns (
                          either-Returns (fn == 0x4B) _ _ v (
                            either-Returns (fn == 0x4C) _ _ handle_pages-Returns (
                              either-Returns (fn == 0x4D) _ _
                                (record { owned = v.owned; count = v.count })
                                (either-Returns (fn == 0x4E) _ _ page_map-Returns (
                                  either-Returns (fn == 0x50) _ _ map_multiple-Returns (
                                    either-Returns (fn == 0x51) _ _ (reallocate-Returns bios x r v)
                                      (either-Returns (fn == 0x53) _ _ handle_name-Returns
                                        v))))))))))))))))
