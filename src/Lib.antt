-- ===== src/Lib.antt =====
-- Verification of the LiberDOS kernel, the C part of a real-mode DOS (src/kernel).
--
-- The parts that are modelled, each translated from its C file:
--   Share (src/kernel/share.c): the region locks of INT 21h/5Ch and the sharing modes. The table of
--     32 locks is an argument and a result of `share_lock`, `share_unlock`, `share_io_check`,
--     `share_file_closed` and `share_psp_closed`; the file layer, the FCB calls and the end of a
--     process call these, which `Call` and `run` stand for.
--   Xms (src/kernel/xms.c): the XMS driver. Xms.Pool has the handle table and the walks
--     `next_block_above`, `find_gap` and `query_free`; Xms.Move has `put_desc`, `emm_linear`,
--     `do_move` and `xms_copy`; Xms has the cases of the switch in `xms_dispatch`, one function each,
--     Xms.Gates those of the HMA and A20, and Xms.Start `xms_init` and `xms_reserve`; Xms.Dispatch is
--     the switch.
--   Arena (src/kernel/proc.c): the chain of MCBs in conventional memory, with `mcb_alloc`, `mcb_find`,
--     `mcb_free`, `mcb_coalesce`, `mcb_largest`, `mcb_free_owner` and `proc_init`. Its memory is the
--     headers by paragraph. Arena.Chain reads it as a list of blocks; Arena.Calls has INT 21h
--     functions 48h and 49h on it, and Arena.Resize has `mcb_resize` and function 4Ah.
--   Clock (src/kernel/clock.c): the date and time calls 2Ah to 2Dh over INT 1Ah, which is the record
--     `Rtc` over any type of clock states, and the FAT time stamps.
--   Ems (src/kernel/ems.c): the EMS driver over Xms. Ems has its state and `backing_alloc`, `phys_flush`
--     and `map_page`; Ems.Calls and Ems.Tables the cases of the switch in `ems_dispatch`, one function
--     each, Ems.Switch the switch, and Ems.Start `frame_unlock` and `ems_init`. Its RAM is the one that
--     `xms_copy` works on; its record holds it beside the tables.
--   Fat (src/kernel/fat.c): the FAT driver. Fat has the volumes, their selection, the sector buffer and
--     the cache of `f16_load`; Fat.Entries the entries of the FAT and the clusters, Fat.Mount mounting
--     and Fat.Dir the entries of a directory. It calls src/kernel/disk.c through the record `Disk`
--     over any type of disk states, and `IsDisk` is what it relies on there for hard disks. Fat.Cache
--     to Fat.Answers read the FAT as a table of entries, which the theorems on clusters speak of.
--     Fat.Absolute has INT 25h and 26h, Fat.Slots the directory slots of a long name, and Fat.Gather
--     their way back.
--   Drives (src/kernel/disk.c): `floppy_io`, `hdd_io`, `disk_read`, `disk_write` and the geometry, over
--     the calls of INT 13h as the record `Int13`. `disk_of` makes the record `Disk` of them, and
--     Drives.Linear fills `IsDisk` for it from what these calls are documented to do (`IsInt13`). Of
--     floppies, which are addressed by cylinder, head and sector, `IsDisk` says only that a read
--     changes no sector.
--   Setver (src/kernel/setver.c): the table of versions, and `setver_apply` on the path of a program.
--
-- Base has what they share: C arrays as functions of the index, with the loops over them, and machine
-- words, whose wrap-around is written out. Machine has what the kernel finds below it and does not
-- implement: the BIOS calls and port 92h, as a record of functions that the definitions take as an
-- argument, and RAM as a function from physical addresses to bytes. What a theorem needs of the BIOS
-- is among its hypotheses by name (`Moves`: INT 15h AH=87h copies what its descriptors say).
--
-- Loops over a fixed array are structural recursion on the number of rounds. The walks through the
-- XMS pool and the arena and the copy in chunks of 64 KB are `for (;;)` and `while` loops in the
-- source and take fuel here, where `none` means that it ran out: 17 rounds for a walk through the
-- pool, one for each handle and the last; len / 65536 + 2 for a copy; 65536 rounds for a walk through
-- the arena, which has fewer blocks than memory has paragraphs; one more than the highest cluster for
-- a walk along a chain of clusters; 65536 entries for a search through a directory and 65536
-- characters for a path, whose indices have 16 bits. In a pool with an empty block in use the loops
-- of the source can fail to end, and no fuel is enough.
--
-- Not modelled: the start of the kernel and the boot sectors, in assembly; the console calls,
-- which pass on to the BIOS; the shell and its tools; and, so far, the rest of the process code,
-- the free directory slots, short names and paths of fat.c, and the file layer.
pub mod Arena
pub mod Base
pub mod Clock
pub mod Drives
pub mod Ems
pub mod Share
pub mod Machine
pub mod Xms
pub mod Fat
pub mod Setver
