-- ===== src/Lib.antt =====
-- The storage path, the game list, the menu and the boot path of cubiboot, a boot menu for the
-- GameCube.
--
-- The program is two: cubeboot.dol (cubeboot/), which finds a storage device and patches the console's
-- boot ROM, and the menu that then runs inside it (patches/). Both build the emulation layer
-- cubeboot/source/emu: flippy_emu.c picks one storage device; on all but a FlippyDrive, files are read
-- by FatFs, which calls diskio.c; diskio.c reads through a block cache, dvm_cache.c, and that from the
-- drivers of SD cards, IDE-EXI drives and the GCLoader.
--
-- Cache models cubeboot/source/emu/ffs/dvm_cache.c. Cache/Links is its list of entries with
-- dvm_cache_reset, dvm_cache_search, dvm_cache_promote and dvm_cache_evict, over indices in place of
-- pointers. Cache/State is the static state, with dvm_cache_disable, dvm_cache_enable and
-- dvm_cache_claim. Cache/Round is one round of the loop of dvm_cache_access, a function for each
-- branch, and Cache/Access the loop, dvm_cache_read and dvm_cache_write. Cache/Device is the interface
-- to the devices below. A sector is a value of some type and a buffer is a list of sectors; whether a
-- buffer is aligned is an argument. Cache/Held and Cache/Sound carry the invariant through each
-- branch, and Cache/Contract and Cache/RoundTrip state it for the callers. The loop runs on fuel of
-- twice the number of sectors and two more, since each round either moves on by a sector or fills a
-- page that the next round copies from.
--
-- Disk models cubeboot/source/emu/ffs/diskio.c. The drivers are parameters, and Disk/Media says what
-- is relied on; it makes them a device for Cache. The drivers take 32-bit sector numbers.
--
-- Gcode models cubeboot/source/emu/gcode.c over a disc interface, Gcode/Bus, whose registers are a
-- parameter; its polls are bounded as in the source. The loop in chunks runs on fuel of one more than
-- the number of sectors.
--
-- Ata models the IDE-EXI driver, cubeboot/source/emu/ata.c, as cubeboot.dol is built: Ata/Exi its
-- transactions over the EXI calls of the console library, Ata/Driver the polls, the reset, ata_init
-- and ata_read, and Ata.antt the registers that ask for a sector. Ata/Meter counts the transactions,
-- and Ata/Address says what a drive makes of the words that write its registers.
--
-- Tsd models the SD driver of the IPL, cubeboot/source/emu/tsd.c, over the EXI calls. The wait for the
-- token of a data block has no bound in the source and runs on fuel. Tsd/Crc compares the checksum with
-- the division of polynomials.
--
-- Fdrv models the FlippyDrive client, cubeboot/source/emu/fdrv.c: the probe in Fdrv.antt, and the file
-- commands in Fdrv/Files, with the blobs of cubeboot/source/ipc.h as lists of bytes. fdrv_wait has no
-- bound in the source and runs on fuel; Fdrv/Results says how much is enough. The maintenance of the
-- data cache has no counterpart in the model.
--
-- Emu models cubeboot/source/emu/flippy_emu.c: Emu.antt the choice of a device, flippy_emu_mount in
-- both builds, and Emu/Files the file operations over it, dvd_custom_open to dvd_custom_fs_info. The
-- calls of the client, of FatFs and of the disc drive are a record, Emu/Services, on the state of the
-- hardware. Emu/Runs and Emu/Runs/Native follow sequences of operations.
--
-- Games models the assets of the game list of patches/source/games.c: the pools of buffers, the states
-- of icons and banners with their requests to the transfer queue, and in Games/Lines the lines that
-- are loaded and freed when the list scrolls. An asset is known by the index of its entry, and a
-- buffer by its index in the pool. Games/Steps has the operations as steps, and Games/Window the lines
-- that are loaded while the list scrolls. Games/Files is the listing of a directory, over a record of
-- the commands that it gives; its loop has no bound short of 1920 files and runs on fuel, of which one
-- more than the reads of the directory is enough. A path is a list of characters; where the source
-- copies one to a buffer of 128 characters, a path that does not fit with its end has an outcome of its
-- own. Games/Shown says which entries of a directory are listed, Games/Listing that they are.
--
-- Games/Info models get_game_info of patches/source/dolphin_dvd.c with get_banner_offset_fast of
-- patches/source/bnr_offsets.c, whose table and hash are parameters; Games/Warm is what games.c makes
-- of it, gm_load_banner, gm_check_files and gm_warm_files, over the calls that read files and a record
-- of the calls beside them. Games/Opened says what of those calls is relied on. Games/Discs is the
-- search for games of several discs at the end of gm_check_files, Games/Mates what it links,
-- Games/Places the addresses of the banners in auxiliary memory, and Games/Target is gm_start_thread.
--
-- Grid models patches/source/grid.c and Menu handle_gameselect_inputs of patches/source/menu.c. The
-- positions of the lines are floats in the source and exact numbers of 75ths of a pixel in the model,
-- in which every distance that is added is a whole number; their transparency is left out. Grid/Motion
-- and Grid/Dispatch follow the place of each line, Menu/Rows and Menu/Selection the selection, and
-- Menu/Fades the change between the submenus. The assets of Menu are any state with the two calls of
-- gm_line_changed.
--
-- Boot models load_dol and load_dol_file of patches/source/boot.c, over memory as a function from
-- addresses to bytes, and Boot/Arguments is_swiss, setup_argv and chainload_swiss_game of
-- cubeboot/source/emu/loader.c. Boot/Memory, Boot/Handover, Boot/Structs and Boot/Chainload say
-- what the loaded program finds. Rom models the descrambler of the boot ROM, cubeboot/source/descrambler.c.
--
-- Banners models the cache of banners in ARAM of cubeboot/source/emu/tweaks.c, over an ARAM that takes
-- no byte at or behind its end, and Dol the function
-- DOLMax of patches/source/dol.c. Paths models FileSuffix of patches/source/paths.c.
--
-- Base holds the shared names and lemmas, and Tests devices and states to run the rest on.
--
-- Not modelled: FatFs and the other copies of foreign projects (tinf, tinyprintf, picolibc, pmalloc,
-- upng, ini); the registers and interrupts of the console, and with them the raw register paths that
-- the IPL's SD and IDE-EXI drivers take behind tsd_set_native and ata_set_native; sdgecko in
-- cubeboot.dol; drawing and sound, and patches/source/main.c; of games.c the sorting of paths, the
-- walk of gm_warm_card over all directories and the worker of the thread; of the boot path
-- emu_can_boot, emu_has_dvd, apply_additional_patches and the patching of the boot ROM; the settings
-- and the SRAM; iso9660.c, and flippy_sync.c, whose commands fdrv.c repeats. A write that a device
-- refuses is followed no further: the page that it hits is changed before the device is asked.
pub mod Base
pub mod Cache
pub mod Disk
pub mod Gcode
pub mod Emu
pub mod Banners
pub mod Dol
pub mod Ata
pub mod Fdrv
pub mod Tsd
pub mod Games
pub mod Grid
pub mod Menu
pub mod Boot
pub mod Rom
pub mod Paths
pub mod Tests
