-- ===== src/Lib.antt =====
-- A model of wslcompat, a preload library that repairs system calls of WSL1, and of its tool
-- elfclamp. The library interposes libc functions. Some of them hand out synthetic descriptors: an
-- O_PATH descriptor in the caller's hands, an entry in a table of 64, and a handler behind it. A call
-- on a descriptor finds its entry by device and inode, pins it, and asks the handler.
--
-- Synth models synth.c and synth.h. Synth/Refcount is the reference count of one table slot under
--   any interleaving of threads: `act` has one action per atomic access of synth_pin,
--   wslcompat_synth_unpin and synth_register, and `Step`, `Reach` are the runs. Synth/Override is
--   the copy-on-write slots by which a vfork child keeps its own descriptors: `acquire`, `view_fd_*`
--   are wslcompat_override_acquire_pid and wslcompat_view_fd_*. Synth/Table is the table between the
--   calls of one thread: `pin_lookup`, `register`, `post_close` are synth_pin_lookup,
--   synth_register, wslcompat_synth_post_close. Synth/Open is wslcompat_synth_open with its probe, on
--   that table. Synth/Starttime reads the start time of a process, as read_proc_starttime and
--   get_start_time of future/xattr_locks.c.
-- Dispatch models the macros SYNTH_DISPATCH, SYNTH_DISPATCH_EXCL and SYNTH_SHIM_E of synth.h and what
--   goes through them: read.c, ioctl.c, fcntl past its lock commands, and fstat.
-- Internal models internal.c and close.c: the registry of the library's own descriptors, and close,
--   dup2, dup3 and close_range as they move those out of the way.
-- Poll models poll.c: Poll/Swap the replacement of synthetic descriptors by real ones for one
--   kernel call, Poll/Dispatch the probe, the wait and the retry of poll_dispatch, Poll/Select the
--   swap, the two passes of the unwinding and the retry of sel_dispatch.
-- Exec models execve.c and tools/elfclamp.c: Exec/Elf is elf_needs_fixup, Exec/Argv the argument
--   vector, Exec/Execve the control flow of execve as a trace of calls, Exec/Clamp the tool.
-- Tunables models tunables.c.
-- Memory models mmap.c: `mmap` is a trace of the calls of mmap and mmap_synth_fallback.
-- Lock models the record locks of fcntl.c: fcntl_lock_shim and flock_status_query; Lock/Board the range
--   locks of future/xattr_locks.c, for ranges that end below 2^63 and attributes that read as written.
-- Open models open.c: openat and its relatives, handle_tmpfile_at and the redirection table. Statx
--   models statx.c, and record_btime_now of open.c. Copy models copy_file_range.c. Epoll models
--   epoll_ctl and epoll_pwait2 of epoll.c.
-- Proc models proc.c: Proc/Seek the two lseek operations, Proc/MinAddr the reads of
--   mmap_min_addr, Proc/Mem the transfers of /proc/<pid>/mem.
-- Clock models clock.c: Clock/Tai is CLOCK_TAI, Clock/CpuClock is encoded_cpuclock_who,
--   Clock/CpuSleep is handle_process_cputime.
-- Tty models tty_read of tty.c, and Tty/Wrap its caches, wslcompat_tty_install and tty_release.
--
-- In each part the module of that name has the definitions, its children have the proofs, and Tests
-- has sample data and runs. Prelude has what all parts share: Boolean tests on numbers, lists, texts
-- as lists of bytes, integers for descriptors, and `Res` for a call that may set errno.
--
-- The kernel and the C library are parameters: an oracle for poll, a `World` for execve, the
-- start times of processes for the overrides, `Env` for the table, and a `Kernel` in the other parts.
-- Loops are recursion on a list or on a count. The scan of a tunable's list has the size of the memory
-- as fuel, and `register` calls itself at most once more, which two units of fuel allow. The fuel of
-- the CPU-time sleep is the number of nanoseconds requested and one more, for targets below
-- 2^63 and a process that uses CPU time in each round; that of a terminal's read is the size of the
-- buffer. The scan of mountinfo has the size of its buffer as fuel, which has no more lines than bytes;
-- a copy has one unit for each byte and one more, since each round moves a byte.
--
-- Not modelled: the path recognition and the opening handlers of proc.c, the dispatch tables of clock.c,
-- execveat.c and the other wrappers of exec, the shims of socket options, rename and mincore,
-- and of synth.c the preexec save and restore. In Tty/Wrap the opening of the wrap is a result, without
-- its sweep of a full table, which may release other wraps. The hooks for synthetic descriptors in
-- close and dup are those of Synth/Table, and are not composed with Internal. Log messages, symbol
-- lookup and memory orders weaker than sequential consistency are left out too.
pub mod Prelude
pub mod Exec
pub mod Tunables
pub mod Synth
pub mod Poll
pub mod Memory
pub mod Lock
pub mod Clock
pub mod Tty
pub mod Dispatch
pub mod Statx
pub mod Open
pub mod Copy
pub mod Internal
pub mod Epoll
pub mod Proc
