-- ===== src/Lib.antt =====
-- Verification of the ZweiOS kernel (kernel/).
--
-- The kernel keeps each of its parts in static tables and calls between parts are plain function
-- calls. A part is a record of its tables here; an operation is a function from the record and the
-- arguments to the result and the new record.
--
-- Base: shared names, Boolean tests, lists as C arrays, signed results.
-- Fs.Pipe: kernel/fs/pipe.cpp, one channel and its operations (`pipe_vnode_read`,
--   `pipe_vnode_write`, `pipe_vnode_close`). Children: Window (the circular buffer), Queue (the
--   abstract queue), Refine (the channel behaves as the queue).
-- Fs.Fd: the descriptor table of kernel/fs/vfs.cpp (`vfs_init`, `vfs_alloc_fd`, `vfs_close`,
--   `vfs_dup`, `vfs_dup2`, `vfs_fcntl`) with `pipe_create` of kernel/fs/pipe.cpp over it. Children:
--   Count and Refs (what the reference counts count), Steps, Create and Fcntl (each call),
--   History (any sequence of calls), Leak (the flag that breaks the counting).
-- Fs.Path: `vfs_normalize_path` of kernel/fs/vfs.cpp, with what its stack holds as a parameter; a write
--   past its buffer is a result. Child: Normal (what it gives).
-- Fs.Mount: the mount table and `vfs_resolve_path` of kernel/fs/vfs.cpp; the type and the lookup of a
--   node, which each file system has its own, are parameters. Children: Longest (the choice of a mount)
--   and Walk (from name to name).
-- Fs.Fat32: kernel/fs/fat32.cpp over a disk of sectors: the table, allocation and freeing. Children:
--   Sector (an entry's bytes), Table and Update (the table as a function), Clear, Search and Allocate
--   (`fat32_allocate_cluster`), Chain and Free (`fat32_free_cluster_chain`), Names (short names; Short),
--   Read (`fat32_vnode_read`, with the overrun of its buffer as a result; Content and Slice).
-- Fs.Ramfs: the files of kernel/fs/ramfs.cpp, whose bytes lie in the kernel heap (Mm.Heap). Children:
--   Bytes (ranges of memory), Held (what a file holds), Grow (a larger buffer), Put (the copy),
--   Overwrite (`ramfs_file_write`), Read (`ramfs_file_read`).
-- Fs.Io: `vfs_read`, `vfs_write` and `vfs_lseek` of kernel/fs/vfs.cpp, with the operations of the nodes
--   as a parameter. Children: Open (an open descriptor), Memory (the operations of ramfs files), Round
--   (writing and reading back).
-- Mm.Pmm: kernel/mm/pmm.cpp. Children: Count (bits and counter), Alloc, Run and Contiguous (the
--   two allocators), Free, History.
-- Mm.Heap: kernel/mm/heap.cpp. Children: Alloc (where blocks lie), Release (`kfree`, `krealloc`),
--   Blocks (histories), Wrap (sizes for which the arithmetic wraps).
--
-- Proc: the process table. Table is its data (kernel/proc/process.hpp) with the page table calls of
--   kernel/mm/vmm.cpp; Process is kernel/proc/process.cpp, with children Pids (no pid twice), Calls
--   and Create (each call), Lookup (`process_get_by_pid`, `process_kill`), Wait
--   (`process_waitpid`), Lost (what exit and create lose); Sched is kernel/proc/sched.cpp, with
--   children Listed (the processes in use), Search (the loop), Rotation (where it starts), Shell (what is
--   left to pick), Pick (the choice) and Tick (the timer tick). It calls Mm.Pmm and Mm.Heap for memory.
--
-- Net: kernel/net. Bytes (fields of packets), Checksum (`ipv4_checksum`), Arp (kernel/net/arp.cpp;
--   children Scan, Cache and Exchange), Ipv4 (kernel/net/ipv4.cpp; Header, Receive, Sent and Text), Tcp
--   (kernel/net/tcp.cpp: endpoints and calls; Input is `tcp_handle_packet`, with children Segment,
--   Edges, Stream and Lost; Connect is `tcp_connect`), Udp (kernel/net/udp.cpp; Bindings,
--   Exchange and Wire), Icmp (kernel/net/icmp.cpp; Echo and Wait), Ethernet
--   (kernel/net/ethernet.cpp; Frames), Dns (the answers of kernel/net/dns.cpp; Names and Reads). A
--   packet is its list of bytes; what a handler sends is a result. The segments of TCP, UDP and ICMP
--   are IPv4's payloads, IPv4 asks Arp for the next hop, and frames are Ethernet's.
--
-- Strings: the memory calls of kernel/lib/string.cpp (`memcpy`, `memmove`, `memset`, `memcmp`).
--   Children: Copy and Compare.
-- Drivers.Keyboard: kernel/drivers/keyboard.cpp. Children: Waiting (the ring) and Keys (typing).
--
-- Conventions. Numbers are natural numbers; where a C type can wrap in reach, the wrap is written out
-- (`% 2 ^ 64`). Counted loops recur on the rounds that are left, loops over a table on the table.
-- Fuel is needed by the folding of a checksum, for which two rounds are enough, by the digits of a byte,
-- for which three are, by the walk along a path, for which one more than the length of the path is, by
-- the walk along a DNS name, for which the datagram's length is, by freeing a chain of clusters, for
-- which the number of the table's clusters and one is, and by reading a file of the disk, for which the
-- bytes asked for are. A C array is a list that is read with a default, or a function of the index. A
-- pointer into a table is an index, and one into the heap's storage an offset.
--
-- A waiting `process_waitpid` is one round of its loop, since other processes run between rounds.
--
-- Not modelled: input and output on devices, the processor's tables, drawing, the Win32 layer, the
-- loaders, DHCP, sockets and DNS queries, `vfs_open`, the directories of both file systems and the writes
-- of FAT32 files, partition tables.
pub mod Base
pub mod Drivers
pub mod Fs
pub mod Mm
pub mod Net
pub mod Proc
pub mod Strings
