-- ===== src/Fs/Ramfs/Tests.antt =====
-- Two small files in the initial heap; the first is written across its end.
use zwei_os.Base.{some_injective, ◌+◌, ◌≤◌, ◌≡◌, ◌⊎◌, inl, some, [], ◌∷◌, pos, negsuc, arith}
use zwei_os.Mm.Heap.{Heap, heap_init, heap_init_size}
use zwei_os.Mm.Heap.Alloc.{IsValid, needed}
use zwei_os.Mm.Heap.Blocks.{heap_init-IsValid}
use zwei_os.Fs.Ramfs.{RamfsFile, new_cap, read_bytes, ramfs_file_read, ramfs_file_write}
use zwei_os.Fs.Ramfs.Held.{IsWithin, IsFile, contents}
use zwei_os.Fs.Ramfs.Put.{IsApart}
use zwei_os.Fs.Ramfs.Overwrite.{file_node, IsWritten, ramfs_file_write_lem}
use zwei_os.Fs.Ramfs.Read.{ramfs_file_read_lem}

abbrev motd : RamfsFile
motd = record { data_at = some 1024; capacity = 6; size = 5 }

abbrev hosts : RamfsFile
hosts = record { data_at = some 2048; capacity = 16; size = 9 }

abbrev filled : Heap
filled = record heap_init { bytes = λ a. a }

filled-IsValid : IsValid filled
filled-IsValid =
    let v = heap_init-IsValid in
    record { aligned = v.aligned; within = v.within; blocks = v.blocks }

motd-IsFile : IsFile filled motd
unfolding IsWithin heap_init
motd-IsFile = record { within = (omega arith, omega arith); fits = omega arith }

hosts-IsFile : IsFile filled hosts
unfolding IsWithin heap_init
hosts-IsFile = record { within = (omega arith, omega arith); fits = omega arith }

motd-IsApart : IsApart motd hosts
unfolding IsApart
motd-IsApart p q d e = inl (omega (arith, some_injective d, some_injective e))

ramfs_file_write_lem_example :
    let (r, n, t) = ramfs_file_write filled (file_node motd) 4 3 (some (7 ∷ 8 ∷ 9 ∷ [])) in
    ((r ≡ negsuc 0)
      × (n ≡ file_node motd)
      × (t ≡ filled)
      × (heap_init_size ≤ filled.dynamic_offset + needed (new_cap 7)))
    ⊎ ((g : RamfsFile) × (r ≡ pos 3)
        × (n ≡ file_node g)
        × IsWritten filled motd hosts 4 (7 ∷ 8 ∷ 9 ∷ []) g t)
ramfs_file_write_lem_example =
    ramfs_file_write_lem filled motd hosts 4 (7 ∷ 8 ∷ 9 ∷ []) filled-IsValid motd-IsFile
      hosts-IsFile motd-IsApart (omega arith) (omega arith)

ramfs_file_read_lem_example :
    ramfs_file_read filled (file_node motd) 2 10 ≡ (pos 3, 1026 ∷ 1027 ∷ 1028 ∷ [])
unfolding contents read_bytes
ramfs_file_read_lem_example = ramfs_file_read_lem filled motd 2 10 filled-IsValid motd-IsFile
