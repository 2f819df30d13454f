-- ===== src/Fs.antt =====
-- kernel/fs: pipes, the file descriptors that refer to them, paths, and the mounts they lie in.
pub mod Pipe
pub mod Ramfs
pub mod Fd
pub mod Io
pub mod Path
pub mod Mount
pub mod Fat32
