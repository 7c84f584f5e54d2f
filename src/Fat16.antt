-- ===== src/Fat16.antt =====
-- src/file_system/fat/fat16.c: the volume with its table of clusters, the names in its directories, the
-- directories, and the operations on files.
pub mod Sample
pub mod Volume
pub mod ShortName
pub mod LongName
pub mod Directory
pub mod Create
pub mod File
pub mod Change
pub mod Mount
