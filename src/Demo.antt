-- ===== src/Demo.antt =====
-- demo/demo_win32.cpp, the graphical front end without its windows. The children have its own code for
-- addresses, blocks, headers, files, the watched transactions and a run of the worker.
pub mod Base58
pub mod Parse
pub mod Watched
pub mod FilterLoad
pub mod SyncFile
pub mod Headers
pub mod Run
pub mod WatchFile
pub mod Ui
