-- ===== src/App/Source.antt =====
-- src/app/srs_app_source.cpp: the live source. Jitter, Queue, Consumer, Gop, Meta and Live hold
-- the classes of that file, a function for each operation.
pub mod Jitter
pub mod Queue
pub mod Gop
pub mod Consumer
pub mod Live
mod Tests
