-- ===== src/App.antt =====
-- src/app: the live source and what it keeps for its players.
pub mod Source
pub mod Llhls
