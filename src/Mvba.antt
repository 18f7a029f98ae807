-- ===== src/Mvba.antt =====
-- experiments/dumbomvba-go/core: the agreement layer that the key generation runs on.
pub mod Aba
pub mod Merkle
pub mod Packing
