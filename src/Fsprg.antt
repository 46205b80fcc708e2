-- ===== src/Fsprg.antt =====
-- The forward-secure pseudorandom generator, systemd/fsprg.c and systemd/fsprg.h: the bytes of
-- keys and states (`Codec`), deterministic bytes and primes (`Random`), exponents and residues
-- (`Number`), and the functions FSPRG_* (`Scheme`).
pub mod Gcrypt
pub mod Codec
pub mod Random
pub mod Number
pub mod Scheme
