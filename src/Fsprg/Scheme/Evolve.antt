-- ===== src/Fsprg/Scheme/Evolve.antt =====
-- FSPRG_Evolve squares the residue and counts the epoch.
use python_systemd.Base.{
  ℕ, zero, suc, ◌+◌, ◌*◌, ◌/◌, ◌%◌, ◌^◌, ◌<◌, ◌≡◌, refl, ◌∙◌, ap, ap₂, sym, subst, Option, some,
  List, length, arith,
}
use native.Mathlib.Nat.{pow-suc, pow-zero, mod-eq_of_lt}
use python_systemd.Base.Word.{u64}
use python_systemd.Base.Buffer.{◌>>=◌, write_at, write_at-second, write_at-third}
use python_systemd.Base.Mod.{pow-mod, pow_add}
use python_systemd.Fsprg.Gcrypt.{Gcrypt, IsArithmetic, IsFormat}
use python_systemd.Fsprg.Codec.{store_secpar, uint64_export}
use python_systemd.Fsprg.Codec.Laws.{mpi_export-IsWritten, be_value-bounds}
use python_systemd.Fsprg.Scheme.{evolve, get_epoch}
use python_systemd.Fsprg.Scheme.State.{
  Holds, state_bytes, offsets, store_secpar-length, uint64_export-length, holds-secpar, holds-n,
  holds-x, holds-epoch, holds-get_epoch,
}

module _ (g : Gcrypt) (laws : IsArithmetic g) (format : IsFormat g) where
  module _ (secpar n x epoch : ℕ) (state : List ℕ) (holds : Holds secpar n x epoch state) where
    residue_fits : 0 < n → x * x % n < 2 ^ (8 * (secpar / 8))
    residue_fits h =
        subst (λ (t : ℕ). x * x % n < 2 ^ (8 * t)) holds.n_length
          (omega (arith, be_value-bounds 0 holds.n_bytes holds.n-IsBytes, holds.n_value))

    write_back :
        (x_bytes : List ℕ)
        → length x_bytes ≡ secpar / 8
        → (next : ℕ)
        → (write_at (2 + 1 * secpar / 8) x_bytes state >>= λ state.
            write_at (2 + 2 * secpar / 8) (uint64_export next) state)
          ≡ some (state_bytes secpar holds.n_bytes x_bytes next holds.rest)
    write_back x_bytes h next =
        ap
          (λ (t : Option (List ℕ)).
            t >>= λ state. write_at (2 + 2 * secpar / 8) (uint64_export next) state)
          (ap (write_at (2 + 1 * secpar / 8) x_bytes) holds.layout
            ∙ write_at-second (store_secpar secpar) holds.n_bytes holds.x_bytes _ x_bytes _
                (omega
                  (arith, offsets secpar holds.valid, store_secpar-length secpar, holds.n_length))
                (omega (arith, holds.x_length)))
        ∙ write_at-third (store_secpar secpar) holds.n_bytes x_bytes (uint64_export epoch)
            holds.rest (uint64_export next) _
            (omega (arith, offsets secpar holds.valid, store_secpar-length secpar, holds.n_length))
            (omega (arith, uint64_export-length epoch, uint64_export-length next))

    -- FSPRG_Evolve on a well-formed state with a positive modulus succeeds and gives a
    -- well-formed state of the same modulus, with the residue squared modulo n and the epoch
    -- counted modulo 2^64.
    pub evolve-Holds :
        0 < n
        → (next : List ℕ) × (evolve g state ≡ some next)
          × Holds secpar n (x * x % n) (u64 (epoch + 1)) next
    unfolding evolve
    evolve-Holds h =
        let (x_bytes, e) =
          mpi_export-IsWritten g format (secpar / 8) (x * x % n) (residue_fits h) in
        (
          state_bytes secpar holds.n_bytes x_bytes (u64 (epoch + 1)) holds.rest,
          rw
              (
                holds-secpar secpar n x epoch state holds,
                holds-n secpar n x epoch state holds g format,
                holds-x secpar n x epoch state holds g format,
                holds-epoch secpar n x epoch state holds,
                laws.mulm_law x x n h,
                e.written,
              )
              (write_back x_bytes e.filled (u64 (epoch + 1))),
          record {
            n_bytes = holds.n_bytes;
            x_bytes = x_bytes;
            rest = holds.rest;
            layout = refl;
            valid = holds.valid;
            n_length = holds.n_length;
            x_length = e.filled;
            n-IsBytes = holds.n-IsBytes;
            x-IsBytes = e.all_bytes;
            n_value = holds.n_value;
            x_value = e.value;
            epoch_fits = omega arith;
          },
        )

-- `k` calls of FSPRG_Evolve on the same memory.
unfoldable pub evolve_times : Gcrypt → ℕ → List ℕ → Option (List ℕ)
evolve_times g zero state = some state
evolve_times g (suc k) state = evolve g state >>= evolve_times g k

square_pow : (x j : ℕ) → (x * x) ^ j ≡ x ^ j * x ^ j
square_pow x zero = ap (λ (t : ℕ). t) (pow-zero (x * x)) ∙ sym (ap₂ ◌*◌ (pow-zero x) (pow-zero x))
square_pow x (suc j) =
    pow-suc (x * x) j
    ∙ ap (λ (t : ℕ). t * (x * x)) (square_pow x j)
    ∙ (let e : x ^ j * x ^ j * (x * x) ≡ x ^ j * x * (x ^ j * x) = omega arith in e)
    ∙ sym (ap₂ ◌*◌ (pow-suc x j) (pow-suc x j))

next_power : (n x k : ℕ) → (x * x % n) ^ 2 ^ k % n ≡ x ^ 2 ^ suc k % n
next_power n x k =
    pow-mod (x * x) (2 ^ k) n
    ∙ ap (λ (t : ℕ). t % n)
        (square_pow x (2 ^ k)
          ∙ sym (pow_add x (2 ^ k) (2 ^ k))
          ∙ ap (λ (t : ℕ). x ^ t) (omega (arith, pow-suc 2 k)))

unchanged : (n x : ℕ) → x < n → x ≡ x ^ 2 ^ zero % n
unchanged n x h = sym (ap (λ (t : ℕ). t % n) one ∙ mod-eq_of_lt h)
  where
    one : x ^ 2 ^ zero ≡ x
    one =
        ap (λ (t : ℕ). x ^ t) (pow-zero 2)
        ∙ pow-suc x 0
        ∙ ap (λ (t : ℕ). t * x) (pow-zero x)
        ∙ (let e : 1 * x ≡ x = omega arith in e)

module _ (g : Gcrypt) (laws : IsArithmetic g) (format : IsFormat g) where
  -- A state with residue x below its modulus n, evolved k times, holds x ^ 2 ^ k mod n, and
  -- FSPRG_GetEpoch has counted k, as long as the epoch fits 64 bits.
  pub evolve_times-Holds :
      (k secpar n x epoch : ℕ) (state : List ℕ)
      → Holds secpar n x epoch state
      → x < n
      → epoch + k < 2 ^ 64
      → (next : List ℕ) × (evolve_times g k state ≡ some next)
        × Holds secpar n (x ^ 2 ^ k % n) (epoch + k) next
        × (get_epoch next ≡ some (epoch + k))
  unfolding evolve_times
  evolve_times-Holds zero secpar n x epoch state holds below fits =
      let same : Holds secpar n (x ^ 2 ^ zero % n) (epoch + zero) state =
        subst (λ (e : ℕ). Holds secpar n (x ^ 2 ^ zero % n) e state) (omega arith)
          (subst (λ (y : ℕ). Holds secpar n y epoch state) (unchanged n x below) holds) in
      (state, refl, same, holds-get_epoch _ _ _ _ _ same)
  evolve_times-Holds (suc k) secpar n x epoch state holds below fits =
      let (next, run, after) =
        evolve-Holds g laws format secpar n x epoch state holds (omega arith) in
      let counted : Holds secpar n (x * x % n) (epoch + 1) next =
        subst (λ (e : ℕ). Holds secpar n (x * x % n) e next) (omega arith) after in
      let (last, runs, ends, told) =
        evolve_times-Holds k secpar n (x * x % n) (epoch + 1) next counted (omega arith)
          (omega arith) in
      let end : Holds secpar n (x ^ 2 ^ suc k % n) (epoch + suc k) last =
        subst (λ (e : ℕ). Holds secpar n (x ^ 2 ^ suc k % n) e last) (omega arith)
          (subst (λ (y : ℕ). Holds secpar n y (epoch + 1 + k) last) (next_power n x k) ends) in
      (
        last,
        ap (λ (t : Option (List ℕ)). t >>= evolve_times g k) run ∙ runs,
        end,
        holds-get_epoch _ _ _ _ _ end,
      )
