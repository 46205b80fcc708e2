-- ===== src/FsprgModule.antt =====
-- systemd/_fsprg.c: the Python functions on states. Lists of Python integers are lists of what
-- PyLong_AsUnsignedLong and the cast to a byte leave of each; `none` is an item that is no integer.
pub mod Key
pub mod Memory
use python_systemd.Base.{
  ℕ, zero, suc, ◌+◌, ◌-◌, ◌*◌, ◌/◌, ◌%◌, ◌^◌, Bool, true, false, not, ◌&&◌, ◌||◌, Option, none,
  some, List, [], ◌∷◌, ◌++◌, length, replicate, take, drop, ltb, leb, ◌==◌, if◌then◌else◌,
}
use python_systemd.Base.Int.{ℤ, pos, negsuc, is_neg, pos_part}
use python_systemd.Base.Word.{u8, u64}
use python_systemd.Base.Buffer.{◌>>=◌, ◌>>◌, assert, write_at}
use python_systemd.Util.{Timespec, now}
use python_systemd.Util.Parse.{unhexchar}
use python_systemd.PyUtil.{Outcome, returns, raises, and_then, type_error, python}
use python_systemd.Fsprg.Gcrypt.{Gcrypt}
use python_systemd.Fsprg.Scheme
use python_systemd.Fsprg.Scheme.{
  recommended_secpar, recommended_seedlen, mskinbytes, stateinbytes, gen_mk, gen_state0,
}

-- DEFAULT_FSS_INTERVAL_USEC
abbrev pub default_fss_interval : ℕ
default_fss_interval = 15 * (60 * 1000000)

abbrev pub skip_dashes : List ℕ → List ℕ
skip_dashes [] = []
skip_dashes (c ∷ k) = let skipped = skip_dashes k in if c == 45 then skipped else c ∷ k

-- The character at `k`, the NUL that ends the text included.
abbrev pub char_at : List ℕ → ℕ
char_at [] = 0
char_at (c ∷ k) = c

abbrev pub next_char : List ℕ → List ℕ
next_char [] = []
next_char (c ∷ k) = k

-- One round of the loop over the seed: a byte, and the text behind it.
unfoldable pub seed_byte : List ℕ → Option (ℕ × List ℕ)
seed_byte key =
    let k = skip_dashes key in
    let x = unhexchar (char_at k) in
    let k = next_char k in
    let y = unhexchar (char_at k) in
    let k = next_char k in
    if is_neg x || is_neg y then none else some (u8 (pos_part x * 16 + pos_part y), k)

-- The loop over the seed, for the bytes left.
unfoldable pub parse_seed : ℕ → List ℕ → Option (List ℕ × List ℕ)
parse_seed zero k = some ([], k)
parse_seed (suc c) k = do (byte, k) ← seed_byte k; (seed, k) ← parse_seed c k; some (byte ∷ seed, k)

-- The result is the first byte of the seed, and each error is the byte of -EINVAL. `sscanf` is the
-- number of fields that "%llx-%llx" reads.
unfoldable pub key_result : (sscanf : List ℕ → ℕ) → Option (List ℕ × List ℕ) → ℕ
key_result sscanf none = 2 ^ 8 - 22
key_result sscanf (some (seed, k)) =
    if char_at k == 47 && sscanf (next_char k) == 2 then char_at seed else 2 ^ 8 - 22

unfoldable pub parse_verification_key : (sscanf : List ℕ → ℕ) → List ℕ → ℕ
parse_verification_key sscanf key = key_result sscanf (parse_seed recommended_seedlen key)

-- "%02x" of a byte, and "%llx".
abbrev pub hex_digit : ℕ → ℕ
hex_digit d = if ltb d 10 then 48 + d else 97 + (d - 10)

abbrev pub hex_byte : ℕ → List ℕ
hex_byte b = hex_digit (b / 16) ∷ hex_digit (b % 16) ∷ []

-- The digits of a number below 16 ^ (digits + 1).
abbrev pub hex_number : ℕ → ℕ → List ℕ
hex_number zero n = hex_digit (n % 16) ∷ []
hex_number (suc digits) n =
    let rest = hex_number digits (n / 16) ++ (hex_digit (n % 16) ∷ []) in
    if ltb n 16 then hex_digit n ∷ [] else rest

-- What the loop at the end of `setup_key` prints, from the byte of number `i` on.
unfoldable pub seed_text : ℕ → List ℕ → List ℕ
seed_text i [] = []
seed_text i (b ∷ seed) =
    let text = hex_byte b ++ seed_text (i + 1) seed in
    if ltb 0 i && i % 3 == 0 then 45 ∷ text else text

unfoldable pub key_text : List ℕ → ℕ → ℕ → List ℕ
key_text seed n interval =
    seed_text 0 seed ++ (47 ∷ (hex_number 15 n ++ (45 ∷ (hex_number 15 interval ++ (10 ∷ [])))))

-- An integer out of the range of `unsigned long` leaves 255 and a pending exception.
abbrev pub is_unsigned_long : ℤ → Bool
is_unsigned_long v = not (is_neg v) && ltb (pos_part v) (2 ^ 64)

abbrev pub item_byte : ℤ → ℕ
item_byte v = if is_unsigned_long v then u8 (pos_part v) else 255

-- The loop that fills `state`, whose memory holds anything before, from a Python list: the memory
-- after it, and whether an exception is pending. `none` is a write behind the array.
unfoldable pub load_state : List (Option ℤ) → List ℕ → Bool → Option (Outcome (List ℕ × Bool))
load_state [] state pending = some (returns (state, pending))
load_state (item ∷ items) [] pending = none
load_state (none ∷ items) (b ∷ state) pending = some (raises type_error)
load_state (some v ∷ items) (b ∷ state) pending =
    load_state items state (pending || not (is_unsigned_long v)) >>= λ o.
    some (and_then o λ r. returns (item_byte v ∷ r.0, r.1))

-- A result that is returned while an exception is pending is an error of its own.
abbrev pub unless_pending : {A : Type 0} → Bool → A → Outcome A
unless_pending true a = raises python
unless_pending false a = returns a

abbrev pub on_state :
    {A : Type 0} → (List ℕ → Option A) → Option (Outcome (List ℕ × Bool)) → Option (Outcome A)
on_state f none = none
on_state f (some (raises e)) = some (raises e)
on_state f (some (returns (state, pending))) = f state >>= λ a. some (unless_pending pending a)

abbrev pub hex_text : List ℕ → List ℕ
hex_text [] = []
hex_text (b ∷ key) = hex_byte b ++ hex_text key

-- `memory` is what the array `state` holds before the function writes to it.
module _ (g : Gcrypt) (memory : List ℕ) where
  unfoldable pub evolve : List (Option ℤ) → Option (Outcome (List ℕ))
  evolve items = on_state (Scheme.evolve g) (load_state items memory false)

  unfoldable pub get_epoch : List (Option ℤ) → Option (Outcome ℕ)
  get_epoch items = on_state Scheme.get_epoch (load_state items memory false)

  unfoldable pub get_key : List (Option ℤ) → Option (Outcome (List ℕ))
  get_key items =
      on_state (λ state. Scheme.get_key g state (256 / 8) 0 >>= λ key. some (hex_text key))
        (load_state items memory false)

  -- `seed_memory` and `msk_memory` are the other two arrays; only the first byte of the seed is
  -- written.
  unfoldable pub seek_state :
      (tries : ℕ) (seed_memory msk_memory : List ℕ) (first goal : ℕ) → List ℕ → Option (List ℕ)
  seek_state tries seed_memory msk_memory first goal state = do
    seed ← write_at 0 (first ∷ []) seed_memory
    (msk, mpk) ← gen_mk g tries [] (some msk_memory) none (some seed) recommended_secpar
    msk ← msk
    Scheme.seek g state goal msk seed

  unfoldable pub seek :
      (tries : ℕ) (seed_memory msk_memory : List ℕ) (sscanf : List ℕ → ℕ)
      → List (Option ℤ)
      → (goal : ℕ) (key : List ℕ) → Option (Outcome (List ℕ))
  seek tries seed_memory msk_memory sscanf items goal key =
      on_state (seek_state tries seed_memory msk_memory (parse_verification_key sscanf key) goal)
        (load_state items memory false)

  -- `random` is what gcry_randomize gives; the result is the state and the text that is printed.
  unfoldable pub setup_key :
      (tries : ℕ) (mpk_memory random : List ℕ) (clock : Timespec) → Option (List ℕ × List ℕ)
  setup_key tries mpk_memory random clock = do
    (msk, mpk) ← gen_mk g tries [] none (some mpk_memory) (some random) recommended_secpar
    mpk ← mpk
    state ← gen_state0 g memory mpk random
    some (state, key_text random (now clock / default_fss_interval) default_fss_interval)
