-- ===== src/Tests/Key.antt =====
-- The Python functions on states and keys.
use python_systemd.Base.{ℕ, ◌≡◌, refl, false, some, none, List, [], ◌∷◌, ◌++◌, map, arith}
use python_systemd.Base.Int.{pos}
use python_systemd.Base.Buffer.{◌>>=◌}
use python_systemd.PyUtil.{returns}
use python_systemd.Fsprg.Scheme
use python_systemd.FsprgModule.{
  parse_seed, seed_text, parse_verification_key, key_text, evolve, get_epoch, load_state,
}
use python_systemd.FsprgModule.Key.{parse_seed-seed_text, parse_verification_key-key_text}
use python_systemd.FsprgModule.Memory.{to_items, evolve-to_items, load_state_overflow}
use python_systemd.Tests.Scheme.{some_state}
use python_systemd.Tests.Software.{software}

abbrev twelve_bytes : List ℕ
twelve_bytes = 171 ∷ 1 ∷ 2 ∷ 3 ∷ 4 ∷ 5 ∷ 6 ∷ 7 ∷ 8 ∷ 9 ∷ 10 ∷ 255 ∷ []

parse_seed-seed_text_example :
    parse_seed 12 (seed_text 0 twelve_bytes ++ (47 ∷ [])) ≡ some (twelve_bytes, 47 ∷ [])
parse_seed-seed_text_example = parse_seed-seed_text 0 twelve_bytes (47 ∷ []) (omega arith)

-- A text that has two fields.
abbrev two_fields : List ℕ → ℕ
two_fields text = 2

parse_verification_key-key_text_example :
    parse_verification_key two_fields (key_text twelve_bytes 0x1234 900000000) ≡ 171
parse_verification_key-key_text_example =
    parse_verification_key-key_text two_fields 171
      (1 ∷ 2 ∷ 3 ∷ 4 ∷ 5 ∷ 6 ∷ 7 ∷ 8 ∷ 9 ∷ 10 ∷ 255 ∷ []) 0x1234 900000000 (omega arith) refl refl

evolve-to_items_example :
    (evolve software some_state (to_items some_state)
      ≡ (Scheme.evolve software some_state >>= λ next. some (returns next)))
    × (get_epoch software some_state (to_items some_state)
        ≡ (Scheme.get_epoch some_state >>= λ epoch. some (returns epoch)))
evolve-to_items_example = evolve-to_items software some_state some_state (omega arith) refl

load_state_overflow_example : load_state (map some (pos 1 ∷ pos 2 ∷ [])) (0 ∷ []) false ≡ none
load_state_overflow_example = load_state_overflow (pos 1 ∷ pos 2 ∷ []) (0 ∷ []) false (omega arith)
