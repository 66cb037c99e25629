-- ===== src/Tests/Start.antt =====
-- The theorems on the options, at the ports 80 and 8a.
use concurrent_server.Common.{◌≡◌, refl, some, [], ◌∷◌, arith, replicate}
use concurrent_server.Main.{no_option, port_option, listening, endless, process_options}
use concurrent_server.Main.Port.{process_options-digits, process_options-endless}

process_options-digits_example :
    process_options 3 ((port_option (56 ∷ 48 ∷ 0 ∷ []), 3) ∷ [])
    ≡ listening (some (56 ∷ 48 ∷ 0 ∷ []))
process_options-digits_example = process_options-digits 3 (56 ∷ 48 ∷ []) [] [] (omega arith) refl

process_options-endless_example : process_options 2 (replicate 5 (no_option, 1)) ≡ endless
process_options-endless_example = process_options-endless 2 5 (omega arith)
