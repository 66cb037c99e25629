-- ===== src/Main/Port.antt =====
-- The processing of `-p <port>`.
use concurrent_server.Common.{
  ℕ, zero, suc, ◌<◌, ◌≤◌, ◌≡◌, ◌≢◌, true, false, some, none, Option, List, [], ◌∷◌, ◌++◌, arith,
  leb, if◌then◌else◌, replicate,
}
use concurrent_server.Text.{is_digit, int_max}
use concurrent_server.Text.Decimal.{all_digits, value, string_to_int-value, string_to_int-minus_one}
use concurrent_server.Main.{
  max_port, Getopt, no_option, port_option, question, other_option, Options, listening,
  exit_failure, overflow, endless, check_port, option_loop, process_options,
}

check_port-digits :
    (s r : List ℕ) (next : Options)
    → all_digits s ≡ true
    → check_port (s ++ 0 ∷ r) next ≡ (
        if leb (value s) max_port
        then next
        else if leb (value s) int_max
        then exit_failure
        else overflow)
unfolding check_port
check_port-digits s r next d = ground (arith, string_to_int-value s r d)

option_loop-end :
    (argc : ℕ) (port : Option (List ℕ)) (calls : List (Getopt × ℕ))
    → option_loop argc argc port calls ≡ listening port
unfolding option_loop
option_loop-end argc port [] = ground arith
option_loop-end argc port ((no_option, i) ∷ calls) = ground arith
option_loop-end argc port ((port_option arg, i) ∷ calls) = ground arith
option_loop-end argc port ((question, i) ∷ calls) = ground arith
option_loop-end argc port ((other_option, i) ∷ calls) = ground arith

-- A port of digits is taken if its value is at most 65535; with a value that fits `int` the server
-- exits, and with a larger one the computation of the value overflows.
pub process_options-digits :
    (argc : ℕ) (s r : List ℕ) (calls : List (Getopt × ℕ))
    → 1 < argc
    → all_digits s ≡ true
    → process_options argc ((port_option (s ++ 0 ∷ r), argc) ∷ calls) ≡ (
        if leb (value s) max_port
        then listening (some (s ++ 0 ∷ r))
        else if leb (value s) int_max
        then exit_failure
        else overflow)
unfolding process_options option_loop
process_options-digits argc s r calls many d = ground (
  arith,
  option_loop-end argc (some (s ++ 0 ∷ r)) calls,
  check_port-digits s r (option_loop argc argc (some (s ++ 0 ∷ r)) calls) d,
)

-- Where the first character of the port that is no digit is not the NUL, the server exits, if the
-- digits before it fit `int`.
pub process_options-malformed :
    (argc i : ℕ) (s r : List ℕ) (c : ℕ) (calls : List (Getopt × ℕ))
    → 1 < argc
    → all_digits s ≡ true
    → value s ≤ int_max
    → c ≢ 0
    → is_digit c ≡ false
    → process_options argc ((port_option (s ++ c ∷ r), i) ∷ calls) ≡ exit_failure
unfolding process_options option_loop check_port
process_options-malformed argc i s r c calls many d fits nz bad =
    ground (arith, string_to_int-minus_one s r c d fits nz bad)

option_loop-endless :
    (argc i n : ℕ) (port : Option (List ℕ))
    → i < argc
    → option_loop argc i port (replicate n (no_option, i)) ≡ endless
unfolding option_loop
option_loop-endless argc i zero port less = ground arith
option_loop-endless argc i (suc n) port less =
    ground (arith, option_loop-endless argc i n port less)

-- While `getopt` returns -1 and leaves an argument, as it does for one that is no option, the loop
-- goes on: after any number of such calls it has not ended.
pub process_options-endless :
    (argc n : ℕ) → 1 < argc → process_options argc (replicate n (no_option, 1)) ≡ endless
unfolding process_options
process_options-endless argc n many = ground (arith, option_loop-endless argc 1 n none many)
