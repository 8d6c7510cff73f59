-- ===== src/UdpClient/Tests.antt =====
-- The theorems at concrete turns.
use cpp_code.Prelude.{◌≡◌, refl, true, false, List, [], ◌∷◌}
use cpp_code.UdpClient.{
  received, timed_out, throws, answers, Client, new, Turn, session_turn, flush_ends, hello_ends,
  turns, turn,
}
use cpp_code.UdpClient.Waiting.{all_ended_hangs}

-- A request that times out, one that throws, and one whose close throws.
abbrev some_turns : List Turn
some_turns =
    session_turn 2
    ∷ session_turn 3
    ∷ flush_ends (answers timed_out false)
    ∷ session_turn 4
    ∷ hello_ends throws
    ∷ flush_ends (answers received true)
    ∷ []

some_turns_end :
    turns new some_turns
    ≡ record { timeout_count = 1; counter = 4; i = 3; flushes = 0; hellos = 0; completed = false }
unfolding turns turn
some_turns_end = refl

abbrev all_ended : Client
all_ended = record new { counter = 100000; i = 100000 }

all_ended_hangs_example : (turns all_ended (session_turn 0 ∷ session_turn 1 ∷ [])).completed ≡ false
all_ended_hangs_example =
    all_ended_hangs all_ended 0 (session_turn 0 ∷ session_turn 1 ∷ []) refl refl refl refl refl
