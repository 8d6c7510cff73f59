-- ===== src/Relative/Tests.antt =====
-- The theorems on segments and messages at concrete ones.
use cpp_code.Prelude.{
  ℕ, ◌+◌, ◌%◌, ◌≤◌, ◌≡◌, refl, ◌≢◌, ◌⊎◌, true, false, none, some, List, [], ◌∷◌, ◌++◌, arith,
  get_elem?,
}
use cpp_code.Prelude.Int.{ℤ, pos}
use cpp_code.Relative.{word, SegmentInfo, Registry, find_control_segment, get_base}
use cpp_code.Relative.Pointers.{last_address}
use cpp_code.Relative.Sender.{send_target, accepted, data_segments, IsAmong, send_target-accepted}
use cpp_code.Relative.Roudi.{ctrl_segment, data_segment, create_segments}
use cpp_code.Relative.Protocol.{
  act, send_at, receive_at, Message, Action, starts, sends, receives, run, start,
}
use cpp_code.Relative.Protocol.Delivery.{AllFresh, unread, somes, run_delivers}
use cpp_code.Relative.Protocol.Order.{outstanding, run_ordered}

-- The same two segments at other addresses.
abbrev mine : List (SegmentInfo × ℕ)
mine = (ctrl_segment, 8192) ∷ (data_segment 0, 65536) ∷ []

abbrev theirs : List (SegmentInfo × ℕ)
theirs = (ctrl_segment, 4096) ∷ (data_segment 0, 20480) ∷ []

mine_base : last_address 1 none mine ≡ some 65536
unfolding last_address
mine_base = refl

abbrev segments : List SegmentInfo
segments = ctrl_segment ∷ data_segment 0 ∷ []

one_target : send_target 0 16 (pos 7) segments ≡ accepted (data_segment 0)
unfolding send_target find_control_segment data_segments
one_target = refl

send_target-accepted_example :
    (pos 7 ≢ pos 0)
    × (16 % 8 ≡ 0)
    × IsAmong (data_segment 0) segments
    × ((data_segment 0).is_control ≡ false)
    × ((16 + 8 ≤ (data_segment 0).size) ⊎ (16 + 8 ≡ word))
send_target-accepted_example =
    send_target-accepted 0 16 (pos 7) segments (data_segment 0) (omega arith) one_target

control_found : find_control_segment segments ≡ some ctrl_segment
unfolding find_control_segment
control_found = refl

first_data : get_elem? (data_segments segments) 0 ≡ some (data_segment 0)
unfolding data_segments
first_data = refl

abbrev served : List SegmentInfo
served = ctrl_segment ∷ data_segment 0 ∷ data_segment 1 ∷ data_segment 2 ∷ data_segment 3 ∷ []

all_created : create_segments (λ s. true) ≡ some served
unfolding create_segments
all_created = refl

abbrev registry : Registry
registry = (0, 4096) ∷ (1, 20480) ∷ []

abbrev zeros : ℕ → ℕ → ℤ
zeros = λ segment offset. pos 0

abbrev hello : Message
hello = record { segment = 1; offset = 16; content = pos 7 }

-- The sender publishes while the receiver polls; the second message waits for the first.
abbrev interleaved : List Action
interleaved =
    starts hello
    ∷ sends
    ∷ receives
    ∷ sends
    ∷ sends
    ∷ receives
    ∷ sends
    ∷ sends
    ∷ starts hello
    ∷ receives
    ∷ sends
    ∷ sends
    ∷ receives
    ∷ []

run_ordered_example :
    let s = run (start registry zeros) interleaved in
    s.received ++ outstanding s.receiver s ≡ s.sent
run_ordered_example = run_ordered registry zeros interleaved

known : get_base registry 1 ≡ some 20480
unfolding get_base
known = refl

abbrev beside : Message
beside = record { segment = 1; offset = 24; content = pos 9 }

-- A second sender is started, and stores its value, while the first message is not read.
abbrev two_senders : List Action
two_senders =
    starts hello
    ∷ sends
    ∷ sends
    ∷ sends
    ∷ sends
    ∷ sends
    ∷ receives
    ∷ starts beside
    ∷ sends
    ∷ receives
    ∷ []

two_senders-AllFresh : AllFresh (start registry zeros) two_senders
unfolding act send_at receive_at get_base
two_senders-AllFresh = (
  (λ e. cc, tt),
  (tt, (tt, (tt, (tt, (tt, (tt, ((λ e. cc, (λ same e. omega (arith, e), tt)), (tt, (tt, tt))))))))),
)

run_delivers_example :
    let s = run (start registry zeros) two_senders in
    s.contents ++ unread s.cells (outstanding s.receiver s) ≡ somes s.values
run_delivers_example = run_delivers registry zeros two_senders two_senders-AllFresh
