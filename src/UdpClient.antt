-- ===== src/UdpClient.antt =====
-- boost_test/asio/010.udp_client/010.udp_client.cpp: the session, its requests and their counter,
-- each step what runs between two suspensions. What the sockets, the timer and std::rand do is the
-- argument of a step; both kinds of request run the same statements but for the text that is sent.
pub mod Waiting
mod Tests
use cpp_code.Prelude.{
  ℕ, zero, suc, ◌+◌, ◌-◌, ◌*◌, ◌/◌, ◌%◌, ◌^◌, ◌≤◌, ◌<◌, ◌≡◌, refl, sym, ap, ap₂, ◌∙◌, subst, ◌≢◌,
  ◌↔◌, ◌⊎◌, inl, inr, Bool, true, false, not, ◌&&◌, ◌||◌, Option, none, some, List, [], ◌∷◌, ◌++◌,
  arith, ltb, leb, ◌==◌, if◌then◌else◌, Bool-cases, Option-cases,
}

-- Which of the two operations of receive_with_timeout is the first to end. A receive that fails
-- ends too, with its error in ec_recv.
pub data Race : Type 0 where
  received timed_out : Race

-- What happens to a request: an exception before the counter, of open, async_send_to, the timer or
-- cancel, or what receive_with_timeout returns from, and whether close throws after that.
pub data Course : Type 0 where
  throws : Course
  answers : Race → Bool → Course

-- `flushes` and `hellos` are the requests that run, `completed` that the session's loop has ended.
pub record Client : Type 0 where
  pub timeout_count : ℕ
  pub counter : ℕ
  pub i : ℕ
  pub flushes : ℕ
  pub hellos : ℕ
  pub completed : Bool

abbrev pub new : Client
new = record { timeout_count = 0; counter = 0; i = 0; flushes = 0; hellos = 0; completed = false }

abbrev pub request_count : ℕ
request_count = 100000

abbrev pub awaited_count : ℕ
awaited_count = 10000

unfoldable pub receive_with_timeout : Client → Race → Client
receive_with_timeout s received = s
receive_with_timeout s timed_out = record s { timeout_count = suc s.timeout_count }

counted : Client → Client
counted s = record s { counter = suc s.counter }

-- The body of either request. Where close throws, the handler counts once more.
unfoldable pub request : Client → Course → Client
unfolding receive_with_timeout counted
request s throws = counted s
request s (answers race close_throws) =
    let s' = counted (receive_with_timeout s race) in if close_throws then counted s' else s'

unfoldable pub time_flush_request : Client → Course → Client
unfolding request
time_flush_request s course =
    if s.flushes == 0 then s else request (record s { flushes = s.flushes - 1 }) course

unfoldable pub hello_request : Client → Course → Client
unfolding request
hello_request s course =
    if s.hellos == 0 then s else request (record s { hellos = s.hellos - 1 }) course

-- One turn of the loops of client_session: a request is spawned while i is below 100000, and then
-- the counter is sampled.
unfoldable pub client_session : Client → ℕ → Client
client_session s random =
    if ltb s.i request_count
    then if random % 2 == 0
      then record s { i = suc s.i; flushes = suc s.flushes }
      else record s { i = suc s.i; hellos = suc s.hellos }
    else if s.counter == awaited_count
    then record s { completed = true }
    else s

pub data Turn : Type 0 where
  session_turn : ℕ → Turn
  flush_ends hello_ends : Course → Turn

unfoldable pub turn : Client → Turn → Client
unfolding client_session time_flush_request hello_request
turn s (session_turn random) = client_session s random
turn s (flush_ends course) = time_flush_request s course
turn s (hello_ends course) = hello_request s course

unfoldable pub turns : Client → List Turn → Client
unfolding turn
turns s [] = s
turns s (t ∷ ts) = turns (turn s t) ts
