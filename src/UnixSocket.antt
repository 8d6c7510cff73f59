-- ===== src/UnixSocket.antt =====
-- cpp_test/iceoryx/016.unix_domain_socket/016.unix_domain_socket.cpp: the server and the client, which
-- exchange a request and a reply over two sockets, and createClientSocketWithRetry. What
-- iox::UnixDomainSocket answers to each call is given from outside; waiting between attempts and
-- what is printed are left out.
pub mod Exchange
mod Tests
use Prim.Native.String.{String, ◌++◌}
use cpp_code.Prelude.{
  ℕ, zero, suc, ◌+◌, ◌-◌, ◌*◌, ◌/◌, ◌%◌, ◌^◌, ◌≤◌, ◌<◌, ◌≡◌, refl, sym, ap, ap₂, ◌∙◌, subst, ◌≢◌,
  ◌↔◌, ◌⊎◌, inl, inr, Bool, true, false, not, ◌&&◌, ◌||◌, Option, none, some, List, [], ◌∷◌, arith,
  ltb, leb, ◌==◌, if◌then◌else◌, Bool-cases, Option-cases,
}

pub data PosixIpcChannelError : Type 0 where
  no_such_channel : PosixIpcChannelError
  other_error : ℕ → PosixIpcChannelError

-- iox::expected.
pub data Expected (A : Type 0) : Type 0 where
  ok : A → Expected A
  err : PosixIpcChannelError → Expected A

abbrev pub max_retries : ℕ
max_retries = 50

-- What each attempt to create a socket answers, by its number.
abbrev pub Attempts : Type 0 → Type 0
Attempts C = ℕ → Expected C

module _ {C : Type 0} where
  -- One turn: the first socket is returned.
  abbrev pub attempted : Expected C → Expected C → Expected C
  attempted (ok c) rest = ok c
  attempted (err e) rest = rest

  -- The loop of createClientSocketWithRetry from an attempt on, with the attempts that are left.
  unfoldable pub retry_from : Attempts C → ℕ → ℕ → Expected C
  retry_from attempts attempt zero = err no_such_channel
  retry_from attempts attempt (suc left) =
      attempted (attempts attempt) (retry_from attempts (suc attempt) left)

  abbrev pub create_client_socket_with_retry : Attempts C → Expected C
  create_client_socket_with_retry attempts = retry_from attempts 0 max_retries

-- The answers to the server's calls, in their order; the error of send is none where it succeeds.
pub record ServerAnswers (C : Type 0) : Type 0 where
  pub request_channel : Expected C
  pub request : Expected String
  pub reply_channels : Attempts C
  pub reply_error : Option PosixIpcChannelError

-- How the server returns.
pub data ServerEnd : Type 0 where
  request_server_failed receive_failed reply_client_failed reply_failed :
      PosixIpcChannelError → ServerEnd
  answered : ServerEnd

pub record ClientAnswers (C : Type 0) : Type 0 where
  pub reply_channel : Expected C
  pub request_channels : Attempts C
  pub request_error : Option PosixIpcChannelError
  pub reply : Expected String

pub data ClientEnd : Type 0 where
  reply_server_failed request_client_failed send_failed reply_receive_failed :
      PosixIpcChannelError → ClientEnd
  received : String → ClientEnd

reply_result : Option PosixIpcChannelError → ServerEnd
reply_result none = answered
reply_result (some e) = reply_failed e

reply_end : Expected String → ClientEnd
reply_end (err e) = reply_receive_failed e
reply_end (ok reply) = received reply

module _ {C : Type 0} where
  -- With the message that send was called with.
  unfoldable pub reply_on : ServerAnswers C → String → Expected C → ServerEnd × Option String
  unfolding reply_result
  reply_on a request (err e) = (reply_client_failed e, none)
  reply_on a request (ok c) = (reply_result a.reply_error, some ("ack: " ++ request))

  unfoldable pub answer_to : ServerAnswers C → Expected String → ServerEnd × Option String
  unfolding reply_on
  answer_to a (err e) = (receive_failed e, none)
  answer_to a (ok request) = reply_on a request (create_client_socket_with_retry a.reply_channels)

  unfoldable pub serve_on : ServerAnswers C → Expected C → ServerEnd × Option String
  unfolding answer_to
  serve_on a (err e) = (request_server_failed e, none)
  serve_on a (ok c) = answer_to a a.request

  unfoldable pub server : ServerAnswers C → ServerEnd × Option String
  unfolding serve_on
  server a = serve_on a a.request_channel

  sent_end : ClientAnswers C → Option PosixIpcChannelError → ClientEnd
  unfolding reply_end
  sent_end a (some e) = send_failed e
  sent_end a none = reply_end a.reply

  unfoldable pub request_on : ClientAnswers C → Expected C → ClientEnd × Option String
  unfolding sent_end
  request_on a (err e) = (request_client_failed e, none)
  request_on a (ok c) = (sent_end a a.request_error, some "hello from client")

  unfoldable pub ask_on : ClientAnswers C → Expected C → ClientEnd × Option String
  unfolding request_on
  ask_on a (err e) = (reply_server_failed e, none)
  ask_on a (ok c) = request_on a (create_client_socket_with_retry a.request_channels)

  unfoldable pub client : ClientAnswers C → ClientEnd × Option String
  unfolding ask_on
  client a = ask_on a a.reply_channel
