-- ===== src/UnixSocket/Tests.antt =====
-- The theorems on the exchange at concrete answers; a socket is a number.
use Prim.Native.String.{String}
use cpp_code.Prelude.{ℕ, zero, suc, ◌≡◌, refl, ap, none, some}
use cpp_code.UnixSocket.{
  ok, err, other_error, Attempts, ServerAnswers, ClientAnswers, server, client, received,
  retry_from,
}
use cpp_code.UnixSocket.Exchange.{IsOpened, client_receives}

-- The socket is there at the third attempt.
abbrev third : Attempts ℕ
third zero = err (other_error 2)
third (suc zero) = err (other_error 2)
third (suc (suc n)) = ok 7

abbrev ack : String
ack = "ack: hello from client"

ok_injective : (m r : String) → ok m ≡ ok r → m ≡ r
ok_injective m r e = cc

abbrev at_server : ServerAnswers ℕ
at_server = record {
  request_channel = ok 1;
  request = ok "hello from client";
  reply_channels = third;
  reply_error = none;
}

abbrev at_client : ClientAnswers ℕ
at_client = record {
  reply_channel = ok 2;
  request_channels = third;
  request_error = none;
  reply = ok ack;
}

request_sent : (r : String) → ok "hello from client" ≡ ok r → (client at_client).1 ≡ some r
unfolding client retry_from
request_sent r e = ap (λ m. some m) (ok_injective "hello from client" r e)

reply_sent : (r : String) → ok ack ≡ ok r → (server at_server).1 ≡ some r
unfolding server retry_from
reply_sent r e = ap (λ m. some m) (ok_injective ack r e)

is_received : (client at_client).0 ≡ received ack
unfolding client retry_from
is_received = refl

client_receives_example :
    (ack ≡ ack) × IsOpened at_client.request_channels × IsOpened at_server.reply_channels
client_receives_example =
    client_receives at_server at_client ack request_sent reply_sent is_received
