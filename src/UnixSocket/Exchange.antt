-- ===== src/UnixSocket/Exchange.antt =====
-- The retries, and what the client can receive.
use Prim.Native.String.{String, ◌++◌}
use cpp_code.Prelude.{
  ℕ, zero, suc, ◌+◌, ◌≤◌, ◌<◌, ◌≡◌, refl, sym, ap, ◌∙◌, ◌≢◌, ◌⊎◌, inl, inr, true, arith, ltb,
  if◌then◌else◌, Bool-cases, ltb→lt, none, some,
}
use cpp_code.UnixSocket.{
  PosixIpcChannelError, no_such_channel, Expected, ok, err, Attempts, retry_from,
  create_client_socket_with_retry, max_retries, attempted, server, client, ServerAnswers, serve_on,
  ask_on, ClientAnswers, answer_to, request_on, String, reply_on, received,
}

inside : (n attempt left : ℕ) → attempt ≡ n → ltb n (attempt + suc left) ≡ true
inside n attempt left e = ground arith

shifted : (attempt left : ℕ) → attempt + suc left ≡ suc attempt + left
shifted attempt left = omega arith

none-some : (m : String) → none ≡ some m → ⊥
none-some m e = cc

module _ {C : Type 0} where
  abbrev Fails : Expected C → Type 0
  Fails (ok c) = ⊥
  Fails (err e) = Unit {0}

  Expected-cases :
      (x : Expected C) → ((c : C) × (x ≡ ok c)) ⊎ ((e : PosixIpcChannelError) × (x ≡ err e))
  Expected-cases (ok c) = inl (c, refl)
  Expected-cases (err e) = inr (e, refl)

  ok-err : (c : C) (x : PosixIpcChannelError) → ok c ≡ err x → ⊥
  ok-err c x e = cc

  ok-Fails : (x : Expected C) (c : C) → x ≡ ok c → Fails x → ⊥
  ok-Fails (ok d) c e f = f
  ok-Fails (err d) c e f = cc

  ok-here :
      (attempts : Attempts C) (n attempt : ℕ) (c d : C)
      → attempts n ≡ ok c
      → attempt ≤ n
      → ((j : ℕ) → attempt ≤ j → j < n → Fails (attempts j))
      → attempts attempt ≡ ok d
      → attempt ≡ n
  ok-here attempts n attempt c d found before fails e = elim (Bool-cases (ltb attempt n)) [
    | inl less ↦ absurd (ok-Fails _ d e (fails attempt (omega arith) (ltb→lt attempt n less)))
    | inr more ↦ ground arith
  ]

  err-here :
      (attempts : Attempts C) (n attempt : ℕ) (c : C) (x : PosixIpcChannelError)
      → attempts n ≡ ok c
      → attempts attempt ≡ err x
      → attempt ≢ n
  err-here attempts n attempt c x found e =
      λ same. absurd (ok-err c x (sym found ∙ ap attempts (sym same) ∙ e))

  retry_from-first :
      (attempts : Attempts C) (n : ℕ) (c : C) (left attempt : ℕ)
      → attempts n ≡ ok c
      → attempt ≤ n
      → ((j : ℕ) → attempt ≤ j → j < n → Fails (attempts j))
      → retry_from attempts attempt left
        ≡ (if ltb n (attempt + left) then ok c else err no_such_channel)
  unfolding retry_from
  retry_from-first attempts n c zero attempt found before fails = ground arith
  retry_from-first attempts n c (suc left) attempt found before fails =
      elim (Expected-cases (attempts attempt)) [
        | inl (d, e) ↦
            let here = ok-here attempts n attempt c d found before fails e in
            rw (e, inside n attempt left here) (sym e ∙ ap attempts here ∙ found)
        | inr (x, e) ↦
            rw (e, shifted attempt left)
              (retry_from-first attempts n c left (suc attempt) found
                (omega (arith, err-here attempts n attempt c x found e))
                (λ j from. fails j (omega arith)))
      ]

  -- createClientSocketWithRetry returns the socket of the first attempt that succeeds where that is
  -- among its fifty, and else NO_SUCH_CHANNEL.
  first_channel :
      (attempts : Attempts C) (n : ℕ) (c : C)
      → attempts n ≡ ok c
      → ((j : ℕ) → j < n → Fails (attempts j))
      → create_client_socket_with_retry attempts
        ≡ (if ltb n max_retries then ok c else err no_such_channel)
  first_channel attempts n c found fails =
      retry_from-first attempts n c max_retries 0 found (omega arith) (λ j from. fails j)

  -- One of the fifty attempts succeeds.
  abbrev pub IsOpened : Attempts C → Type 0
  IsOpened attempts = (n : ℕ) × (c : C) × (n < max_retries) × (attempts n ≡ ok c)

  retry_from-ok :
      (attempts : Attempts C) (left attempt : ℕ) (c : C)
      → retry_from attempts attempt left ≡ ok c
      → (n : ℕ) × (d : C) × (n < attempt + left) × (attempts n ≡ ok d)
  unfolding retry_from
  retry_from-ok attempts zero attempt c e = absurd (ok-err c no_such_channel (sym e))
  retry_from-ok attempts (suc left) attempt c e = elim (Expected-cases (attempts attempt)) [
    | inl (d, found) ↦ (attempt, d, omega arith, found)
    | inr (x, failed) ↦
        let later =
          ap (λ a. attempted a (retry_from attempts (suc attempt) left)) (sym failed) ∙ e in
        let (n, d, below, found) = retry_from-ok attempts left (suc attempt) c later in
        (n, d, omega arith, found)
  ]

  reply_on-some :
      (a : ServerAnswers C) (r m : String) (x : Expected C)
      → (reply_on a r x).1 ≡ some m
      → ((c : C) × (x ≡ ok c)) × (m ≡ "ack: " ++ r)
  unfolding reply_on
  reply_on-some a r m (ok c) e = ((c, refl), cc)
  reply_on-some a r m (err x) e = absurd (none-some m e)

  answer_to-some :
      (a : ServerAnswers C) (m : String) (x : Expected String)
      → (answer_to a x).1 ≡ some m
      → IsOpened a.reply_channels × (r : String) × (x ≡ ok r) × (m ≡ "ack: " ++ r)
  unfolding answer_to
  answer_to-some a m (ok r) e =
      let ((c, opened), ack) = reply_on-some a r m _ e in
      (retry_from-ok a.reply_channels max_retries 0 c opened, r, refl, ack)
  answer_to-some a m (err x) e = absurd (none-some m e)

  serve_on-some :
      (a : ServerAnswers C) (m : String) (x : Expected C)
      → (serve_on a x).1 ≡ some m
      → IsOpened a.reply_channels × (r : String) × (a.request ≡ ok r) × (m ≡ "ack: " ++ r)
  unfolding serve_on
  serve_on-some a m (ok c) e = answer_to-some a m a.request e
  serve_on-some a m (err x) e = absurd (none-some m e)

  request_on-received :
      (a : ClientAnswers C) (m : String) (x : Expected C)
      → (request_on a x).0 ≡ received m
      → ((c : C) × (x ≡ ok c)) × (a.reply ≡ ok m)
  unfolding request_on
  request_on-received a m (ok c) e = ((c, refl), ground arith)
  request_on-received a m (err x) e = ground arith

  ask_on-received :
      (a : ClientAnswers C) (m : String) (x : Expected C)
      → (ask_on a x).0 ≡ received m
      → IsOpened a.request_channels × (a.reply ≡ ok m)
  unfolding ask_on
  ask_on-received a m (ok c) e =
      let ((c', opened), reply) = request_on-received a m _ e in
      (retry_from-ok a.request_channels max_retries 0 c' opened, reply)
  ask_on-received a m (err x) e = ground arith

  client-request :
      (a : ClientAnswers C) (m : String) → (client a).1 ≡ some m → m ≡ "hello from client"
  unfolding client ask_on request_on
  client-request a m e = ground arith

module _ {C D : Type 0} where
  -- Where a socket gives out only what was sent to it: whatever the two programs' calls answer, if
  -- the client receives a reply, it is the acknowledgement of its own request, and both programs
  -- have found the other's socket within fifty attempts.
  pub client_receives :
      (s : ServerAnswers C) (a : ClientAnswers D) (m : String)
      → ((r : String) → s.request ≡ ok r → (client a).1 ≡ some r)
      → ((r : String) → a.reply ≡ ok r → (server s).1 ≡ some r)
      → (client a).0 ≡ received m
      → (m ≡ "ack: hello from client") × IsOpened a.request_channels × IsOpened s.reply_channels
  unfolding client server
  client_receives s a m requests replies e =
      let (asked, reply) = ask_on-received a m a.reply_channel e in
      let (answered, r, request, ack) = serve_on-some s m s.request_channel (replies m reply) in
      (ack ∙ ap (λ t. "ack: " ++ t) (client-request a r (requests r request)), asked, answered)
