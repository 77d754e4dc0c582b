-- ===== src/Session/Transport.antt =====
-- src/daemon/oath/yk_oath_session.cpp: sendApdu, updateCardHandle and setRateLimitMs.
use yubikey_oath_krunner.Prelude.{
  ℕ, zero, suc, ◌+◌, ◌-◌, Bool, true, false, List, [], ◌∷◌, ◌++◌, Option, none, some, ltb, ◌==◌,
  ◌&&◌, if◌then◌else◌, length, get_or,
}
use yubikey_oath_krunner.Status.{payload}
use yubikey_oath_krunner.Command.{create_send_remaining_command}
use yubikey_oath_krunner.Session.{
  Reply, received, failed, ready, not_ready, Env, card_reset_detected, error_occurred, Session,
  State, M, pure, ◌>>=◌, ◌>>◌, emit,
}

abbrev pub scard_w_reset_card : ℕ
scard_w_reset_card = 0x80100068

-- `elapsed` may be negative, if the clock was set back.
unfoldable pub sleep_time : ℕ → ℕ → ℕ → ℕ
sleep_time now last limit =
    if ltb now last
    then limit + (last - now)
    else if ltb (now - last) limit
    then limit - (now - last)
    else 0

unfoldable pub update_card_handle : ℕ → ℕ → Session → Session
update_card_handle handle protocol s = record s { card_handle = handle; protocol = protocol }

unfoldable pub set_rate_limit_ms : ℕ → Session → Session
set_rate_limit_ms interval s = record s { rate_limit_ms = interval }

module _ (env : Env) where
  open env use {W, transmit, reconnect, now_ms, sleep_ms}

  -- SCardTransmit on the session's card handle, by its protocol.
  unfoldable pub transmit_apdu : List ℕ → M W Reply
  transmit_apdu command s =
      let (reply, w) = transmit s.session.card_handle s.session.protocol command s.world in
      some (reply, record s { world = w })

  -- The wait before an operation, if a limit is set and there was an operation before.
  unfoldable pub rate_limit : M W (Unit {0})
  unfolding sleep_time
  rate_limit s =
      let (now, w) = now_ms s.world in
      let pause = sleep_time now s.session.last_operation_ms s.session.rate_limit_ms in
      if ltb 0 s.session.rate_limit_ms && ltb 0 s.session.last_operation_ms
      then (if ltb 0 pause
          then some (tt, record s { world = sleep_ms pause w })
          else some (tt, record s { world = w }))
      else some (tt, s)

  unfoldable pub stamp : M W (Unit {0})
  stamp s =
      let (now, w) = now_ms s.world in
      some (tt, record s { session = record (s.session) { last_operation_ms = now }; world = w })

  -- The signal `cardResetDetected` and the wait for its answer.
  unfoldable pub wait_for_reconnect : List ℕ → M W Bool
  wait_for_reconnect command s =
      let (answer, w) = reconnect command s.world in
      let t : State W = record {
        session = record (s.session) { events = card_reset_detected command ∷ s.session.events };
        world = w;
      } in
      elim answer [
        | not_ready ↦ some (false, t)
        | ready handle protocol ↦ some (
          true,
          record t { session = record (t.session) { card_handle = handle; protocol = protocol } },
        )
      ]

  -- The loop over chained responses. The argument `response` is the buffer up to its length; `none`
  -- means that the fuel ran out while the card still announced more data.
  unfoldable pub chain_loop : ℕ → List ℕ → List ℕ → M W (List ℕ)
  chain_loop zero response full s = none
  chain_loop (suc fuel) response full s =
      let n = length response in
      let sw1 = get_or response (n - 2) 0 in
      let sw2 = get_or response (n - 1) 0 in
      let full' = full ++ payload response in
      let next : Option (List ℕ × State W) = elim (transmit_apdu create_send_remaining_command s) [
        | none ↦ none
        | some (failed code, t) ↦ some (full', t)
        | some (received response', t) ↦ chain_loop fuel response' full' t
      ] in
      if ltb n 2
      then some (full, s)
      else if sw1 == 0x61
      then next
      else some (full' ++ sw1 ∷ sw2 ∷ [], s)

  -- `sendApdu` with the retries that are left: 1 for `retryCount` 0, and none for the retry itself.
  unfoldable pub send_retrying : ℕ → ℕ → List ℕ → M W (List ℕ)
  send_retrying fuel zero command s =
      if s.session.card_handle == 0
      then pure [] s
      else (do
        rate_limit
        reply ← transmit_apdu command
        stamp
        elim reply [
          | failed code ↦ emit error_occurred >> pure []
          | received response ↦ chain_loop fuel response []
        ])
          s
  send_retrying fuel (suc retries) command s =
      let again = send_retrying fuel retries command in
      if s.session.card_handle == 0
      then pure [] s
      else (do
        rate_limit
        reply ← transmit_apdu command
        stamp
        elim reply [
          | failed code ↦
              if code == scard_w_reset_card
              then (do
                reconnected ← wait_for_reconnect command
                if reconnected then again else emit error_occurred >> pure [])
              else emit error_occurred >> pure []
          | received response ↦ chain_loop fuel response []
        ])
          s

  unfoldable pub send_apdu : ℕ → List ℕ → M W (List ℕ)
  send_apdu fuel command = send_retrying fuel 1 command
