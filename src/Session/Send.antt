-- ===== src/Session/Send.antt =====
-- `sendApdu` as a whole: chained answers, a lost answer, and a card that was reset.
use yubikey_oath_krunner.Prelude.{
  ℕ, zero, suc, ◌≤◌, ◌≡◌, ◌≢◌, refl, ◌∙◌, false, List, [], ◌∷◌, some, arith, ◌==◌, ltb, ◌&&◌, ◌+◌,
  ◌-◌, if◌then◌else◌,
}
use yubikey_oath_krunner.Session.{
  received, failed, ready, Env, card_reset_detected, error_occurred, Session, State,
}
use yubikey_oath_krunner.Session.Transport.{
  scard_w_reset_card, transmit_apdu, rate_limit, sleep_time, stamp, wait_for_reconnect, chain_loop,
  send_retrying, send_apdu,
}
use yubikey_oath_krunner.Session.Chain.{Chained, chain_loop-Chained, Broken, chain_loop-Broken}

-- The world after the wait of the rate limit: until the limit has passed since the last operation, where
-- a limit is set and there was an operation before.
abbrev pub paused : (env : Env) → Session → env.W → env.W
paused env s w =
    let (now, w') = env.now_ms w in
    let due = s.last_operation_ms + s.rate_limit_ms in
    if ltb 0 s.rate_limit_ms && ltb 0 s.last_operation_ms
    then (if ltb now due then env.sleep_ms (due - now) w' else w')
    else w

sleep_time-due :
    (now last limit : ℕ)
    → (sleep_time now last limit ≡ last + limit - now)
      × (ltb 0 (sleep_time now last limit) ≡ ltb now (last + limit))
unfolding sleep_time
sleep_time-due now last limit = ground arith

-- The session after a first try at the time `now`, the signal that the card was reset, and the
-- answer to it.
abbrev pub reset_to : Session → ℕ → List ℕ → ℕ → ℕ → Session
reset_to s now command handle protocol = record s {
  card_handle = handle;
  protocol = protocol;
  last_operation_ms = now;
  events = card_reset_detected command ∷ s.events;
}

module _ (env : Env) (fuel : ℕ) (command : List ℕ) (s : Session) where
  open env use {W, transmit, reconnect, now_ms}

  abbrev pub in_world : Session → W → State W
  in_world s w = record { session = s; world = w }

  -- The session with the time of its last operation.
  abbrev pub stamped : Session → ℕ → Session
  stamped s now = record s { last_operation_ms = now }

  -- The session after the signal that the card was reset and the answer to it.
  abbrev pub reconnected : Session → ℕ → ℕ → Session
  reconnected s handle protocol = record s {
    card_handle = handle;
    protocol = protocol;
    events = card_reset_detected command ∷ s.events;
  }

  limited : (w : W) → rate_limit env (in_world s w) ≡ some (tt, in_world s (paused env s w))
  unfolding rate_limit
  limited w = ground (arith, sleep_time-due (now_ms w).0 s.last_operation_ms s.rate_limit_ms)

  is_open : s.card_handle ≢ 0 → (s.card_handle == 0) ≡ false
  is_open open_handle = ground arith

  -- An answer is the start of a chain, whichever try it is.
  send_received :
      (retries : ℕ) (w w' : W) (response : List ℕ)
      → s.card_handle ≢ 0
      → transmit s.card_handle s.protocol command (paused env s w) ≡ (received response, w')
      → send_retrying env fuel retries command (in_world s w)
        ≡ chain_loop env fuel response [] (in_world (stamped s (now_ms w').0) (now_ms w').1)
  unfolding send_retrying transmit_apdu stamp
  send_received zero w w' response open_handle e = ground (arith, is_open open_handle, limited w, e)
  send_received (suc retries) w w' response open_handle e =
      ground (arith, is_open open_handle, limited w, e)

  -- A reset that the upper layers repair leads to the same command on the new handle.
  send_reset :
      (retries : ℕ) (w w' w'' : W) (handle protocol : ℕ)
      → s.card_handle ≢ 0
      → transmit s.card_handle s.protocol command (paused env s w) ≡ (failed scard_w_reset_card, w')
      → reconnect command (now_ms w').1 ≡ (ready handle protocol, w'')
      → send_retrying env fuel (suc retries) command (in_world s w)
        ≡ send_retrying env fuel retries command
            (in_world (reconnected (stamped s (now_ms w').0) handle protocol) w'')
  unfolding send_retrying transmit_apdu stamp wait_for_reconnect
  send_reset retries w w' w'' handle protocol open_handle e r =
      ground (arith, is_open open_handle, limited w, e, r)

  -- Without a retry left, a failure is reported and nothing is returned.
  send_lost :
      (w w' : W) (code : ℕ)
      → s.card_handle ≢ 0
      → transmit s.card_handle s.protocol command (paused env s w) ≡ (failed code, w')
      → send_retrying env fuel 0 command (in_world s w)
        ≡ some (
          [],
          in_world
              (record (stamped s (now_ms w').0) { events = error_occurred ∷ s.events })
              (now_ms w').1,
        )
  unfolding send_retrying transmit_apdu stamp
  send_lost w w' code open_handle e = ground (arith, is_open open_handle, limited w, e)

-- A card whose answer comes in so many parts, each but the last announcing more by 0x61, has its
-- data returned as one response with the last status word, after the wait of the rate limit and if the
-- rounds are enough; no signal is sent and only the time of the last operation changes.
pub send_apdu-Chained :
    (env : Env) (fuel n : ℕ) (command response whole : List ℕ) (s : Session) (w w' w'' : env.W)
    → s.card_handle ≢ 0
    → env.transmit s.card_handle s.protocol command (paused env s w) ≡ (received response, w')
    → Chained env s.card_handle s.protocol n response (env.now_ms w').1 whole w''
    → n ≤ fuel
    → send_apdu env fuel command (record { session = s; world = w })
      ≡ some (
        whole,
        record { session = record s { last_operation_ms = (env.now_ms w').0 }; world = w'' },
      )
unfolding send_apdu
send_apdu-Chained env fuel n command response whole s w w' w'' open_handle e c enough =
    send_received env fuel command s 1 w w' response open_handle e
    ∙ chain_loop-Chained env s.card_handle s.protocol _ refl refl c fuel [] enough

-- After a reset of the card that the upper layers repair with a new handle and protocol, the command is
-- sent once more, with these and again after the wait of the rate limit, and the whole of the chained
-- answer to it is returned, if the rounds are enough; the one signal is that of the reset.
pub send_apdu-after_reset :
    (env : Env) (fuel n : ℕ) (command response whole : List ℕ) (s : Session) (w w' v v' v'' : env.W)
    (handle protocol : ℕ)
    → s.card_handle ≢ 0
    → handle ≢ 0
    → env.transmit s.card_handle s.protocol command (paused env s w)
      ≡ (failed scard_w_reset_card, w')
    → env.reconnect command (env.now_ms w').1 ≡ (ready handle protocol, v)
    → env.transmit handle protocol command
        (paused env (reset_to s (env.now_ms w').0 command handle protocol) v)
      ≡ (received response, v')
    → Chained env handle protocol n response (env.now_ms v').1 whole v''
    → n ≤ fuel
    → send_apdu env fuel command (record { session = s; world = w })
      ≡ some (
        whole,
        record {
          session = record s {
            card_handle = handle;
            protocol = protocol;
            last_operation_ms = (env.now_ms v').0;
            events = card_reset_detected command ∷ s.events;
          };
          world = v'';
        },
      )
unfolding send_apdu
send_apdu-after_reset env fuel n command response whole s w w' v v' v'' handle protocol old new e r
      e' c enough =
    send_reset env fuel command s 0 w w' v handle protocol old e r
    ∙ send_received env fuel command _ 0 v v' response new e'
    ∙ chain_loop-Chained env handle protocol _ refl refl c fuel [] enough

-- A second failure, whatever its code, ends the operation: nothing is returned and the signals are
-- that of the reset and then that of an error. So there is one retry at most.
pub send_apdu-second_failure :
    (env : Env) (fuel code : ℕ) (command : List ℕ) (s : Session) (w w' v v' : env.W)
    (handle protocol : ℕ)
    → s.card_handle ≢ 0
    → handle ≢ 0
    → env.transmit s.card_handle s.protocol command (paused env s w)
      ≡ (failed scard_w_reset_card, w')
    → env.reconnect command (env.now_ms w').1 ≡ (ready handle protocol, v)
    → env.transmit handle protocol command
        (paused env (reset_to s (env.now_ms w').0 command handle protocol) v)
      ≡ (failed code, v')
    → send_apdu env fuel command (record { session = s; world = w })
      ≡ some (
        [],
        record {
          session = record s {
            card_handle = handle;
            protocol = protocol;
            last_operation_ms = (env.now_ms v').0;
            events = error_occurred ∷ card_reset_detected command ∷ s.events;
          };
          world = (env.now_ms v').1;
        },
      )
unfolding send_apdu
send_apdu-second_failure env fuel code command s w w' v v' handle protocol old new e r e' =
    send_reset env fuel command s 0 w w' v handle protocol old e r
    ∙ send_lost env fuel command _ v v' code new e'

-- If the card answers in parts that announce more and an exchange for the next part fails, after however
-- many of them, the data received so far are returned with no status word behind them, and no error is
-- signalled.
pub send_apdu-cut :
    (env : Env) (fuel n : ℕ) (command response whole : List ℕ) (s : Session) (w w' w'' : env.W)
    → s.card_handle ≢ 0
    → env.transmit s.card_handle s.protocol command (paused env s w) ≡ (received response, w')
    → Broken env s.card_handle s.protocol n response (env.now_ms w').1 whole w''
    → n ≤ fuel
    → send_apdu env fuel command (record { session = s; world = w })
      ≡ some (
        whole,
        record { session = record s { last_operation_ms = (env.now_ms w').0 }; world = w'' },
      )
unfolding send_apdu
send_apdu-cut env fuel n command response whole s w w' w'' open_handle e c enough =
    send_received env fuel command s 1 w w' response open_handle e
    ∙ chain_loop-Broken env s.card_handle s.protocol _ refl refl c fuel [] enough
