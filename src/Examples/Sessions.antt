-- ===== src/Examples/Sessions.antt =====
-- Examples of exchanges with a scripted card.
use yubikey_oath_krunner.Prelude.{ℕ, ◌≡◌, refl, List, [], ◌∷◌, some, arith}
use yubikey_oath_krunner.Session.{
  Reply, received, failed, ready, State, Session, card_reset_detected,
}
use yubikey_oath_krunner.Session.Transport.{scard_w_reset_card, send_apdu}
use yubikey_oath_krunner.Session.Chain.{Broken, cut, then_cut, Chained, last, more}
use yubikey_oath_krunner.Session.Send.{send_apdu-Chained, send_apdu-after_reset, send_apdu-cut}
use yubikey_oath_krunner.Examples.Data.{Script, scripted, opened, start}

abbrev first_part : List ℕ
first_part = 9 ∷ 0x61 ∷ 3 ∷ []

abbrev last_part : List ℕ
last_part = 8 ∷ 0x90 ∷ 0x00 ∷ []

abbrev two_parts : State Script
two_parts = start (received first_part ∷ received last_part ∷ []) []

-- The session after an operation at the time of the scripted clock.
abbrev used : Session
used = record opened { last_operation_ms = 5000 }

chained :
    Chained scripted 4 2 2 first_part
      (start (received last_part ∷ []) []).world
      (9 ∷ 8 ∷ 0x90 ∷ 0x00 ∷ [])
      (start [] []).world
chained = more (9 ∷ []) 3 refl (last (8 ∷ []) 0x90 0x00 (λ e. absurd (omega arith)))

-- A session that waits 50 milliseconds before its next operation.
abbrev limited : Session
limited = record opened { last_operation_ms = 4950; rate_limit_ms = 100 }

send_apdu-Chained_example :
    send_apdu scripted 3 (1 ∷ []) (record { session = limited; world = two_parts.world })
    ≡ some (
      9 ∷ 8 ∷ 0x90 ∷ 0x00 ∷ [],
      record { session = record limited { last_operation_ms = 5000 }; world = (start [] []).world },
    )
send_apdu-Chained_example =
    send_apdu-Chained scripted 3 2 (1 ∷ []) first_part (9 ∷ 8 ∷ 0x90 ∷ 0x00 ∷ []) limited
      two_parts.world (start (received last_part ∷ []) []).world (start [] []).world
      (λ e. absurd (omega arith)) refl chained (omega arith)

-- The session after a reset, with the handle 5 and protocol 1 that the reconnect gave.
abbrev renewed : Session
renewed = record used { card_handle = 5; protocol = 1; events = card_reset_detected (1 ∷ []) ∷ [] }

abbrev reset : List Reply → State Script
reset replies = start (failed scard_w_reset_card ∷ replies) (ready 5 1 ∷ [])

send_apdu-after_reset_example :
    send_apdu scripted 3 (1 ∷ []) (reset (received last_part ∷ []))
    ≡ some (last_part, record { session = renewed; world = (start [] []).world })
send_apdu-after_reset_example =
    send_apdu-after_reset scripted 3 1 (1 ∷ []) last_part last_part opened
      (reset (received last_part ∷ [])).world
      (start (received last_part ∷ []) (ready 5 1 ∷ [])).world
      (start (received last_part ∷ []) []).world (start [] []).world (start [] []).world 5 1
      (λ e. absurd (omega arith)) (λ e. absurd (omega arith)) refl refl refl
      (last (8 ∷ []) 0x90 0x00 (λ e. absurd (omega arith))) (omega arith)

-- Two parts that announce more, and then a failure.
abbrev cut_off : State Script
cut_off = start (received first_part ∷ received (8 ∷ 0x61 ∷ 1 ∷ []) ∷ failed 7 ∷ []) []

broken :
    Broken scripted 4 2 2 first_part
      (start (received (8 ∷ 0x61 ∷ 1 ∷ []) ∷ failed 7 ∷ []) []).world
      (9 ∷ 8 ∷ [])
      (start [] []).world
broken = then_cut (9 ∷ []) 3 refl (cut (8 ∷ []) 1 7 refl)

send_apdu-cut_example :
    send_apdu scripted 3 (1 ∷ []) cut_off
    ≡ some (9 ∷ 8 ∷ [], record { session = used; world = (start [] []).world })
send_apdu-cut_example =
    send_apdu-cut scripted 3 2 (1 ∷ []) first_part (9 ∷ 8 ∷ []) opened cut_off.world
      (start (received (8 ∷ 0x61 ∷ 1 ∷ []) ∷ failed 7 ∷ []) []).world (start [] []).world
      (λ e. absurd (omega arith)) refl broken (omega arith)
