-- ===== src/Session/Chain.antt =====
-- `sendApdu` against a card that splits its answer.
use yubikey_oath_krunner.Prelude.{
  ℕ, zero, suc, ◌≤◌, ◌≡◌, ◌≢◌, ◌∙◌, ap, List, [], ◌∷◌, ◌++◌, append_assoc, some, arith,
}
use yubikey_oath_krunner.Status.Laws.{payload-append, two_bytes, get_or_second_last, get_or_last}
use yubikey_oath_krunner.Command.{create_send_remaining_command}
use yubikey_oath_krunner.Session.{received, failed, Env, Session, State}
use yubikey_oath_krunner.Session.Transport.{transmit_apdu, chain_loop}

module _ (env : Env) where
  open env use {W, transmit}

  -- A last answer is returned with its status word.
  chain_last :
      (fuel : ℕ) (d full : List ℕ) (sw1 sw2 : ℕ) (s : State W)
      → sw1 ≢ 0x61
      → chain_loop env (suc fuel) (d ++ sw1 ∷ sw2 ∷ []) full s
        ≡ some (full ++ (d ++ sw1 ∷ sw2 ∷ []), s)
  unfolding chain_loop
  chain_last fuel d full sw1 sw2 s ne =
      rw
        (
          two_bytes d sw1 sw2,
          get_or_second_last d sw1 sw2,
          get_or_last d sw1 sw2,
          payload-append d sw1 sw2,
        )
        (ground (arith, append_assoc full d (sw1 ∷ sw2 ∷ [])))

  -- An answer that announces more data is followed by SEND REMAINING, and its data are kept.
  chain_more :
      (fuel : ℕ) (d full response : List ℕ) (sw2 : ℕ) (s : State W) (w : W)
      → transmit s.session.card_handle s.session.protocol create_send_remaining_command s.world
        ≡ (received response, w)
      → chain_loop env (suc fuel) (d ++ 0x61 ∷ sw2 ∷ []) full s
        ≡ chain_loop env fuel response (full ++ d) (record s { world = w })
  unfolding chain_loop transmit_apdu
  chain_more fuel d full response sw2 s w e =
      rw (two_bytes d 0x61 sw2, get_or_second_last d 0x61 sw2, e) (rw (payload-append d 0x61 sw2))

  -- Where SEND REMAINING fails, what was received so far is returned, with no status word behind it.
  pub chain_failed :
      (fuel : ℕ) (d full : List ℕ) (sw2 code : ℕ) (s : State W) (w : W)
      → transmit s.session.card_handle s.session.protocol create_send_remaining_command s.world
        ≡ (failed code, w)
      → chain_loop env (suc fuel) (d ++ 0x61 ∷ sw2 ∷ []) full s
        ≡ some (full ++ d, record s { world = w })
  unfolding chain_loop transmit_apdu
  chain_failed fuel d full sw2 code s w e =
      rw (two_bytes d 0x61 sw2, get_or_second_last d 0x61 sw2, e) (rw (payload-append d 0x61 sw2))

module _ (env : Env) (handle protocol : ℕ) where
  open env use {W, transmit}

  -- The card answers with `response`, in the state `w`; asked for the rest as long as its status word
  -- begins with 0x61, it gives `whole`, in the state `w'`, after so many answers.
  pub data Chained : ℕ → List ℕ → W → List ℕ → W → Type 0 where
    last :
        {w : W} (d : List ℕ) (sw1 sw2 : ℕ)
        → sw1 ≢ 0x61
        → Chained 1 (d ++ sw1 ∷ sw2 ∷ []) w (d ++ sw1 ∷ sw2 ∷ []) w
    more :
        {n : ℕ} {w w' w'' : W} {response whole : List ℕ} (d : List ℕ) (sw2 : ℕ)
        → transmit handle protocol create_send_remaining_command w ≡ (received response, w')
        → Chained n response w' whole w''
        → Chained (suc n) (d ++ 0x61 ∷ sw2 ∷ []) w (d ++ whole) w''

  -- As `Chained`, but the exchange after so many answers fails: what the card gave until then is
  -- `whole`, without any status word.
  pub data Broken : ℕ → List ℕ → W → List ℕ → W → Type 0 where
    cut :
        {w w' : W} (d : List ℕ) (sw2 code : ℕ)
        → transmit handle protocol create_send_remaining_command w ≡ (failed code, w')
        → Broken 1 (d ++ 0x61 ∷ sw2 ∷ []) w d w'
    then_cut :
        {n : ℕ} {w w' w'' : W} {response whole : List ℕ} (d : List ℕ) (sw2 : ℕ)
        → transmit handle protocol create_send_remaining_command w ≡ (received response, w')
        → Broken n response w' whole w''
        → Broken (suc n) (d ++ 0x61 ∷ sw2 ∷ []) w (d ++ whole) w''

  pub chain_loop-Chained :
      (s : Session)
      → s.card_handle ≡ handle
      → s.protocol ≡ protocol
      → {n : ℕ} {w w' : W} {response whole : List ℕ} → Chained n response w whole w'
      → (fuel : ℕ) (full : List ℕ) → n ≤ fuel
      → chain_loop env fuel response full (record { session = s; world = w })
        ≡ some (full ++ whole, record { session = s; world = w' })
  chain_loop-Chained s at by (last d sw1 sw2 ne) zero full h = absurd (omega arith)
  chain_loop-Chained s at by (more d sw2 e c) zero full h = absurd (omega arith)
  chain_loop-Chained s at by (last d sw1 sw2 ne) (suc fuel) full h =
      chain_last env fuel d full sw1 sw2 _ ne
  chain_loop-Chained s at by (more {w'' = v} {whole = whole} d sw2 e c) (suc fuel) full h =
      chain_more env fuel d full _ sw2 _ _ (rw (at, by) e)
      ∙ chain_loop-Chained s at by c fuel (full ++ d) (omega arith)
      ∙ ap (λ bytes. some (bytes, record { session = s; world = v })) (append_assoc full d whole)

  pub chain_loop-Broken :
      (s : Session)
      → s.card_handle ≡ handle
      → s.protocol ≡ protocol
      → {n : ℕ} {w w' : W} {response whole : List ℕ} → Broken n response w whole w'
      → (fuel : ℕ) (full : List ℕ) → n ≤ fuel
      → chain_loop env fuel response full (record { session = s; world = w })
        ≡ some (full ++ whole, record { session = s; world = w' })
  chain_loop-Broken s at by (cut d sw2 code e) zero full h = absurd (omega arith)
  chain_loop-Broken s at by (then_cut d sw2 e c) zero full h = absurd (omega arith)
  chain_loop-Broken s at by (cut d sw2 code e) (suc fuel) full h =
      chain_failed env fuel d full sw2 code _ _ (rw (at, by) e)
  chain_loop-Broken s at by (then_cut {w'' = v} {whole = whole} d sw2 e c) (suc fuel) full h =
      chain_more env fuel d full _ sw2 _ _ (rw (at, by) e)
      ∙ chain_loop-Broken s at by c fuel (full ++ d) (omega arith)
      ∙ ap (λ bytes. some (bytes, record { session = s; world = v })) (append_assoc full d whole)
