-- ===== src/Session/Reselect.antt =====
-- Which application is selected, and what is known, after the fetcher's strategies.
use yubikey_oath_krunner.Prelude.{
  ℕ, Bool, ◌≡◌, ◌≢◌, refl, ◌∙◌, true, false, List, ◌∷◌, some, arith, ◌==◌,
}
use yubikey_oath_krunner.Prelude.Bytes.{be32}
use yubikey_oath_krunner.Prelude.Text.{Qt}
use yubikey_oath_krunner.Status.{get_status_word, is_success}
use yubikey_oath_krunner.Status.Laws.{
  successful, successful-status, payload-append, not_empty, get_status_word-append,
}
use yubikey_oath_krunner.Command.{
  create_select_command, create_select_otp_command, create_otp_get_serial_command,
  create_select_piv_command,
}
use yubikey_oath_krunner.Select.{SelectOut, parse_select_response, yk_parse_select_response}
use yubikey_oath_krunner.Management.{create_select_management_command}
use yubikey_oath_krunner.Serial.{parse_reader_name_info}
use yubikey_oath_krunner.Serial.Found.{serial_response}
use yubikey_oath_krunner.Session.{Env, State, device_info_failed, error}
use yubikey_oath_krunner.Session.Bind.{bind-some}
use yubikey_oath_krunner.Session.Transport.{send_apdu}
use yubikey_oath_krunner.Session.Fetcher.{
  ExtendedDeviceInfo, no_device_info, no_select, accepted, with_serial, as_neo, try_management_api,
  try_otp_api, try_piv_api, try_oath_select_only, fallbacks, get_extended_device_info,
}

accepted-successful : (d : List ℕ) → accepted (successful d) ≡ true
accepted-successful d =
    rw (not_empty (successful d) (get_status_word-append d 0x90 0x00), successful-status d) refl

-- For a YubiKey NEO by its reader's name, the OTP strategy ends with the answer to GET SERIAL: no
-- command follows that selects OATH again, so the card's OTP application stays selected.
pub try_otp_api-stays :
    (env : Env) (fuel : ℕ) (parse : List ℕ → SelectOut → SelectOut × Bool) (reader_name : List ℕ)
    (info : ExtendedDeviceInfo) (b0 b1 b2 b3 : ℕ) (selected rest : List ℕ) (s t u : State env.W)
    → (parse_reader_name_info reader_name).valid ≡ true
    → (parse_reader_name_info reader_name).is_neo ≡ true
    → send_apdu env fuel create_select_otp_command s ≡ some (selected, t)
    → accepted selected ≡ true
    → send_apdu env fuel create_otp_get_serial_command t
      ≡ some (successful (b0 ∷ b1 ∷ b2 ∷ b3 ∷ rest), u)
    → try_otp_api env fuel parse reader_name info s
      ≡ some (
        (as_neo (parse_reader_name_info reader_name) (with_serial (be32 b0 b1 b2 b3) info), true),
        u,
      )
unfolding try_otp_api
try_otp_api-stays env fuel parse reader_name info b0 b1 b2 b3 selected rest s t u valid neo e ok r =
    bind-some (send_apdu env fuel _) _ s t selected e
    ∙ rw ok (
        bind-some (send_apdu env fuel _) _ t u _ r
        ∙ rw ((serial_response b0 b1 b2 b3 0 rest).0, valid, neo) refl)

-- Data that do not end like a status word of success are no response to the parsers.
refused :
    (qt : Qt) (d : List ℕ) (out : SelectOut)
    → get_status_word d ≢ 0x9000
    → ((parse_select_response qt d out).1 ≡ false) × ((yk_parse_select_response qt d out).1 ≡ false)
unfolding parse_select_response yk_parse_select_response is_success
refused qt d out h = (ground arith, ground arith)

-- The last strategy hands the parser the response without its status word, so it fails unless the
-- data themselves end like a status word of success.
select_only-fails :
    (env : Env) (qt : Qt) (fuel : ℕ) (info : ExtendedDeviceInfo) (d : List ℕ) (s t : State env.W)
    → send_apdu env fuel create_select_command s ≡ some (successful d, t)
    → get_status_word d ≢ 0x9000
    → try_oath_select_only env fuel (yk_parse_select_response qt) info s ≡ some ((info, false), t)
unfolding try_oath_select_only
select_only-fails env qt fuel info d s t e h =
    bind-some (send_apdu env fuel _) _ s t _ e
    ∙ rw (accepted-successful d, payload-append d 0x90 0x00)
        (rw ((refused qt d no_select h).1) refl)

-- A strategy whose application cannot be selected changes nothing.
module _ (env : Env) (fuel : ℕ) (parse : List ℕ → SelectOut → SelectOut × Bool)
    (info : ExtendedDeviceInfo) (response : List ℕ) (s t : State env.W)
    (refusal : accepted response ≡ false) where
  management-fails :
      send_apdu env fuel create_select_management_command s ≡ some (response, t)
      → try_management_api env fuel parse info s ≡ some ((info, false), t)
  unfolding try_management_api
  management-fails e = bind-some (send_apdu env fuel _) _ s t _ e ∙ rw refusal refl

  otp-fails :
      (reader_name : List ℕ)
      → send_apdu env fuel create_select_otp_command s ≡ some (response, t)
      → try_otp_api env fuel parse reader_name info s ≡ some ((info, false), t)
  unfolding try_otp_api
  otp-fails reader_name e = bind-some (send_apdu env fuel _) _ s t _ e ∙ rw refusal refl

  piv-fails :
      send_apdu env fuel create_select_piv_command s ≡ some (response, t)
      → try_piv_api env fuel parse info s ≡ some ((info, false), t)
  unfolding try_piv_api
  piv-fails e = bind-some (send_apdu env fuel _) _ s t _ e ∙ rw refusal refl

module _ (env : Env) (qt : Qt) (fuel : ℕ) (reader_name d r1 r2 r3 : List ℕ)
    (s s1 s2 s3 s4 : State env.W) (n2 : accepted r2 ≡ false) (n3 : accepted r3 ≡ false)
    (e2 : send_apdu env fuel create_select_otp_command s1 ≡ some (r2, s2))
    (e3 : send_apdu env fuel create_select_piv_command s2 ≡ some (r3, s3))
    (e4 : send_apdu env fuel create_select_command s3 ≡ some (successful d, s4))
    (h : get_status_word d ≢ 0x9000) where
  fallbacks-fail :
      fallbacks env fuel (yk_parse_select_response qt) reader_name no_device_info s1
      ≡ some (error device_info_failed, s4)
  unfolding fallbacks
  fallbacks-fail =
      let parse : List ℕ → SelectOut → SelectOut × Bool = yk_parse_select_response qt in
      bind-some (try_otp_api env fuel parse reader_name no_device_info) _ s1 s2 _
        (otp-fails env fuel parse no_device_info r2 s1 s2 n2 reader_name e2)
      ∙ bind-some (try_piv_api env fuel parse no_device_info) _ s2 s3 _
          (piv-fails env fuel parse no_device_info r3 s2 s3 n3 e3)
      ∙ bind-some (try_oath_select_only env fuel parse no_device_info) _ s3 s4 _
          (select_only-fails env qt fuel no_device_info d s3 s4 e4 h)

  -- A YubiKey whose management, OTP and PIV applications cannot be selected gives no information at
  -- all: SELECT of OATH is answered with success and data, and still the fetch ends with an error, if
  -- the session knows no serial number and the data do not themselves end with 0x9000.
  pub get_extended_device_info-fails :
      s.session.select_serial_number ≡ 0
      → accepted r1 ≡ false
      → send_apdu env fuel create_select_management_command s ≡ some (r1, s1)
      → get_extended_device_info env fuel (yk_parse_select_response qt) reader_name s
        ≡ some (error device_info_failed, s4)
  unfolding get_extended_device_info
  get_extended_device_info-fails none n1 e1 =
      let parse : List ℕ → SelectOut → SelectOut × Bool = yk_parse_select_response qt in
      let start : ExtendedDeviceInfo = with_serial s.session.select_serial_number no_device_info in
      let test : (s.session.select_serial_number == 0) ≡ true = ground arith in
      bind-some (try_management_api env fuel parse start) _ s s1 _
        (management-fails env fuel parse start r1 s s1 n1 e1)
      ∙ rw test fallbacks-fail
