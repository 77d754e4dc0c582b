-- ===== src/Select/Laws.antt =====
-- What the SELECT response tells.
use yubikey_oath_krunner.Prelude.{
  ℕ, ◌≡◌, refl, ◌∙◌, ap, Bool, false, List, [], ◌∷◌, arith, ◌==◌, ◌&&◌, ◌||◌, not, if◌then◌else◌,
  is_empty, length, All,
}
use yubikey_oath_krunner.Prelude.Text.{Qt}
use yubikey_oath_krunner.Tlv.{for_each_tlv}
use yubikey_oath_krunner.Tlv.Walk.{each, for_each_tlv-Tlvs}
use yubikey_oath_krunner.Tlv.RoundTrip.{Fits, encode, Tlvs-encode}
use yubikey_oath_krunner.Status.Laws.{successful, guards_pass}
use yubikey_oath_krunner.Command.{tag_name, tag_challenge, tag_serial_number}
use yubikey_oath_krunner.Select.{
  SelectOut, Seen, be32_of, select_body, right_justified_16, device_id_of, start_select,
  finish_select, parse_select_response, yk_parse_select_response,
}

-- The value of the last record that passes a test.
abbrev pub last_value : (ℕ → List ℕ → Bool) → List ℕ → List (ℕ × List ℕ) → List ℕ
last_value p value [] = value
last_value p value ((t, v) ∷ rs) = last_value p (if p t v then v else value) rs

abbrev pub holds_tag : ℕ → List (ℕ × List ℕ) → Bool
holds_tag tag [] = false
holds_tag tag ((t, v) ∷ rs) = t == tag || holds_tag tag rs

abbrev pub is_name : ℕ → List ℕ → Bool
is_name t v = t == tag_name

abbrev pub is_challenge : ℕ → List ℕ → Bool
is_challenge t v = t == tag_challenge

abbrev pub is_serial : ℕ → List ℕ → Bool
is_serial t v = t == tag_serial_number && length v == 4

each-name :
    (rs : List (ℕ × List ℕ)) (s : Seen)
    → (each select_body s rs).name_salt ≡ last_value is_name s.name_salt rs
each-name [] s = refl
each-name ((t, v) ∷ rs) s =
    each-name rs (select_body t v s)
    ∙ ap (λ x. last_value is_name x rs) (unfold select_body in ground arith)

each-challenge :
    (rs : List (ℕ × List ℕ)) (s : Seen)
    → (each select_body s rs).out.challenge ≡ last_value is_challenge s.out.challenge rs
each-challenge [] s = refl
each-challenge ((t, v) ∷ rs) s =
    each-challenge rs (select_body t v s)
    ∙ ap (λ x. last_value is_challenge x rs) (unfold select_body in ground arith)

each-serial :
    (rs : List (ℕ × List ℕ)) (s : Seen)
    → (each select_body s rs).serial_bytes ≡ last_value is_serial s.serial_bytes rs
each-serial [] s = refl
each-serial ((t, v) ∷ rs) s =
    each-serial rs (select_body t v s)
    ∙ ap (λ x. last_value is_serial x rs) (unfold select_body in ground arith)

each-has_challenge :
    (rs : List (ℕ × List ℕ)) (s : Seen)
    → (each select_body s rs).has_challenge ≡ (s.has_challenge || holds_tag tag_challenge rs)
unfolding select_body
each-has_challenge [] s = ground arith
each-has_challenge ((t, v) ∷ rs) s = each-has_challenge rs (select_body t v s) ∙ ground arith

each-device_id :
    (rs : List (ℕ × List ℕ)) (s : Seen) → (each select_body s rs).out.device_id ≡ s.out.device_id
each-device_id [] s = refl
each-device_id ((t, v) ∷ rs) s =
    each-device_id rs (select_body t v s) ∙ (unfold select_body in ground arith)

-- The serial number is the one in the serial bytes, if there are any.
abbrev pub serial_of : List ℕ → ℕ
serial_of bytes = if is_empty bytes then 0 else be32_of bytes

each-serial_number :
    (rs : List (ℕ × List ℕ)) (s : Seen)
    → s.out.serial_number ≡ serial_of s.serial_bytes
    → (each select_body s rs).out.serial_number ≡ serial_of (each select_body s rs).serial_bytes
unfolding select_body
each-serial_number [] s h = h
each-serial_number ((t, v) ∷ rs) s h = each-serial_number rs (select_body t v s) (step t v s h)
  where
    step :
        (t : ℕ) (v : List ℕ) (s : Seen)
        → s.out.serial_number ≡ serial_of s.serial_bytes
        → (select_body t v s).out.serial_number ≡ serial_of (select_body t v s).serial_bytes
    step t v s h = ground arith

-- The device id that a serial number and a name call for; the old one where both are missing.
abbrev pub id_of : Qt → List ℕ → List ℕ → List ℕ → List ℕ
id_of qt serial salt old =
    if not (is_empty serial)
    then right_justified_16 (qt.to_hex serial)
    else if not (is_empty salt)
    then qt.to_hex salt
    else old

-- What the records of a SELECT response mean.
pub record Means (qt : Qt) (rs : List (ℕ × List ℕ)) (out : SelectOut) (r : SelectOut × Bool)
    : Type 0 where
  pub password : r.0.requires_password ≡ holds_tag tag_challenge rs
  pub challenge : r.0.challenge ≡ last_value is_challenge out.challenge rs
  pub serial : r.0.serial_number ≡ serial_of (last_value is_serial [] rs)
  pub id :
      r.0.device_id ≡ id_of qt (last_value is_serial [] rs) (last_value is_name [] rs) out.device_id
  pub answer : r.1 ≡ not (is_empty r.0.device_id)

finish-Means :
    (qt : Qt) (rs : List (ℕ × List ℕ)) (out : SelectOut)
    → Means qt rs out (finish_select qt (each select_body (start_select out) rs))
unfolding finish_select device_id_of
finish-Means qt rs out = record {
  password = each-has_challenge rs (start_select out);
  challenge = each-challenge rs (start_select out);
  serial =
      each-serial_number rs (start_select out) refl
      ∙ ap serial_of (each-serial rs (start_select out));
  id = rw (
    each-serial rs (start_select out),
    each-name rs (start_select out),
    each-device_id rs (start_select out),
  );
  answer = refl;
}

-- On a successful response made of whole records, both parsers report a password exactly when there
-- is a challenge record, return the last challenge, take the serial number from the last serial
-- record of four bytes, and name the device by that number or else by the last name record; they
-- succeed exactly when the device has a name.
pub parse_select-Means :
    (qt : Qt) (rs : List (ℕ × List ℕ)) (out : SelectOut)
    → All Fits rs
    → Means qt rs out (parse_select_response qt (successful (encode rs)) out)
      × Means qt rs out (yk_parse_select_response qt (successful (encode rs)) out)
unfolding parse_select_response yk_parse_select_response
parse_select-Means qt rs out fits =
    (rw whole (finish-Means qt rs out), rw whole (finish-Means qt rs out))
  where
    late : List ℕ → SelectOut × Bool
    late d = finish_select qt (for_each_tlv (length d) select_body d (start_select out))

    whole :
        parse_select_response qt (successful (encode rs)) out
        ≡ finish_select qt (each select_body (start_select out) rs)
    whole =
        guards_pass (out, false) late (encode rs)
        ∙ ap (finish_select qt) (
            for_each_tlv-Tlvs select_body (length (encode rs)) (start_select out)
              (Tlvs-encode rs fits) (omega arith))
