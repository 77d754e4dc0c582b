-- ===== src/Examples/Lists.antt =====
-- Examples of the responses to SELECT, LIST and CALCULATE ALL.
use yubikey_oath_krunner.Prelude.{ℕ, ◌≡◌, refl, false, List, [], ◌∷◌, ◌++◌, map, arith}
use yubikey_oath_krunner.Prelude.Digits.{decimal}
use yubikey_oath_krunner.Prelude.Text.{codes}
use yubikey_oath_krunner.Tlv.{tlv}
use yubikey_oath_krunner.Tlv.RoundTrip.{encode}
use yubikey_oath_krunner.Status.Laws.{successful}
use yubikey_oath_krunner.Version.{no_version}
use yubikey_oath_krunner.Credential.{totp, hotp}
use yubikey_oath_krunner.Command.{algo_byte}
use yubikey_oath_krunner.Code.{text, format_code}
use yubikey_oath_krunner.Select.{SelectOut, parse_select_response, yk_parse_select_response}
use yubikey_oath_krunner.Select.Laws.{Means, parse_select-Means}
use yubikey_oath_krunner.Listing.{
  list_credential, yk_parse_calculate_all_response, credentials, faulted,
}
use yubikey_oath_krunner.Listing.Names.{list-algo_byte_swaps}
use yubikey_oath_krunner.Listing.Calculated.{
  Entry, touch, counter, code_of, records, meaning, yk_parse_calculate_all_response-entries,
  yk_parse_calculate_all_response-faults,
}
use yubikey_oath_krunner.Examples.Data.{ascii}

abbrev select_records : List (ℕ × List ℕ)
select_records = (0x79, 5 ∷ 4 ∷ 3 ∷ []) ∷ (0x71, codes "salt") ∷ (0x74, 1 ∷ 2 ∷ []) ∷ []

abbrev nothing_yet : SelectOut
nothing_yet = record {
  device_id = [];
  challenge = [];
  firmware = no_version;
  requires_password = false;
  serial_number = 0;
}

parse_select-Means_example :
    Means ascii select_records nothing_yet
      (parse_select_response ascii (successful (encode select_records)) nothing_yet)
    × Means ascii select_records nothing_yet
        (yk_parse_select_response ascii (successful (encode select_records)) nothing_yet)
parse_select-Means_example =
    parse_select-Means ascii select_records nothing_yet
      ((omega arith, omega arith), ((omega arith, omega arith), ((omega arith, omega arith), tt)))

abbrev names : List (ℕ × List ℕ)
names = (0x72, 0x21 ∷ codes "a:b") ∷ (0x71, codes "x") ∷ (0x72, 0x12 ∷ codes "c:d") ∷ []

list-algo_byte_swaps_example :
    ((list_credential ascii (algo_byte totp hotp ∷ codes "a:b")).type ≡ hotp)
    × ((list_credential ascii (algo_byte totp hotp ∷ codes "a:b")).algorithm ≡ totp)
list-algo_byte_swaps_example =
    list-algo_byte_swaps ascii totp hotp (codes "a:b") (omega arith) (omega arith)

padded : format_code ascii (6 ∷ 0 ∷ 0 ∷ 0 ∷ 9 ∷ []) 6 ≡ text (codes "000009")
unfolding format_code decimal
padded = refl

abbrev entries : List Entry
entries =
    touch (codes "a:b") []
    ∷ counter (codes "c:d") []
    ∷ code_of (codes "e:f") (6 ∷ 0 ∷ 0 ∷ 0 ∷ 9 ∷ []) (codes "000009")
    ∷ []

yk_parse_calculate_all_response-entries_example :
    yk_parse_calculate_all_response ascii 59 (successful (encode (records entries)))
    ≡ credentials (map (meaning ascii 59) entries)
yk_parse_calculate_all_response-entries_example =
    yk_parse_calculate_all_response-entries ascii 59 entries (
      ((omega arith, omega arith), (omega arith, omega arith), tt),
      (
        ((omega arith, omega arith), (omega arith, omega arith), tt),
        (((omega arith, omega arith), (omega arith, omega arith), (omega arith, padded)), tt),
      ),
    )

yk_parse_calculate_all_response-faults_example :
    yk_parse_calculate_all_response ascii 59 (
      successful (
        encode (records [])
        ++ (tlv 0x71 (codes "a") ++ (tlv 0x76 (32 ∷ 0 ∷ 0 ∷ 0 ∷ 9 ∷ []) ++ []))))
    ≡ faulted
yk_parse_calculate_all_response-faults_example =
    yk_parse_calculate_all_response-faults ascii 59 [] (codes "a") (32 ∷ 0 ∷ 0 ∷ 0 ∷ 9 ∷ []) [] tt
      (omega arith, omega arith) (omega arith, omega arith) (omega arith) (omega arith)
