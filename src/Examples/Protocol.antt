-- ===== src/Examples/Protocol.antt =====
-- Examples of commands, codes, texts and records.
use yubikey_oath_krunner.Prelude.{ℕ, ◌≡◌, refl, true, List, [], ◌∷◌, arith, ◌%◌, ◌^◌}
use yubikey_oath_krunner.Prelude.Bytes.{be32}
use yubikey_oath_krunner.Prelude.Digits.{decimal, decimal-IsDecimal}
use yubikey_oath_krunner.Prelude.Text.{codes}
use yubikey_oath_krunner.Prelude.Int.{pos}
use yubikey_oath_krunner.Base32.{decode_base32, or_empty, decode_loop, index_of, remove_padding}
use yubikey_oath_krunner.Base32.Value.{Decodes, number32, decode_base32-valid}
use yubikey_oath_krunner.Credential.{OathCredentialData, totp, sha1}
use yubikey_oath_krunner.Command.{create_put_command}
use yubikey_oath_krunner.Command.Put.{PutCarries, put_apdu}
use yubikey_oath_krunner.Code.{format_code}
use yubikey_oath_krunner.Code.Format.{Shows, format_code-Shows}
use yubikey_oath_krunner.CredentialId.{not_colon, not_newline, parse_credential_id}
use yubikey_oath_krunner.CredentialId.Laws.{Passes, credential_id, parse-credential_id}
use yubikey_oath_krunner.Examples.Data.{ascii}

abbrev two_records : List (ℕ × List ℕ)
two_records = (0x71, 1 ∷ 2 ∷ []) ∷ (0x74, 3 ∷ []) ∷ []

-- The RFC 4226 truncation 0x50ef7f19 has the code 872921 to six digits.
format_code-Shows_example :
    Shows 6
      (be32 0x50 0xef 0x7f 0x19 % 10 ^ 6)
      (format_code ascii (6 ∷ 0x50 ∷ 0xef ∷ 0x7f ∷ 0x19 ∷ []) 6)
format_code-Shows_example =
    format_code-Shows ascii decimal-IsDecimal 6 0x50 0xef 0x7f 0x19 [] (omega arith) (omega arith)
      (omega arith) (omega arith) 6 (omega arith) (omega arith)

-- "MZXW6===" is Base32 for "foo".
decode_base32-valid_example :
    Decodes 5 (number32 0 (codes "MZXW6")) (decode_base32 ascii (codes "mzxw6==="))
unfolding remove_padding
decode_base32-valid_example = decode_base32-valid ascii (codes "mzxw6===") refl

abbrev counter_bytes : List ℕ
counter_bytes = 0 ∷ 0 ∷ 0 ∷ 0 ∷ 0 ∷ 0 ∷ 0 ∷ 1 ∷ []

abbrev sample : OathCredentialData
sample = record {
  name = codes "foo:bar";
  issuer = codes "foo";
  account = codes "bar";
  secret = codes "MZXW6";
  type = totp;
  algorithm = sha1;
  digits = pos 6;
  period = pos 30;
  counter = 0;
  require_touch = true;
}

put_apdu_example :
    PutCarries
      (codes "foo:bar")
      (decode_base32 ascii (codes "MZXW6"))
      sample
      (create_put_command ascii sample)
unfolding decode_base32 remove_padding decode_loop or_empty index_of
put_apdu_example = put_apdu ascii sample (λ none. cc) (omega arith)

foo-Passes : Passes not_colon (codes "foo")
foo-Passes = (refl, (refl, (refl, tt)))

bar-Passes : Passes not_newline (codes "bar")
bar-Passes = (refl, (refl, (refl, tt)))

parse-credential_id_example :
    parse_credential_id (credential_id (decimal 60) (codes "foo") (codes "bar")) true
    ≡ record { period = 60; issuer = codes "foo"; account = codes "bar" }
parse-credential_id_example =
    parse-credential_id (codes "foo") (codes "bar") foo-Passes (λ none. cc) bar-Passes (λ none. cc)
      decimal 60 decimal-IsDecimal (omega arith) (omega arith)
