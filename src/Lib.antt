-- ===== src/Lib.antt =====
-- The OATH daemon of the KRunner plugin: one-time codes from YubiKey and Nitrokey security keys.
--
-- A session (src/daemon/oath/yk_oath_session.cpp) builds commands and parses responses with a
-- protocol class (oath_protocol.cpp for both brands, yk_oath_protocol.cpp and
-- nitrokey_secrets_oath_protocol.cpp for one each) and exchanges them with a card over PC/SC. It waits
-- between operations, collects chained responses, asks the upper layers to reconnect when the card
-- was reset, and tells them when a touch is needed. A device object keeps the session, and a manager
-- the devices; D-Bus objects, notifications and the KRunner plugin stand above them.
--
-- The files:
-- - Prelude: tests, lists, bytes, decimal texts, the C++ `int`, and the record `Qt` of the functions
--   that are taken from Qt's text classes.
-- - Tlv: the loops over records of tag, length and value that every parser has, `findTlvTag`, and the
--   records as the builders write them. Tlv.Walk relates the loops to the list of records that a byte
--   array holds, Tlv.RoundTrip reads back what is written.
-- - Status: status words. Base32: decodeBase32. Credential: src/shared/types/oath_credential_data.h and
--   oath_credential.h. CredentialId: parseCredentialId, its pattern written out as functions.
-- - Command: the create...Command functions of oath_protocol.cpp, Command.Nitrokey those of
--   nitrokey_secrets_oath_protocol.cpp. Command.Apdu reads a command as a card does.
-- - Code: formatCode and both parseCode. Select: parseSelectResponse. Listing: the responses to LIST,
--   LIST v1 and CALCULATE ALL. Serial: the serial numbers of the OTP and PIV applications and of reader
--   names. Management: management_protocol.cpp.
-- - Version: src/shared/utils/version.cpp. Encoder: src/daemon/utils/credential_id_encoder.cpp.
-- - Session: yk_oath_session.cpp and nitrokey_oath_session.cpp. Session.Transport has sendApdu,
--   Session.Operations selection, codes, lists and credentials, Session.Password the password
--   operations, Session.Nitrokey the operations that differ for that brand, Session.Fetcher
--   extended_device_info_fetcher.cpp. The other children of Session have the proofs.
-- - Model: src/shared/types/yubikey_model.cpp, the model from firmware and form factor; Model.Texts has
--   its texts and device_model.cpp, Model.Ykman the output of ykman. Brand: device_brand.cpp.
-- - Device: src/daemon/oath/oath_device.cpp. Device.Lifecycle has the states, Device.Operations the
--   operations under a transaction (src/daemon/pcsc/card_transaction.cpp), Device.Fetch the update of
--   the cache with its thread, Device.Reconnect the reconnect, Device.Create the constructors of
--   yubikey_oath_device.cpp and nitrokey_oath_device.cpp. Device.Fetch.Steps lets the threads of a
--   device take steps in any order.
-- - Manager: src/daemon/oath/oath_device_manager.cpp, its two maps; Manager.Connect has the operations
--   that need PC/SC. Manager.History takes events in any order, against the view of which id is plugged
--   in at which reader (Manager.Events).
-- - Storage: src/daemon/storage/oath_database.cpp, the two tables and the statements on them.
-- - Services: src/daemon/services. Services.Devices has device_lifecycle_service.cpp,
--   Services.Passwords password_service.cpp, Services.Codes the cache of codes of
--   credential_service.cpp, and Services.Credentials the credentials that are listed and searched, with
--   src/daemon/cache/credential_cache_searcher.cpp. Names come from
--   src/shared/utils/device_name_formatter.cpp.
-- - Reconnects: src/daemon/infrastructure/device_reconnect_coordinator.cpp and
--   src/daemon/workflows/touch_handler.cpp. Credential.Display: src/shared/types/oath_credential.cpp.
-- - Touch: src/daemon/workflows/touch_workflow_coordinator.cpp, with executeActionWithNotification of
--   src/daemon/actions/oath_action_coordinator.cpp. Requests to notifications, executor and D-Bus are
--   effects in a list; a worker's result is an event of its own.
-- - Runner: calculateRelevance of src/krunner/matching/match_builder.cpp, and
--   src/krunner/actions/action_manager.cpp.
-- - Otpauth: src/daemon/utils/otpauth_uri_parser.cpp, with what QUrl and QUrlQuery read as the records
--   `Url` and `UrlText`.
-- - NitrokeyModel: src/daemon/oath/nitrokey_model_detector.cpp, with the search in a text as a record.
-- - Examples: each theorem at a concrete input.
--
-- How the code is read. A byte array is a list of numbers below 256, a text a list of code units; an
-- unsigned number keeps its wrap-around. Output parameters are a record that goes in and comes out.
-- A session is a state monad over the session's fields, the signals it has sent, and the state of
-- its surroundings; `Env` holds what the surroundings do: transmit, reconnect, clock, sleep,
-- randomness, PBKDF2, HMAC-SHA1 and hexadecimal decoding. They are parameters, and so are Qt's
-- conversions and SHA-256; what a theorem takes of them is a named hypothesis (IsDecimal of
-- QString::number, WritesHex of QByteArray::toHex). A division by zero is a value of its own in
-- what formatCode and its callers return, and where it ends the process a result of `none`. Log
-- messages are left out, and error texts are names.
--
-- Fuel. The loops over records get the length of their data, and each round takes two bytes, so it is
-- enough. The loop over chained responses runs as long as the card announces more, so it gets a bound
-- that the theorems ask to be no less than the number of parts; the retry after a reset is bounded by
-- the code itself, once.
--
-- A device is a state monad of its own, over the fields of the device and its session; PC/SC beside
-- SCardTransmit is the record `Pcsc`, the virtual functions of a session are `SessionClass`. The
-- manager's is over both maps and the record `Readers`. An operation under the card's mutex is one
-- step, and so is the end of an update; the test and the setting of the flag of updates are two, where
-- several threads start updates; connections that worker threads make are taken one after the other.
-- A map with texts for keys is an association list (Prelude.Maps).
--
-- The services keep the manager, the database and the surroundings. SQLite runs every statement, and
-- refuses what breaks a constraint of the tables; KWallet is the record `SecretStorage`, and SQL's LIKE
-- and QString::trimmed are in the record `Texts`. A worker thread of the code cache is an entry of
-- `workers` from its start to its result.
--
-- Not modelled: PC/SC polling, D-Bus, dialogs, notifications and settings, which are input and output;
-- the workflow around reconnect notifications, the lists of display records, and adding and deleting a
-- credential by the service, which are left for later; opening and migrating the database file; and
-- answers of more than the 4096 bytes that the code reads at once.
pub mod Prelude
pub mod Tlv
pub mod Status
pub mod Base32
pub mod Credential
pub mod Command
pub mod Code
pub mod CredentialId
pub mod Version
pub mod Select
pub mod Listing
pub mod Session
pub mod Encoder
pub mod Management
pub mod Serial
pub mod Model
pub mod Otpauth
pub mod NitrokeyModel
pub mod Brand
pub mod Device
pub mod Manager
pub mod Storage
pub mod Touch
pub mod Services
pub mod Runner
pub mod Reconnects
pub mod Examples
