-- ===== src/Lib.antt =====
-- hiya: the CBOR library, the CTAPHID transport, the client PIN, the one-time passwords, the
-- history of an entry, the password generator and the vault.
--
-- The program is a Linux biometric and FIDO2 service with a password manager. Its modules exchange
-- CBOR: the CTAP2 messages of the authenticator and the vault of the password manager are written
-- with src/cbor/bio_cbor_encoder.c and read with src/cbor/bio_cbor_decoder.c, and
-- src/cbor/bio_cbor_ctap2.c finds heads and items in raw memory. The CTAP2 messages come
-- over a virtual HID device: src/fido2/bio_fido2_uhid.c assembles them from reports of 64 bytes,
-- hands them to the engine and cuts the answers into reports;
-- src/fido2/bio_fido2_pin.c answers those about the PIN. The one-time passwords of
-- src/pm/pm_otp.c are codes that the vault's entries hold, src/pm/pm_history.c keeps an
-- entry's revisions, src/pm/pm_password_gen.c makes new passwords, src/pm/pm_vault_format.c
-- writes the encrypted file, and src/pm/pm_vault_store.c keeps the handle that is locked or unlocked.
--
-- Base        lists, memory, bit operations, tests on numbers; the codes of include/bio_common.h.
-- Cbor        src/cbor/bio_cbor.h: major types, limits, casts.
-- Cbor.Head   the head of an item as RFC 8949 describes it, the common specification.
-- Cbor.Tree   items as trees and their RFC 8949 bytes; Tree.Emit writes a tree with encoder calls.
-- Cbor.Encoder  `enc_write`, `enc_head`, `enc_track_item`; Encoder.Calls has the public calls
--   `bio_cbor_encode_…` without their prefix. Write and Track are about one write and one count,
--   Emitted combines them, Safe and Runs are about any calls in any order.
-- Cbor.Decoder  `dec_read`, `dec_head`, `bio_cbor_decode_next`, `bio_cbor_skip`; Decoder.Calls has
--   the typed decoders and the map searches. Read, Next, Items, Skip and Find are about encoded
--   items, Valid about arbitrary bytes.
-- Cbor.Ctap2  `bio_cbor_encode_head_raw`, `bio_cbor_decode_head_raw`,
--   `bio_cbor_item_encoded_size`; Ctap2.Sort has `bio_cbor_sort_map_ctap2`.
-- Cbor.Roundtrip  the encoder from a fresh buffer.
-- Pm.Errors   src/pm/pm_errors.h and src/pm/pm_errors.c.
-- Pm.Otp      src/pm/pm_otp.c: `hotp_truncate`, `otp_hmac`, `pm_otp_hotp_generate`,
--   `pm_otp_totp_generate`, `pm_otp_totp_remaining_seconds`; Pm.Otp.Base32 has `base32_decode`,
--   Base32.Symbol the values of the symbols.
-- Fido2.Ctaphid  src/fido2/bio_fido2_uhid.h and src/fido2/bio_fido2_uhid.c: reports, framing and
--   `alloc_channel`. Dispatch has the command handlers, Receive `process_hid_report` and the
--   rounds of `uhid_reader_thread`, Session the start and the loop. Assembly, Continuation and
--   Delivery are about one message, Slots and Table about the channels, Sound and Steps about the
--   invariant, Isolation about two channels.
-- Fido2.ClientPin  src/fido2/bio_fido2_pin.c up to `ctap2_client_pin`: the PIN state, keys and
--   a wrong PIN. Parse has `parse_client_pin_params`, Tokens the subcommands that answer with
--   attempts, keys and tokens, Commands those that change the PIN, and the `switch`. Endings and
--   Unshown are about one request without the PIN and Guess about many, Attempts and Guarded about
--   the attempts left, Unsaved about failing saves.
-- Pm.History  src/pm/pm_history.c: `pm_history_push` and `pm_history_list`; Latest relates the
--   history to the revisions pushed.
-- Pm.Password  src/pm/pm_password_gen.h and src/pm/pm_password_gen.c: policies and the random source.
--   Charset has `build_charset_string` and `pm_charset_to_string`, Check
--   `validate_password_policy`, Generate `pm_password_generate`, `pm_password_generate_best`,
--   `pm_pin_generate` and `pm_password_generate_pattern`, Report `pm_password_check_policy`.
--   Counting, Runs and Complies are about the check, Sound, Chars, Live and Best about generation,
--   Clean about the report.
-- Pm.Vault    src/pm/pm_vault_format.c: the parameters, numbers in bytes and modes, and
--   `pm_argon2id_validate_params` of src/pm/pm_kdf.c. KdfBlock has `build_kdf_block` and
--   `parse_kdf_block_metadata`, File `pm_vault_serialize`, `pm_vault_parse_metadata` and
--   `pm_vault_deserialize`. Header is about what is read back from a header, Roundtrip, Written and
--   Returned about a file that was written, Live about writing, Authentic about opening.
-- Pm.Store    src/pm/pm_vault_store.c: `pm_vault_create`, `pm_vault_open`, `pm_vault_unlock`,
--   `pm_vault_lock`, `pm_vault_save` and the payload. Locked is about a locked handle, Saved and
--   Created about the files that are written.
--
-- A context is a record, and a call returns the record that it leaves with its status or result. A
-- buffer is the list of its bytes. `size_t` and `uint64_t` have 64 bits, and sums and shifts wrap
-- as they do in C; buffers are objects in memory, so theorems take sizes below 2 ^ 63. NULL checks
-- of contexts, which touch no state, are left out; a data pointer that may be NULL is an option.
-- Floats are bit patterns. Loops recur on a count that the code bounds: `auto_pop` on the depth,
-- the skip on 17 levels less the depth, the sizes on 33 less the depth, the loop over a
-- half-precision mantissa on its ten bits; the skip and the sizes report their errors at 0, as the
-- code does at its limit.
--
-- In the transport the clock is an argument, one reading for each report; the random numbers, the
-- writes that fail and the number of keepalives are inputs, and the engine, `bio_fido2_process`,
-- is a parameter. The loop over the continuation packets recurs on the length of the message. A
-- message is dispatched as a place, the report or a channel's buffer, since `alloc_channel` may
-- clear the buffer before it is read. The events are those of the case UHID_OUTPUT and the
-- timeouts; the creation of the device, its other events and the start and stop of the threads
-- are not modelled.
--
-- In the client PIN the calls of src/crypto are a parameter without hypotheses, and what the
-- random source, the key generation, the file of credentials and the fingerprint check do in the
-- course of a request is an input. Wiped local buffers are left out. `pin_retries` is kept as the
-- 32 bits of an `int`. The rest of src/fido2, credentials and assertions, is not modelled.
--
-- In the password generator the random source gives a byte or a failure for each call; the loop over
-- the attempts recurs on their number, 1000. In the vault file the calls of src/crypto are a
-- parameter; the round trip assumes of them that opening undoes sealing, and the sizes of their
-- outputs. The loop over the parameters of the key derivation recurs on the count in the block. Where
-- a bad length makes the code read past the file, the model has no bytes there. A vault file is replaced as a whole or not at all; the
-- path is left out, and the allocations of create and save succeed.
--
-- The HMAC of Mbed TLS is a parameter, with the length of its result as a hypothesis; whether an
-- allocation succeeds is an argument, and so is `qsort`. Not modelled: the URI functions of
-- src/pm/pm_otp.c, the rest of src/pm, and the services around them, which are mostly I/O and
-- calls of other libraries.
pub mod Base
pub mod Cbor
pub mod Pm
pub mod Fido2
