-- ===== src/Network/Tests.antt =====
-- Applications of the theorems on the messages of src/protocol.cpp and src/networkmessage.cpp.
use dark_global_12_x.Base.{
  ℕ, ◌≡◌, ◌+◌, ◌*◌, ◌^◌, refl, true, false, none, some, List, [], ◌∷◌, ltb, arith, if◌then◌else◌,
}
use dark_global_12_x.Network.Buffer.{Buffer, bytes_le}
use dark_global_12_x.Network.Message.{fresh, max_size}
use dark_global_12_x.Network.Fields.{
  Field, byte, u16, str, encode, encode_all, write_fields, read_fields,
}
use dark_global_12_x.Network.Fields.Read.{read_fields-write_fields}
use dark_global_12_x.Network.Output.{adler_checksum, OutputMessage}
use dark_global_12_x.Network.Output.Adler.{adler_sums, adler_checksum-adler_sums}
use dark_global_12_x.Network.Xtea.{Key, encrypt_block, decrypt_block, crypt_loop}
use dark_global_12_x.Network.Xtea.Block.{decrypt_block-encrypt_block}
use dark_global_12_x.Network.Xtea.Loop.{crypt_loop-back}
use dark_global_12_x.Network.Protocol.{Protocol, on_send_message}
use dark_global_12_x.Network.Protocol.Loopback.{Delivers, outgoing, on_recv_message-on_send_message}
use dark_global_12_x.Network.Autosend.{Pool, add_protocol_to_autosend}
use dark_global_12_x.Network.Autosend.Alive.{is_alive, begins, adds, History-alive}

abbrev login_key : Key
login_key = record { k0 = 1; k1 = 2; k2 = 3; k3 = 4 }

abbrev zeros : Buffer
zeros i = 0

abbrev say : List Field
say = byte 0xAA ∷ u16 500 ∷ str (72 ∷ 105 ∷ []) ∷ []

abbrev sender : Protocol
sender = record {
  raw_messages = false;
  encryption_enabled = true;
  checksum_enabled = true;
  compact_crypt = false;
  sequence_number = 0;
  key = login_key;
  output_buffer = none;
}

on_recv_message-on_send_message_example :
    Delivers say (on_send_message (outgoing say zeros) sender).1 sender
unfolding encode encode_all bytes_le
on_recv_message-on_send_message_example =
    on_recv_message-on_send_message say zeros sender sender
      (omega arith, (omega arith, ((omega arith, (omega arith, (omega arith, tt))), tt)))
      (λ i. omega arith) (omega arith) refl refl refl refl refl

read_fields-write_fields_example :
    let w = write_fields say (fresh zeros) in read_fields say (record w { position = 8 }) ≡ (say, w)
unfolding encode encode_all bytes_le
read_fields-write_fields_example =
    read_fields-write_fields say (fresh zeros)
      (omega arith, (omega arith, ((omega arith, (omega arith, (omega arith, tt))), tt))) refl
      (omega arith)

adler_checksum-adler_sums_example : adler_checksum (72 ∷ 105 ∷ []) ≡ (
    if ltb max_size 2
    then 0
    else (adler_sums (72 ∷ 105 ∷ []) (1, 0)).1 * 2 ^ 16 + (adler_sums (72 ∷ 105 ∷ []) (1, 0)).0)
adler_checksum-adler_sums_example =
    adler_checksum-adler_sums (72 ∷ 105 ∷ []) (omega arith, (omega arith, tt))

decrypt_block-encrypt_block_example :
    decrypt_block login_key (encrypt_block login_key (7, 4294967295)) ≡ (7, 4294967295)
decrypt_block-encrypt_block_example =
    decrypt_block-encrypt_block login_key 7 4294967295 (omega arith) (omega arith)

crypt_loop-back_example :
    crypt_loop
      (decrypt_block login_key)
      16
      6
      0
      16
      (crypt_loop (encrypt_block login_key) 16 6 0 16 zeros)
      9
    ≡ 0
crypt_loop-back_example =
    crypt_loop-back login_key 16 6 0 16 zeros (crypt_loop (encrypt_block login_key) 16 6 0 16 zeros)
      (λ i. omega arith) (λ i h. refl) 9 (omega arith)

abbrev at_six : OutputMessage
at_six = record {
  message = record { size = 16; position = 22; overrun = false; buffer = zeros };
  output_start = 6;
}

abbrev idle : Pool ℕ
idle = record { buffered_protocols = []; timers = []; sent = []; current_buffer = λ p. some p }

History-alive_example : is_alive (add_protocol_to_autosend 4 idle) ≡ true
History-alive_example =
    History-alive (add_protocol_to_autosend 4 idle) (adds 4 idle (begins (λ p. some p)))
