-- ===== src/Codec/Legacy/Versions.antt =====
-- The codecs of codec (v1), whose files client_crypto_codec.go, server_crypto_codec.go,
-- client_gob_codec.go and server_gob_codec.go have the methods of v2/codec word for word; and the
-- connections between the two versions.
pub mod Calls
use rpc.Base.{◌≡◌, Bytes, Option, Result, ok, err}
use rpc.Errors.{GoError}
use rpc.Codec.Crypto.{Aead}
use rpc.Codec.Output.{Written}
use rpc.Codec.Legacy.{
  Gob, Marshaller, LegacyCodec, read_header, read_gob_body, write_gob_request, write_gob_response,
  write_sealed, write_sealed_response, read_sealed_request, read_sealed_response,
}
use rpc.Codec.Legacy.Channel.{Message, Channel}

pub data Version : Type 0 where
  v1 v2 : Version

module _ {E D H V : Type 0} (g : Gob E D H Bytes) (m : Marshaller V) (crypto : Aead) where
  abbrev Writes : Type 0
  Writes =
      (Bytes → Written)
      → H
      → V
      → Bytes
      → Option GoError
      → LegacyCodec E D
      → Option GoError × LegacyCodec E D

  -- cryptoClientCodec.WriteRequest of v1
  abbrev write_crypto_request_v1 : Writes
  write_crypto_request_v1 write h v nonce flushing c =
      write_sealed g m crypto write h v nonce flushing c

  -- cryptoServerCodec.ReadRequestHeader of v1
  abbrev read_crypto_header_v1 : LegacyCodec E D → Result GoError H × LegacyCodec E D
  read_crypto_header_v1 c = read_header g c

  -- cryptoServerCodec.ReadRequestBody of v1
  abbrev read_crypto_request_v1 : LegacyCodec E D → Result GoError V × LegacyCodec E D
  read_crypto_request_v1 c = read_sealed_request g m crypto c

  -- cryptoServerCodec.WriteResponse of v1
  abbrev write_crypto_response_v1 : Option GoError → Writes
  write_crypto_response_v1 closing write h v nonce flushing c =
      write_sealed_response g m crypto write h v nonce flushing closing c

  -- cryptoClientCodec.ReadResponseBody of v1
  abbrev read_crypto_response_v1 : LegacyCodec E D → Result GoError V × LegacyCodec E D
  read_crypto_response_v1 c = read_sealed_response g m crypto c

  -- The methods of a version.
  abbrev write_request : Version → Writes
  write_request v1 = write_crypto_request_v1
  write_request v2 = write_sealed g m crypto

  abbrev write_response : Version → Option GoError → Writes
  write_response v1 closing write h v nonce flushing c =
      write_crypto_response_v1 closing write h v nonce flushing c
  write_response v2 closing write h v nonce flushing c =
      write_sealed_response g m crypto write h v nonce flushing closing c

  abbrev read_crypto_header : Version → LegacyCodec E D → Result GoError H × LegacyCodec E D
  read_crypto_header v1 = read_crypto_header_v1
  read_crypto_header v2 = read_header g

  abbrev read_request : Version → LegacyCodec E D → Result GoError V × LegacyCodec E D
  read_request v1 = read_crypto_request_v1
  read_request v2 = read_sealed_request g m crypto

  abbrev read_response : Version → LegacyCodec E D → Result GoError V × LegacyCodec E D
  read_response v1 = read_crypto_response_v1
  read_response v2 = read_sealed_response g m crypto

  -- Requests from a crypto client of one version to a server of another, and responses back.
  abbrev pub crypto_requests : Version → Version → (Bytes → Written) → Channel E D H V
  crypto_requests from to write = record {
    write = λ msg c. write_request from write msg.header msg.body msg.nonce msg.flushing c;
    read_head = λ c. read_crypto_header to c;
    read_rest = λ c. read_request to c;
  }

  abbrev pub crypto_responses :
      Version → Version → (Bytes → Written) → Option GoError → Channel E D H V
  crypto_responses from to write closing = record {
    write = λ msg c. write_response from closing write msg.header msg.body msg.nonce msg.flushing c;
    read_head = λ c. read_crypto_header to c;
    read_rest = λ c. read_response to c;
  }

module _ {E D H B : Type 0} (g : Gob E D H B) where
  -- gobClientCodec.WriteRequest of v1
  abbrev write_gob_request_v1 :
      H → B → Option GoError → LegacyCodec E D → Option GoError × LegacyCodec E D
  write_gob_request_v1 h b flushing c = write_gob_request g h b flushing c

  -- gobServerCodec.ReadRequestHeader of v1, and the other Read methods of the gob codecs
  abbrev read_gob_header_v1 : LegacyCodec E D → Result GoError H × LegacyCodec E D
  read_gob_header_v1 c = read_header g c

  abbrev read_gob_body_v1 : LegacyCodec E D → Result GoError B × LegacyCodec E D
  read_gob_body_v1 c = read_gob_body g c

  -- gobServerCodec.WriteResponse of v1
  abbrev write_gob_response_v1 :
      H → B → Option GoError → Option GoError → LegacyCodec E D → Option GoError × LegacyCodec E D
  write_gob_response_v1 h b flushing closing c = write_gob_response g h b flushing closing c

  abbrev send_gob_request :
      Version → H → B → Option GoError → LegacyCodec E D → Option GoError × LegacyCodec E D
  send_gob_request v1 = write_gob_request_v1
  send_gob_request v2 = write_gob_request g

  abbrev send_gob_response :
      Version
      → H
      → B
      → Option GoError
      → Option GoError
      → LegacyCodec E D
      → Option GoError × LegacyCodec E D
  send_gob_response v1 = write_gob_response_v1
  send_gob_response v2 = write_gob_response g

  abbrev receive_header : Version → LegacyCodec E D → Result GoError H × LegacyCodec E D
  receive_header v1 = read_gob_header_v1
  receive_header v2 = read_header g

  abbrev receive_body : Version → LegacyCodec E D → Result GoError B × LegacyCodec E D
  receive_body v1 = read_gob_body_v1
  receive_body v2 = read_gob_body g

  -- Requests and responses between the gob codecs of the versions.
  abbrev pub gob_requests : Version → Version → Channel E D H B
  gob_requests from to = record {
    write = λ msg c. send_gob_request from msg.header msg.body msg.flushing c;
    read_head = λ c. receive_header to c;
    read_rest = λ c. receive_body to c;
  }

  abbrev pub gob_responses : Version → Version → Option GoError → Channel E D H B
  gob_responses from to closing = record {
    write = λ msg c. send_gob_response from msg.header msg.body msg.flushing closing c;
    read_head = λ c. receive_header to c;
    read_rest = λ c. receive_body to c;
  }
