-- ===== src/Examples/Packets.antt =====
-- Packets of src/fl_ipc_posix.cpp, and a rendezvous and an authentication of src/runtime.
use framelink.Base.{
  ℕ, ◌+◌, ◌/◌, ◌≡◌, refl, true, false, none, some, List, [], ◌∷◌, ◌++◌, ◌==◌, if◌then◌else◌, length,
  replicate, take, drop, get_or, length-replicate, arith,
}
use framelink.Base.Bytes.{put}
use framelink.Base.Int.{pos}
use framelink.Session.{same_id}
use framelink.Ipc.{Channel, Packet, Arrival, packet, sent, send_with_fds, recv}
use framelink.Ipc.Framing.{
  delivered, Disposed, IsDelivery, recv-Disposed, IsDelivery, recv-send_with_fds,
}
use framelink.Ipc.Endpoint.{Attempt, reached, unreached, Ended, connect, connect_ends}
use framelink.Runtime.Rendezvous.{
  Endpoint, FileStat, check, open_dir, strip_slashes, normalized, DirectoryAnswers, exists, Files,
  PublishAnswers, moved, interrupted, transfer, secure_random, encode_endpoint, checked,
  decode_endpoint, finish_record, place_in, place_record, publish, close, read_endpoint,
}
use framelink.Runtime.Directory.{Published, publish-Published, read_endpoint-publish}
use framelink.Runtime.Auth.{
  proof, differences, equal, server_writes, authenticate_server, authenticate_client, auth_magic,
  server_direction, client_direction,
}
use framelink.Runtime.Handshake.{authenticate_handshake, authenticate_server_sound}

abbrev live : Channel
live = record { handle = some 4; connected = true; peer_pid = 71 }

-- A packet that was cut off, with three descriptors.
abbrev torn : Arrival
torn = record {
  count = pos 14;
  bytes = put 4 0x314B4C46 ++ (put 4 3 ++ (put 4 900 ++ 1 ∷ 2 ∷ []));
  truncated = true;
  controls =
      record { rights = true; len = 24; ints = 8 ∷ 9 ∷ [] }
      ∷ record { rights = false; len = 28; ints = 1 ∷ 2 ∷ 3 ∷ [] }
      ∷ record { rights = true; len = 20; ints = 10 ∷ [] }
      ∷ [];
}

torn-IsDelivery : IsDelivery 16 torn
torn-IsDelivery = record { counted = (λ _. refl, (λ h. cc, (λ _. refl, tt))); failed = λ h. cc }

recv-Disposed_example : Disposed (8 ∷ 9 ∷ 10 ∷ []) live torn (recv 16 live torn)
recv-Disposed_example = recv-Disposed 16 live torn torn-IsDelivery refl

abbrev sample_packet : Packet
sample_packet = packet 2 (some (10 ∷ 20 ∷ 30 ∷ 40 ∷ [])) 3 (some (5 ∷ 6 ∷ [])) 2

recv-send_with_fds_example :
    recv 16 live (delivered 16 sample_packet)
    ≡ (live, some (record { type = 2; payload = 10 ∷ 20 ∷ 30 ∷ []; fds = 5 ∷ 6 ∷ [] }), [])
unfolding send_with_fds sent packet put
recv-send_with_fds_example =
    recv-send_with_fds 16 (λ p. pos (length p.bytes)) live live live 2 3 (10 ∷ 20 ∷ 30 ∷ 40 ∷ [])
      (5 ∷ 6 ∷ []) sample_packet (omega arith) (omega arith) refl refl

-- The listener comes up in the third round.
abbrev rounds : ℕ → Attempt
rounds i = if i == 2 then reached 12 else unreached (i + 10)

connect_ends_example : Ended rounds (100 / 25 + 2) 100 [] 0 0 (connect (100 / 25 + 2) rounds 100)
connect_ends_example = connect_ends rounds 100 (omega arith)

abbrev endpoint : Endpoint
endpoint = record { port = 48000; token = 7 ∷ replicate 31 1 }

abbrev private_directory : FileStat
private_directory = record {
  known = true;
  uid = 1000;
  mode = 448;
  directory = true;
  regular = false;
  links = 2;
}

abbrev private_file : FileStat
private_file = record {
  known = true;
  uid = 1000;
  mode = 384;
  directory = false;
  regular = true;
  links = 1;
}

abbrev directory : DirectoryAnswers
directory = record { mkdir = λ path. exists; open_dir = λ path. some private_directory }

abbrev answers : PublishAnswers
answers = record {
  directory = directory;
  random_opens = true;
  random_reads = moved 16 ∷ [];
  lock = some private_file;
  locks = true;
  creates = true;
  writes = interrupted ∷ moved 20 ∷ moved 18 ∷ [];
  syncs = true;
  renames = true;
  unlinks = true;
  left = [];
}

abbrev old_files : Files
old_files = record { endpoint = some (1 ∷ 2 ∷ []); temporary = none }

abbrev run_path : List ℕ
run_path = 47 ∷ 114 ∷ 47 ∷ []

publish-Published_example :
    Published true none old_files endpoint (publish 1000 answers none old_files run_path endpoint)
publish-Published_example =
    publish-Published 1000 answers none old_files run_path endpoint (omega arith)

abbrev new_files : Files
new_files = record { endpoint = some (encode_endpoint endpoint); temporary = none }

read_endpoint-publish_example :
    (read_endpoint 1000 directory true private_file true new_files run_path ≡ (some endpoint, none))
    × ((close 1000 true private_file true true (some endpoint) new_files).1.endpoint ≡ none)
unfolding publish decode_endpoint encode_endpoint checked secure_random transfer place_record
    place_in finish_record open_dir check normalized strip_slashes same_id
read_endpoint-publish_example =
    read_endpoint-publish 1000 answers directory private_file none (some endpoint) old_files
      new_files run_path run_path endpoint (omega arith) refl refl refl

abbrev toy_hmac : List ℕ → List ℕ → List ℕ
toy_hmac key message = replicate 32 (length message)

abbrev client_nonce : List ℕ
client_nonce = replicate 32 3

abbrev server_nonce : List ℕ
server_nonce = replicate 32 5

authenticate_handshake_example :
    (said heard : List ℕ) × (authenticate_client toy_hmac endpoint 67
        (some client_nonce)
        (λ _. true)
        heard
      ≡ (none, said))
    × (authenticate_server toy_hmac endpoint 67 (some server_nonce) (λ _. true) said
        ≡ (none, heard))
authenticate_handshake_example =
    authenticate_handshake toy_hmac (λ k m. length-replicate 32 (length m)) endpoint 67 client_nonce
      server_nonce refl refl refl

abbrev from_client : List ℕ
from_client = auth_magic ++ 67 ∷ client_nonce ++ replicate 32 74

abbrev from_server : List ℕ
from_server = server_nonce ++ replicate 32 74 ++ 1 ∷ []

authenticate_server_sound_example :
    (take 8 from_client ≡ auth_magic)
    × (get_or from_client 8 0 ≡ 67)
    × (take 32 (drop 41 from_client)
        ≡ proof toy_hmac endpoint client_direction 67 client_nonce server_nonce)
    × (from_server
        ≡ server_nonce
          ++ proof toy_hmac endpoint server_direction 67 client_nonce server_nonce
          ++ 1 ∷ [])
unfolding authenticate_server server_writes proof equal differences same_id
authenticate_server_sound_example =
    authenticate_server_sound toy_hmac (λ k m. length-replicate 32 (length m)) endpoint 67
      server_nonce (λ _. true) from_client from_server refl
