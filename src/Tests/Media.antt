-- ===== src/Tests/Media.antt =====
-- Media packets at fixed inputs, crates/boa-proto/src/media.rs.
use boa_voice.Prelude.{
  ℕ, ◌+◌, ◌≡◌, refl, ◌↔◌, true, none, some, List, [], ◌∷◌, ◌++◌, arith, length, if◌then◌else◌, take,
  drop, replicate, get_or, take-append-drop,
}
use boa_voice.Prelude.Text.{text_eq, text_eq_iff}
use boa_voice.Proto.Media.{
  Aead, IsAead, SessionKey, PacketHeader, voice, keepalive, encode, decode, nonce, seal,
  open_datagram, verify_registration, registration_plaintext, ok, too_short, header_len, tag_len,
  is_registration, is_keepalive,
}
use boa_voice.Proto.Media.Header.{decode_iff, nonce_injective, decode-Reports, Reports}
use boa_voice.Proto.Media.Sealing.{open-seal, open-only_sealed, verify_registration_iff}

-- A cipher that hides nothing: it puts sixteen copies of the key's first byte in front.
abbrev tag_of : List ℕ → List ℕ
tag_of key = replicate 16 (get_or key 0 0)

abbrev pub open_cipher : Aead
open_cipher = record {
  encrypt = λ key nonce aad plain. some (tag_of key ++ plain);
  decrypt = λ key nonce aad sealed.
      if text_eq (take 16 sealed) (tag_of key) then some (drop 16 sealed) else none;
}

pub open_cipher-IsAead : IsAead open_cipher
open_cipher-IsAead = record {
  seals = λ key nonce aad plain small. (tag_of key ++ plain, refl);
  adds_tag = λ key nonce aad plain sealed e. ground (arith, e);
  opens = λ key nonce aad plain sealed e.
      ground (arith, e, (text_eq_iff (tag_of key) (tag_of key)).1 refl);
  authentic = λ key nonce aad plain sealed e.
      ground (arith, authentic_parts key sealed plain e, take-append-drop 16 sealed);
}
  where
    authentic_parts :
        (key sealed plain : List ℕ)
        → (if text_eq (take 16 sealed) (tag_of key) then some (drop 16 sealed) else none)
          ≡ some plain
        → (take 16 sealed ≡ tag_of key) × (drop 16 sealed ≡ plain)
    authentic_parts key sealed plain e = ground (arith, text_eq_iff (take 16 sealed) (tag_of key))

abbrev pub key7 : SessionKey
key7 = record { bytes = 7 ∷ [] }

abbrev spoken : PacketHeader
spoken = record { kind = voice; ssrc = 0x01020304; seq = 5; timestamp = 960 }

abbrev pub hello : PacketHeader
hello = record { kind = keepalive; ssrc = 1; seq = 0; timestamp = 0 }

-- A voice packet with two bytes of payload, under `key7`.
abbrev sealed_packet : List ℕ
sealed_packet =
    0xb0
    ∷ 0xa1
    ∷ 1
    ∷ 0
    ∷ 1
    ∷ 2
    ∷ 3
    ∷ 4
    ∷ 0
    ∷ 0
    ∷ 0
    ∷ 5
    ∷ 0
    ∷ 0
    ∷ 3
    ∷ 0xc0
    ∷ (replicate 16 7 ++ (9 ∷ 8 ∷ []))

open-seal_example :
    ((seal open_cipher key7 spoken (9 ∷ 8 ∷ []) []).0 ≡ ok tt)
    × (length (seal open_cipher key7 spoken (9 ∷ 8 ∷ []) []).1 ≡ 2 + header_len + tag_len)
    × (open_datagram open_cipher key7 (seal open_cipher key7 spoken (9 ∷ 8 ∷ []) []).1
        ≡ ok (spoken, 9 ∷ 8 ∷ []))
open-seal_example =
    open-seal open_cipher open_cipher-IsAead key7 spoken (9 ∷ 8 ∷ []) [] (omega arith)

sealed_packet_opens : open_datagram open_cipher key7 sealed_packet ≡ ok (spoken, 9 ∷ 8 ∷ [])
unfolding open_datagram decode text_eq
sealed_packet_opens = refl

open-only_sealed_example : seal open_cipher key7 spoken (9 ∷ 8 ∷ []) [] ≡ (ok tt, sealed_packet)
open-only_sealed_example =
    open-only_sealed open_cipher open_cipher-IsAead key7 sealed_packet spoken (9 ∷ 8 ∷ []) []
      (ground arith) (omega arith) sealed_packet_opens

verify_registration_iff_example : (verify_registration open_cipher key7 sealed_packet ≡ true) ↔ (
    (h : PacketHeader) × (h.kind ≡ keepalive)
    × (seal open_cipher key7 h registration_plaintext [] ≡ (ok tt, sealed_packet)))
verify_registration_iff_example =
    verify_registration_iff open_cipher open_cipher-IsAead key7 sealed_packet (ground arith)
      (omega arith)

decode_iff_example :
    (decode sealed_packet ≡ ok spoken)
    ↔ (sealed_packet ≡ encode spoken ++ drop header_len sealed_packet)
decode_iff_example = decode_iff sealed_packet spoken (ground arith)

nonce_injective_example : (spoken.ssrc ≡ 0x01020304) × (spoken.seq ≡ 5) × (spoken.kind ≡ voice)
unfolding nonce
nonce_injective_example = nonce_injective spoken (record spoken { timestamp = 0 }) refl

decode-Reports_example : Reports (1 ∷ 2 ∷ []) (too_short 2)
unfolding decode
decode-Reports_example = decode-Reports (1 ∷ 2 ∷ []) (too_short 2) refl

abbrev long_frame : List ℕ
long_frame = replicate 3000 1

abbrev pub hello_packet : List ℕ
hello_packet =
    0xb0
    ∷ 0xa1
    ∷ 1
    ∷ 3
    ∷ 0
    ∷ 0
    ∷ 0
    ∷ 1
    ∷ 0
    ∷ 0
    ∷ 0
    ∷ 0
    ∷ 0
    ∷ 0
    ∷ 0
    ∷ 0
    ∷ (replicate 16 7 ++ registration_plaintext)

pub hello_packet-verified : verify_registration open_cipher key7 hello_packet ≡ true
unfolding verify_registration open_datagram decode text_eq is_registration is_keepalive
hello_packet-verified = refl
