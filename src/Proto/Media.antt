-- ===== src/Proto/Media.antt =====
-- crates/boa-proto/src/media.rs: the packets of the media plane. Bytes are numbers below 256, `u16`
-- and `u32` fields are numbers below 2 ^ 16 and 2 ^ 32. ChaCha20-Poly1305 is not in the repository:
-- it is the interface `Aead`.
pub mod Header
pub mod Sealing
pub mod Fragments
use boa_voice.Prelude.{
  ℕ, zero, suc, ◌+◌, ◌-◌, ◌/◌, ◌%◌, ◌^◌, ◌≤◌, ◌<◌, ◌≡◌, ◌&&◌, ◌||◌, Bool, true, false, not, Option,
  none, some, List, [], ◌∷◌, ◌++◌, ltb, leb, ◌==◌, if◌then◌else◌, length, get_or, take, drop,
}
use boa_voice.Prelude.Text.{Text, text, text_eq}
use boa_voice.Prelude.Bytes.{be16, from_be16, be32, from_be32}

abbrev pub magic : ℕ
magic = 0xb0a1

abbrev pub media_version : ℕ
media_version = 1

abbrev pub header_len : ℕ
header_len = 16

abbrev pub tag_len : ℕ
tag_len = 16

abbrev pub max_datagram : ℕ
max_datagram = 1200

abbrev pub max_payload : ℕ
max_payload = max_datagram - header_len - tag_len

pub data MediaKind : Type 0 where
  voice video_key video_delta keepalive desktop_audio : MediaKind

-- `MediaKind::from_u8`
unfoldable pub from_u8 : ℕ → Option MediaKind
from_u8 v =
    if v == 0
    then some voice
    else if v == 1
    then some video_key
    else if v == 2
    then some video_delta
    else if v == 3
    then some keepalive
    else if v == 4
    then some desktop_audio
    else none

-- `self.kind as u8`, by the discriminants of the enum.
unfoldable pub to_u8 : MediaKind → ℕ
to_u8 voice = 0
to_u8 video_key = 1
to_u8 video_delta = 2
to_u8 keepalive = 3
to_u8 desktop_audio = 4

unfoldable pub is_screen : MediaKind → Bool
is_screen voice = false
is_screen video_key = true
is_screen video_delta = true
is_screen keepalive = false
is_screen desktop_audio = true

unfoldable pub is_video : MediaKind → Bool
is_video voice = false
is_video video_key = true
is_video video_delta = true
is_video keepalive = false
is_video desktop_audio = false

-- `header.kind == MediaKind::Keepalive`
unfoldable pub is_keepalive : MediaKind → Bool
is_keepalive keepalive = true
is_keepalive _ = false

-- `header.kind == MediaKind::VideoKey`
unfoldable pub is_video_key : MediaKind → Bool
is_video_key video_key = true
is_video_key _ = false

abbrev pub registration_plaintext : Text
registration_plaintext = text "boavoice/register/1"

pub data MediaError : Type 0 where
  too_short : ℕ → MediaError
  bad_magic : MediaError
  bad_version : ℕ → MediaError
  bad_kind : ℕ → MediaError
  not_authentic : MediaError
  too_large : ℕ → MediaError

pub data Result {ℓ} (A : Type ℓ) : Type ℓ where
  ok : A → Result A
  err : MediaError → Result A

infixl 5 ◌>>=◌
abbrev pub ◌>>=◌ {ℓ κ} : {A : Type ℓ} {B : Type κ} → Result A → (A → Result B) → Result B
ok a >>= f = f a
err e >>= f = err e

-- `Option::ok_or`
abbrev pub ok_or {ℓ} : {A : Type ℓ} → Option A → MediaError → Result A
ok_or none e = err e
ok_or (some a) e = ok a

pub record PacketHeader : Type 0 where
  pub kind : MediaKind
  pub ssrc : ℕ
  pub seq : ℕ
  pub timestamp : ℕ

-- `PacketHeader::encode`
unfoldable pub encode : PacketHeader → List ℕ
unfolding be16 be32 to_u8
encode h =
    be16 magic ++ (media_version ∷ to_u8 h.kind ∷ (be32 h.ssrc ++ (be32 h.seq ++ be32 h.timestamp)))

-- `bytes[i]`, read only under a check of the length.
abbrev pub byte : List ℕ → ℕ → ℕ
byte bytes i = get_or bytes i 0

abbrev pub u32_at : List ℕ → ℕ → ℕ
u32_at bytes i =
    from_be32 (byte bytes i) (byte bytes (i + 1)) (byte bytes (i + 2)) (byte bytes (i + 3))

-- What `decode` builds once the four checks have passed.
abbrev pub header_of : MediaKind → List ℕ → PacketHeader
header_of kind bytes = record {
  kind = kind;
  ssrc = u32_at bytes 4;
  seq = u32_at bytes 8;
  timestamp = u32_at bytes 12;
}

-- `PacketHeader::decode`
unfoldable pub decode : List ℕ → Result PacketHeader
unfolding from_be16 from_be32 from_u8
decode bytes =
    if ltb (length bytes) header_len
    then err (too_short (length bytes))
    else if not (from_be16 (byte bytes 0) (byte bytes 1) == magic)
    then err bad_magic
    else if not (byte bytes 2 == media_version)
    then err (bad_version (byte bytes 2))
    else (do
      kind ← ok_or (from_u8 (byte bytes 3)) (bad_kind (byte bytes 3))
      ok (header_of kind bytes))

-- `PacketHeader::nonce`
unfoldable pub nonce : PacketHeader → List ℕ
unfolding be32 to_u8
nonce h = be32 h.ssrc ++ (be32 h.seq ++ (to_u8 h.kind ∷ 0 ∷ 0 ∷ 0 ∷ []))

-- ChaCha20-Poly1305: `encrypt_in_place` and `decrypt_in_place` of the crate chacha20poly1305, as
-- functions of key, nonce, associated data and buffer.
pub record Aead : Type 0 where
  pub encrypt : List ℕ → List ℕ → List ℕ → List ℕ → Option (List ℕ)
  pub decrypt : List ℕ → List ℕ → List ℕ → List ℕ → Option (List ℕ)

-- What is documented of the cipher: a buffer that fits a datagram is sealed, the tag adds 16 bytes,
-- and a sealed buffer opens to what went in, only so.
pub record IsAead (c : Aead) : Type 0 where
  pub seals :
      (key nonce aad plain : List ℕ)
      → length plain ≤ max_datagram
      → (sealed : List ℕ) × (c.encrypt key nonce aad plain ≡ some sealed)
  pub adds_tag :
      (key nonce aad plain sealed : List ℕ)
      → c.encrypt key nonce aad plain ≡ some sealed
      → length sealed ≡ length plain + tag_len
  pub opens :
      (key nonce aad plain sealed : List ℕ)
      → c.encrypt key nonce aad plain ≡ some sealed
      → c.decrypt key nonce aad sealed ≡ some plain
  pub authentic :
      (key nonce aad plain sealed : List ℕ)
      → c.decrypt key nonce aad sealed ≡ some plain
      → c.encrypt key nonce aad plain ≡ some sealed

-- `SessionKey`: the 32 bytes. The cipher that it also holds is made from them.
pub record SessionKey : Type 0 where
  pub bytes : List ℕ

-- `SessionKey::seal`: the result, and what the caller's buffer `out` holds after the call.
unfoldable pub seal :
    Aead → SessionKey → PacketHeader → List ℕ → List ℕ → Result (Unit {0}) × List ℕ
seal c key header plaintext out =
    if ltb max_datagram (length plaintext + header_len + tag_len)
    then (err (too_large (length plaintext)), out)
    else elim (c.encrypt key.bytes (nonce header) (encode header) plaintext) [
      | none ↦ (err not_authentic, encode header ++ plaintext)
      | some sealed ↦ (ok tt, encode header ++ sealed)
    ]

-- `SessionKey::open`
unfoldable pub open_datagram : Aead → SessionKey → List ℕ → Result (PacketHeader × List ℕ)
open_datagram c key datagram = do
  header ← decode datagram
  payload ←
      (if ltb (length datagram) (header_len + tag_len)
        then err (too_short (length datagram))
        else ok_or
            (c.decrypt key.bytes (nonce header) (take header_len datagram)
              (drop header_len datagram))
            not_authentic)
  ok (header, payload)

-- `SessionKey::verify_registration`, on what `open` returned.
unfoldable pub is_registration : Result (PacketHeader × List ℕ) → Bool
unfolding is_keepalive text_eq
is_registration (ok (header, payload)) =
    is_keepalive header.kind && text_eq payload registration_plaintext
is_registration (err e) = false

unfoldable pub verify_registration : Aead → SessionKey → List ℕ → Bool
verify_registration c key datagram = is_registration (open_datagram c key datagram)

abbrev pub frag_header_len : ℕ
frag_header_len = 4

abbrev pub max_video_chunk : ℕ
max_video_chunk = max_payload - frag_header_len

-- `<[T]>::chunks`: pieces of `n` elements, the last one possibly shorter. A slice of `k` elements
-- has at most `k` pieces, so `k` rounds are enough.
unfoldable pub chunks {ℓ} : {A : Type ℓ} → ℕ → ℕ → List A → List (List A)
chunks zero n xs = []
chunks (suc rounds) n [] = []
chunks (suc rounds) n (x ∷ xs) = take n (x ∷ xs) ∷ chunks rounds n (drop n (x ∷ xs))

-- `usize::div_ceil`
abbrev pub div_ceil : ℕ → ℕ → ℕ
div_ceil a b = (a + (b - 1)) / b

-- `.enumerate().map(|(index, chunk)| (index as u16, count as u16, chunk))`
unfoldable pub number_from : ℕ → ℕ → List (List ℕ) → List (ℕ × ℕ × List ℕ)
number_from index count [] = []
number_from index count (chunk ∷ rest) =
    (index % 2 ^ 16, count % 2 ^ 16, chunk) ∷ number_from (index + 1) count rest

unfoldable pub fragment : List ℕ → List (ℕ × ℕ × List ℕ)
fragment frame =
    let count = div_ceil (length frame) max_video_chunk in
    number_from 0 count (chunks (length frame) max_video_chunk frame)

-- `write_fragment`: what the buffer `out` holds after the call.
unfoldable pub write_fragment : ℕ × ℕ × List ℕ → List ℕ
unfolding be16
write_fragment (index, count, chunk) = be16 index ++ (be16 count ++ chunk)

-- `read_fragment`
unfoldable pub read_fragment : List ℕ → Option (ℕ × ℕ × List ℕ)
unfolding from_be16
read_fragment payload =
    if ltb (length payload) frag_header_len
    then none
    else let index = from_be16 (byte payload 0) (byte payload 1) in
      let count = from_be16 (byte payload 2) (byte payload 3) in
      if count == 0 || leb count index
      then none
      else some (index, count, drop frag_header_len payload)
