-- ===== src/Proto/Media/Header.antt =====
-- The sixteen plaintext bytes of a packet, crates/boa-proto/src/media.rs.
use boa_voice.Prelude.{
  ℕ, zero, suc, ◌+◌, ◌≤◌, ◌<◌, ◌≡◌, refl, ◌≢◌, some, List, [], ◌∷◌, ◌++◌, arith, length, drop, sym,
  ap, ◌∙◌, ◌↔◌, subst,
}
use boa_voice.Prelude.Bytes.{
  be32, from_be16, from_be32-be32, be16-from_be16, be32-from_be32, AllBytes,
}
use boa_voice.Proto.Media.{
  MediaKind, voice, video_key, video_delta, keepalive, desktop_audio, from_u8, to_u8, PacketHeader,
  encode, decode, nonce, ok, err, header_of, byte, header_len, magic, u32_at, MediaError, too_short,
  bad_magic, bad_version, bad_kind, not_authentic, too_large,
}

pub from_u8-to_u8 : (k : MediaKind) → from_u8 (to_u8 k) ≡ some k
unfolding from_u8 to_u8
from_u8-to_u8 voice = refl
from_u8-to_u8 video_key = refl
from_u8-to_u8 video_delta = refl
from_u8-to_u8 keepalive = refl
from_u8-to_u8 desktop_audio = refl

pub to_u8-from_u8 : (v : ℕ) (k : MediaKind) → from_u8 v ≡ some k → to_u8 k ≡ v
unfolding from_u8 to_u8
to_u8-from_u8 v k h = ground arith

pub length-encode : (h : PacketHeader) → length (encode h) ≡ header_len
unfolding encode
length-encode h = refl

pub decode-encode : (h : PacketHeader) (rest : List ℕ) → decode (encode h ++ rest) ≡ ok h
unfolding encode decode
decode-encode h rest = ground (
  arith,
  from_u8-to_u8 h.kind,
  from_be32-be32 h.ssrc,
  from_be32-be32 h.seq,
  from_be32-be32 h.timestamp,
)

-- One element, and the rest behind it.
drop-cons : (bs : List ℕ) (i : ℕ) → i < length bs → drop i bs ≡ byte bs i ∷ drop (suc i) bs
drop-cons [] i h = absurd (omega arith)
drop-cons (b ∷ bs) zero h = refl
drop-cons (b ∷ bs) (suc i) h = drop-cons bs i (omega arith)

AllBytes-byte : (bs : List ℕ) (i : ℕ) → AllBytes bs → byte bs i < 0x100
AllBytes-byte [] i h = omega arith
AllBytes-byte (b ∷ bs) zero h = h.0
AllBytes-byte (b ∷ bs) (suc i) h = AllBytes-byte bs i h.1

-- Four bytes at an offset are the word there.
u32_at_lem :
    (bs : List ℕ) (i : ℕ)
    → AllBytes bs
    → i + 3 < length bs
    → drop i bs ≡ be32 (u32_at bs i) ++ drop (i + 4) bs
u32_at_lem bs i all h =
    rw
      (be32-from_be32 (byte bs i) (byte bs (i + 1)) (byte bs (i + 2)) (byte bs (i + 3))
        (AllBytes-byte bs i all) (AllBytes-byte bs (i + 1) all) (AllBytes-byte bs (i + 2) all)
        (AllBytes-byte bs (i + 3) all))
      (ground
        (arith, drop-cons bs i, drop-cons bs (i + 1), drop-cons bs (i + 2), drop-cons bs (i + 3)))

-- What the four checks of `decode` say of the first four bytes.
decode-ok_head :
    (bs : List ℕ) (h : PacketHeader)
    → decode bs ≡ ok h
    → (15 < length bs)
      × (from_be16 (byte bs 0) (byte bs 1) ≡ magic)
      × (byte bs 2 ≡ 1)
      × (to_u8 h.kind ≡ byte bs 3)
      × (h ≡ header_of h.kind bs)
unfolding decode
decode-ok_head bs h e = ground (arith, to_u8-from_u8 (byte bs 3) h.kind)

-- Two headers with the same nonce are of the same stream, sequence number and kind.
pub nonce_injective :
    (g h : PacketHeader)
    → nonce g ≡ nonce h
    → (g.ssrc ≡ h.ssrc) × (g.seq ≡ h.seq) × (g.kind ≡ h.kind)
unfolding nonce to_u8
nonce_injective g h e = ground (
  arith,
  from_be32-be32 g.ssrc,
  from_be32-be32 h.ssrc,
  from_be32-be32 g.seq,
  from_be32-be32 h.seq,
  from_u8-to_u8 g.kind,
  from_u8-to_u8 h.kind,
)

-- The first four bytes, one by one.
first_four :
    (bs : List ℕ) → 15 < length bs → bs ≡ byte bs 0 ∷ byte bs 1 ∷ byte bs 2 ∷ byte bs 3 ∷ drop 4 bs
first_four bs h = ground (arith, drop-cons bs 0, drop-cons bs 1, drop-cons bs 2, drop-cons bs 3)

fields_behind :
    (bs : List ℕ)
    → AllBytes bs
    → 15 < length bs
    → drop 4 bs ≡ be32 (u32_at bs 4) ++ (be32 (u32_at bs 8) ++ (be32 (u32_at bs 12) ++ drop 16 bs))
fields_behind bs all h =
    u32_at_lem bs 4 all (omega arith)
    ∙ ap (λ t. be32 (u32_at bs 4) ++ t)
        (u32_at_lem bs 8 all (omega arith)
          ∙ ap (λ t. be32 (u32_at bs 8) ++ t) (u32_at_lem bs 12 all (omega arith)))

encode-header_of :
    (bs : List ℕ) (k : MediaKind)
    → AllBytes bs
    → 15 < length bs
    → from_be16 (byte bs 0) (byte bs 1) ≡ magic
    → byte bs 2 ≡ 1
    → to_u8 k ≡ byte bs 3
    → bs ≡ encode (header_of k bs) ++ drop 16 bs
unfolding encode
encode-header_of bs k all long m v e =
    first_four bs long
    ∙ ground (
      arith,
      fields_behind bs all long,
      be16-from_be16 (byte bs 0) (byte bs 1) (AllBytes-byte bs 1 all),
    )

-- `decode` accepts a datagram exactly when it is the encoding of the header that it returns,
-- followed by anything.
pub decode_iff :
    (bs : List ℕ) (h : PacketHeader)
    → AllBytes bs
    → (decode bs ≡ ok h) ↔ (bs ≡ encode h ++ drop header_len bs)
decode_iff bs h all = (
  λ e.
      let (long, m, v, k, eq) = decode-ok_head bs h e in
      subst (λ g. bs ≡ encode g ++ drop 16 bs) (sym eq) (encode-header_of bs h.kind all long m v k),
  λ e. rw e (decode-encode h (drop header_len bs)),
)

-- What each refusal of `decode` says about the bytes.
abbrev pub Reports : List ℕ → MediaError → Type 0
Reports bs (too_short n) = (n ≡ length bs) × (n < header_len)
Reports bs bad_magic = (header_len ≤ length bs) × (from_be16 (byte bs 0) (byte bs 1) ≢ magic)
Reports bs (bad_version v) = (v ≡ byte bs 2) × (v ≢ 1)
Reports bs (bad_kind k) = (k ≡ byte bs 3) × (4 < k)
Reports bs not_authentic = ⊥
Reports bs (too_large n) = ⊥

-- Every refusal of `decode` names a defect that the bytes have, and no refusal is of a kind that
-- belongs to sealing.
pub decode-Reports : (bs : List ℕ) (e : MediaError) → decode bs ≡ err e → Reports bs e
unfolding decode
decode-Reports bs (too_short n) h = ground arith
decode-Reports bs bad_magic h = ground arith
decode-Reports bs (bad_version v) h = ground arith
decode-Reports bs (bad_kind k) h = ground arith
decode-Reports bs not_authentic h = ground arith
decode-Reports bs (too_large n) h = ground arith
