-- ===== src/Proto/Media/Sealing.antt =====
-- Sealing and opening, crates/boa-proto/src/media.rs, over any cipher that keeps what is
-- documented of ChaCha20-Poly1305.
use boa_voice.Prelude.{
  ℕ, ◌+◌, ◌≤◌, ◌<◌, ◌≡◌, refl, ◌↔◌, true, some, List, [], ◌++◌, arith, length, length-append, take,
  drop, and_parts, sym, ap, ◌∙◌, subst,
}
use boa_voice.Prelude.Text.{text_eq, text_eq_iff}
use boa_voice.Prelude.Bytes.{AllBytes}
use boa_voice.Proto.Media.{
  Aead, IsAead, SessionKey, PacketHeader, encode, decode, nonce, seal, open_datagram,
  verify_registration, is_registration, MediaKind, keepalive, registration_plaintext, is_keepalive,
  Result, ok, err, too_large, header_len, tag_len, max_datagram, max_payload,
}
use boa_voice.Proto.Media.Header.{decode-encode, decode_iff, length-encode}

take-encode : (h : PacketHeader) (rest : List ℕ) → take header_len (encode h ++ rest) ≡ encode h
unfolding encode
take-encode h rest = refl

drop-encode : (h : PacketHeader) (rest : List ℕ) → drop header_len (encode h ++ rest) ≡ rest
unfolding encode
drop-encode h rest = refl

-- Opening a header followed by any sealed payload asks the cipher, with the header as associated
-- data.
open-encode :
    (c : Aead) (key : SessionKey) (h : PacketHeader) (sealed : List ℕ)
    → tag_len ≤ length sealed
    → (plain : List ℕ) → c.decrypt key.bytes (nonce h) (encode h) sealed ≡ some plain
    → open_datagram c key (encode h ++ sealed) ≡ ok (h, plain)
unfolding open_datagram
open-encode c key h sealed long plain e =
    rw
      (
        decode-encode h sealed,
        take-encode h sealed,
        drop-encode h sealed,
        e,
        length-append (encode h) sealed,
        length-encode h,
      )
      (ground arith)

is_keepalive→eq : (k : MediaKind) → is_keepalive k ≡ true → k ≡ keepalive
unfolding is_keepalive
is_keepalive→eq keepalive e = refl
is_keepalive→eq _ e = cc

is_registration_parts :
    (r : Result (PacketHeader × List ℕ))
    → is_registration r ≡ true
    → (h : PacketHeader) × (h.kind ≡ keepalive) × (r ≡ ok (h, registration_plaintext))
unfolding is_registration
is_registration_parts (ok (h, p)) v =
    let (k, t) = and_parts (is_keepalive h.kind) (text_eq p registration_plaintext) v in
    (h, is_keepalive→eq h.kind k, ap (λ q. ok (h, q)) ((text_eq_iff p registration_plaintext).0 t))
is_registration_parts (err e) v = cc

is_registration-ok :
    (h : PacketHeader)
    → h.kind ≡ keepalive
    → is_registration (ok (h, registration_plaintext)) ≡ true
unfolding is_registration is_keepalive text_eq
is_registration-ok h k = rw k

module _ (c : Aead) (law : IsAead c) (key : SessionKey) where
  seal-ok :
      (h : PacketHeader) (plain out : List ℕ)
      → length plain ≤ max_payload
      → (sealed : List ℕ) × (c.encrypt key.bytes (nonce h) (encode h) plain ≡ some sealed)
        × (seal c key h plain out ≡ (ok tt, encode h ++ sealed))
  unfolding seal
  seal-ok h plain out fits =
      let (sealed, e) = law.seals key.bytes (nonce h) (encode h) plain (omega arith) in
      (sealed, e, ground arith)

  -- For a cipher with the documented laws, a payload that fits is sealed into a datagram of exactly its length and 32 bytes more, whatever
  -- the buffer held; and opening that datagram gives back the header and the payload.
  pub open-seal :
      (h : PacketHeader) (plain out : List ℕ)
      → length plain ≤ max_payload
      → ((seal c key h plain out).0 ≡ ok tt)
        × (length (seal c key h plain out).1 ≡ length plain + header_len + tag_len)
        × (open_datagram c key (seal c key h plain out).1 ≡ ok (h, plain))
  open-seal h plain out fits =
      let (sealed, e, s) = seal-ok h plain out fits in
      let tag = law.adds_tag key.bytes (nonce h) (encode h) plain sealed e in
      rw s (
        refl,
        omega (arith, length-append (encode h) sealed, length-encode h, tag),
        open-encode c key h sealed (omega (arith, tag)) plain
            (law.opens key.bytes (nonce h) (encode h) plain sealed e),
      )

  -- A payload that would not fit is refused, and the buffer is left as it was.
  pub seal-too_large :
      (h : PacketHeader) (plain out : List ℕ)
      → max_payload < length plain
      → seal c key h plain out ≡ (err (too_large (length plain)), out)
  unfolding seal
  seal-too_large h plain out big = ground arith

  open-ok_parts :
      (d : List ℕ) (h : PacketHeader) (plain : List ℕ)
      → open_datagram c key d ≡ ok (h, plain)
      → (decode d ≡ ok h)
        × (header_len + tag_len ≤ length d)
        × (c.decrypt key.bytes (nonce h) (take header_len d) (drop header_len d) ≡ some plain)
  unfolding open_datagram
  open-ok_parts d h plain e = ground arith

  -- For such a cipher nothing of bytes, no longer than the maximum, opens but what `seal` makes: a datagram that opens to a header and a payload is the
  -- one that sealing them gives.
  pub open-only_sealed :
      (d : List ℕ) (h : PacketHeader) (plain out : List ℕ)
      → AllBytes d
      → length d ≤ max_datagram
      → open_datagram c key d ≡ ok (h, plain)
      → seal c key h plain out ≡ (ok tt, d)
  open-only_sealed d h plain out all small e =
      let (dec, long, opened) = open-ok_parts d h plain e in
      let shape : d ≡ encode h ++ drop header_len d = (decode_iff d h all).0 dec in
      let head : take header_len d ≡ encode h =
        ap (take header_len) shape ∙ take-encode h (drop header_len d) in
      let made : c.encrypt key.bytes (nonce h) (encode h) plain ≡ some (drop header_len d) =
        law.authentic key.bytes (nonce h) (encode h) plain (drop header_len d) (
          subst (λ a. c.decrypt key.bytes (nonce h) a (drop header_len d) ≡ some plain) head
            opened) in
      let size : length d ≡ header_len + length (drop header_len d) =
        ap length shape
        ∙ (length-append (encode h) (drop header_len d)
            ∙ ap (λ n. n + length (drop header_len d)) (length-encode h)) in
      let tagged = law.adds_tag key.bytes (nonce h) (encode h) plain (drop header_len d) made in
      seal_made h plain out (drop header_len d) made (omega arith)
      ∙ ap (λ x. (ok tt, x)) (sym shape)
    where
      seal_made :
          (h : PacketHeader) (plain out sealed : List ℕ)
          → c.encrypt key.bytes (nonce h) (encode h) plain ≡ some sealed
          → length plain ≤ max_payload
          → seal c key h plain out ≡ (ok tt, encode h ++ sealed)
      seal_made h plain out sealed made fits = unfold seal in ground arith

  -- For such a cipher a datagram of bytes, no longer than the maximum, passes as a registration exactly when it is a keepalive with the registration
  -- plaintext sealed under the session's key.
  pub verify_registration_iff :
      (d : List ℕ)
      → AllBytes d
      → length d ≤ max_datagram
      → (verify_registration c key d ≡ true) ↔ (
          (h : PacketHeader) × (h.kind ≡ keepalive)
          × (seal c key h registration_plaintext [] ≡ (ok tt, d)))
  unfolding verify_registration
  verify_registration_iff d all small = (
    λ v.
        let (h, k, e) = is_registration_parts (open_datagram c key d) v in
        (h, k, open-only_sealed d h registration_plaintext [] all small e),
    λ (h, k, e).
        ap is_registration (
          ap (λ r. open_datagram c key r.1) (sym e)
          ∙ (open-seal h registration_plaintext [] (omega arith)).2)
        ∙ is_registration-ok h k,
  )
