-- ===== src/Dataplane/Lookup/Encoded.antt =====
-- Datagrams whose DCID carries an encoded server id.
use quic_sni_router.Base.{
  ℕ, suc, ◌+◌, bit_and, ◌≡◌, sym, ap, ◌∙◌, inl, inr, true, false, not, ◌||◌, List, ◌∷◌, ◌++◌, arith,
  ok, ltb, ◌==◌, if◌then◌else◌, le→ltb, ==_iff, Bool-cases, length, get_or, length-append,
  take-length_append, read, copy, copy-in, reject_if-ok,
}
use quic_sni_router.Cid.Codec.RoundTrip.{IsSymmetric, cid_decode-encode}
use quic_sni_router.Cid.Codec.{
  Cipher, CidCodec, cid_encoded_len, cid_encoded_version, cid_nonce_len, cid_encode, cid_decode,
}
use quic_sni_router.Dataplane.Lookup.{try_decode}

-- What the decoder requires.
decodable :
    (cipher : Cipher) (codec : CidCodec) (cid : List ℕ) {server_id : ℕ}
    → cid_decode cipher codec cid ≡ ok server_id
    → (codec.enabled ≡ true) × (length cid ≡ cid_encoded_len)
unfolding cid_decode
decodable cipher codec cid h =
    let (on, h1) = reject_if-ok (not codec.enabled) _ _ h in
    let (shape, h2) =
      reject_if-ok
        (not (length cid == cid_encoded_len) || not (get_or cid 0 0 == cid_encoded_version)) _ _
        h1 in
    let long : (length cid == cid_encoded_len) ≡ true = ground arith in
    (ground arith, (==_iff (length cid) cid_encoded_len).0 long)

module _ (cipher : Cipher) (codec : CidCodec) (server_id first : ℕ) (cid rest : List ℕ)
    (decoded : cid_decode cipher codec cid ≡ ok server_id) where
  try_decode-short :
      (bit_and first 0x80 == 0) ≡ true
      → (bit_and first 0x40 == 0) ≡ false
      → try_decode cipher codec (first ∷ (cid ++ rest)) ≡ ok server_id
  unfolding try_decode
  try_decode-short short fixed =
      let (on, size) = decodable cipher codec cid decoded in
      let part : copy (first ∷ (cid ++ rest)) 1 cid_encoded_len ≡ ok cid =
        copy-in (first ∷ (cid ++ rest)) 1 cid_encoded_len (omega (arith, length-append cid rest))
        ∙ ap ok (take-length_append cid rest cid_encoded_len (sym size)) in
      let filled : ltb (suc (length (cid ++ rest))) 1 ≡ false = le→ltb _ _ (omega arith) in
      let room : ltb (suc (length (cid ++ rest))) (1 + cid_encoded_len) ≡ false =
        le→ltb _ _ (omega (arith, length-append cid rest)) in
      rw (on, filled, short, fixed, room, part) (rw on at decoded)

  try_decode-long :
      (v1 v2 v3 v4 : ℕ)
      → (bit_and first 0x80 == 0) ≡ false
      → (bit_and first 0x40 == 0) ≡ false
      → try_decode cipher codec (first ∷ v1 ∷ v2 ∷ v3 ∷ v4 ∷ cid_encoded_len ∷ (cid ++ rest))
        ≡ ok server_id
  unfolding try_decode read
  try_decode-long v1 v2 v3 v4 long fixed =
      let (on, size) = decodable cipher codec cid decoded in
      let packet = first ∷ v1 ∷ v2 ∷ v3 ∷ v4 ∷ cid_encoded_len ∷ (cid ++ rest) in
      let part : copy packet 6 cid_encoded_len ≡ ok cid =
        copy-in packet 6 cid_encoded_len (omega (arith, length-append cid rest))
        ∙ ap ok (take-length_append cid rest cid_encoded_len (sym size)) in
      let filled : ltb (length packet) 1 ≡ false = le→ltb _ _ (omega arith) in
      let room : ltb (length packet) 7 ≡ false =
        le→ltb _ _ (omega (arith, length-append cid rest)) in
      let room' : ltb (length packet) (6 + cid_encoded_len) ≡ false =
        le→ltb _ _ (omega (arith, length-append cid rest)) in
      rw (on, filled, long, fixed, room, room', part) (rw on at decoded)

-- With a symmetric cipher and a nonce of 7 bytes, the router reads the server id out of every packet
-- whose DCID the encoder made: behind the first byte of a short header, and as the 16 bytes of DCID
-- of a long header of whatever version.
pub try_decode-encode :
    (cipher : Cipher) (codec : CidCodec) (server_id first v1 v2 v3 v4 : ℕ) (nonce cid rest : List ℕ)
    → IsSymmetric cipher
    → length nonce ≡ cid_nonce_len
    → cid_encode cipher codec server_id nonce ≡ ok cid
    → (bit_and first 0x40 == 0) ≡ false
    → try_decode cipher codec (
        if bit_and first 0x80 == 0
        then first ∷ (cid ++ rest)
        else first ∷ v1 ∷ v2 ∷ v3 ∷ v4 ∷ cid_encoded_len ∷ (cid ++ rest))
      ≡ ok server_id
try_decode-encode cipher codec server_id first v1 v2 v3 v4 nonce cid rest symmetric sized encoded
      fixed =
    let decoded = cid_decode-encode cipher codec server_id nonce symmetric sized encoded in
    elim (Bool-cases (bit_and first 0x80 == 0)) [
      | inl short ↦
          rw short (try_decode-short cipher codec server_id first cid rest decoded short fixed)
      | inr long ↦
          rw long
            (try_decode-long cipher codec server_id first cid rest decoded v1 v2 v3 v4 long fixed)
    ]
