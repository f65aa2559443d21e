-- ===== src/Cid/Codec/RoundTrip.antt =====
-- Encoding and decoding are inverse, given that the cipher is its own inverse, as counter mode is.
use quic_sni_router.Base.{
  ℕ, zero, suc, ◌+◌, ◌≡◌, refl, sym, ap, ◌∙◌, inl, inr, true, false, not, ◌||◌, Option, none, some,
  List, [], ◌∷◌, ◌++◌, arith, ok, err, invalid, ◌==◌, if◌then◌else◌, ==_iff, Bool-cases, length,
  take, length-append, take-length_append, drop-length_append, read, copy, copy-in, bind-ok,
  reject_if-ok,
}
use quic_sni_router.Cid.Codec.{
  cid_encoded_len, cid_encoded_version, cid_nonce_len, cid_payload_len, cid_magic, CidCodec, Cipher,
  aes128_ctr_crypt, build_iv, cid_encode, cid_decode,
}

-- Counter mode adds the same key stream either way.
abbrev pub IsSymmetric : Cipher → Type 0
IsSymmetric cipher =
    (key iv input out : List ℕ) → cipher key iv input ≡ some out → cipher key iv out ≡ some input

crypt-ok :
    (cipher : Cipher) (key iv input : List ℕ) {out : List ℕ}
    → aes128_ctr_crypt cipher key iv input ≡ ok out
    → (cipher key iv input ≡ some out) × (length out ≡ cid_payload_len)
unfolding aes128_ctr_crypt
crypt-ok cipher key iv input {out} h = sized (cipher key iv input) h
  where
    sized :
        (o : Option (List ℕ))
        → elim o [
          | none ↦ err invalid
          | some x ↦ if length x == cid_payload_len then ok x else err invalid
        ]
          ≡ ok out
        → (o ≡ some out) × (length out ≡ cid_payload_len)
    sized none g = cc
    sized (some x) g = elim (Bool-cases (length x == cid_payload_len)) [
      | inl e ↦
          (let g' = rw e at g in
            let same : x ≡ out = cc in
            (ap some same, ap length (sym same) ∙ (==_iff (length x) cid_payload_len).0 e))
      | inr e ↦ (let g' = rw e at g in absurd (cc))
    ]

crypt_inverse :
    (cipher : Cipher) (key iv input : List ℕ) {out : List ℕ}
    → IsSymmetric cipher
    → length input ≡ cid_payload_len
    → aes128_ctr_crypt cipher key iv input ≡ ok out
    → aes128_ctr_crypt cipher key iv out ≡ ok input
crypt_inverse cipher key iv input symmetric size h =
    let (e, _) = crypt-ok cipher key iv input h in
    let back = symmetric key iv input _ e in
    let fits : (length input == cid_payload_len) ≡ true = rw size refl in
    unfold aes128_ctr_crypt in rw (back, fits, aes128_ctr_crypt)

take_all : {A : Type 0} (n : ℕ) (xs : List A) → length xs ≡ n → take n xs ≡ xs
take_all zero [] h = refl
take_all zero (x ∷ xs) h = absurd (omega arith)
take_all (suc n) [] h = refl
take_all (suc n) (x ∷ xs) h = ap (λ t. x ∷ t) (take_all n xs (omega arith))

-- What the decoder reads of `version :: nonce ++ payload`.
module _ (nonce payload : List ℕ) (nonce_size : length nonce ≡ cid_nonce_len)
    (payload_size : length payload ≡ cid_payload_len) where
  abbrev cid : List ℕ
  cid = cid_encoded_version ∷ (nonce ++ payload)

  length-cid : length cid ≡ cid_encoded_len
  length-cid = omega (arith, length-append nonce payload)

  nonce_part : copy cid 1 cid_nonce_len ≡ ok nonce
  nonce_part =
      copy-in cid 1 cid_nonce_len (omega (arith, length-cid))
      ∙ ap ok (take-length_append nonce payload cid_nonce_len (sym nonce_size))

  payload_part : copy cid (1 + cid_nonce_len) cid_payload_len ≡ ok payload
  payload_part =
      copy-in cid 8 cid_payload_len (omega (arith, length-cid))
      ∙ ap ok (
          ap (take cid_payload_len) (drop-length_append nonce payload 7 (sym nonce_size))
          ∙ take_all cid_payload_len payload payload_size)

  decode_cid :
      (cipher : Cipher) (codec : CidCodec) (server_id : ℕ)
      → codec.enabled ≡ true
      → (server_id == 0) ≡ false
      → aes128_ctr_crypt cipher codec.key (build_iv nonce) payload ≡ ok (server_id ∷ cid_magic)
      → cid_decode cipher codec cid ≡ ok server_id
  unfolding cid_decode read copy
  decode_cid cipher codec server_id on nonzero plain =
      let sized : (length cid == cid_encoded_len) ≡ true = rw length-cid refl in
      rw (on, sized, nonce_part, payload_part, plain, nonzero) refl

-- If the cipher is symmetric and the nonce has 7 bytes, the decoder returns the server id of every
-- connection id that the encoder made.
pub cid_decode-encode :
    (cipher : Cipher) (codec : CidCodec) (server_id : ℕ) (nonce : List ℕ) {cid' : List ℕ}
    → IsSymmetric cipher
    → length nonce ≡ cid_nonce_len
    → cid_encode cipher codec server_id nonce ≡ ok cid'
    → cid_decode cipher codec cid' ≡ ok server_id
unfolding cid_encode
cid_decode-encode cipher codec server_id nonce {cid'} symmetric size h =
    let (guards, h1) = reject_if-ok (not codec.enabled || server_id == 0) _ _ h in
    let (payload, made, h2) =
      bind-ok (aes128_ctr_crypt cipher codec.key (build_iv nonce) (server_id ∷ cid_magic)) _ h1 in
    let on : codec.enabled ≡ true = ground arith in
    let nonzero : (server_id == 0) ≡ false = ground arith in
    let (_, payload_size) =
      crypt-ok cipher codec.key (build_iv nonce) (server_id ∷ cid_magic) made in
    let e : cid_encoded_version ∷ (take cid_nonce_len nonce ++ payload) ≡ cid' = cc in
    let whole : cid_encoded_version ∷ (nonce ++ payload) ≡ cid' =
      ap (λ n. cid_encoded_version ∷ (n ++ payload)) (sym (take_all cid_nonce_len nonce size))
      ∙ e in
    let plain =
      crypt_inverse cipher codec.key (build_iv nonce) (server_id ∷ cid_magic) symmetric refl made in
    let decoded =
      decode_cid nonce payload size payload_size cipher codec server_id on nonzero plain in
    rw (← whole) decoded
