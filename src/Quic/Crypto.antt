-- ===== src/Quic/Crypto.antt =====
-- src/quic_crypto.c: the keys of Initial packets, the removal of header protection and the opening
-- of the payload. What OpenSSL computes is a parameter.
pub mod Safety
use quic_sni_router.Base.{
  ℕ, zero, suc, ◌+◌, ◌-◌, ◌*◌, ◌/◌, ◌%◌, ◌^◌, bit_and, bit_or, bit_xor, ◌||◌, Option, none, some,
  List, [], ◌∷◌, ◌++◌, ok, err, fault, invalid, unsupported, ltb, ◌==◌, if◌then◌else◌, length, set,
  take, drop, read, copy, Result, reject_if, ◌>>=◌, ◌>>◌,
}
use quic_sni_router.Quic.LongHeader.{quic_v1, quic_v2, max_quic_cid_len}
use quic_sni_router.Quic.Initial.{Initial, min_initial_payload_len}
use quic_sni_router.Quic.CryptoStream.{max_client_hello_size}

-- `QSR_MAX_DATAGRAM_SIZE`
abbrev pub max_datagram_size : ℕ
max_datagram_size = 1500

-- The calls of OpenSSL; `none` where one of a sequence fails. A key derivation gets the wanted length
-- last, and its value is what it wrote.
pub record OpenSsl : Type 0 where
  pub derive_extract : List ℕ → List ℕ → ℕ → Option (List ℕ)
  pub derive_expand : List ℕ → List ℕ → ℕ → Option (List ℕ)
  pub aes_128_ecb : List ℕ → List ℕ → Option (List ℕ)
  pub aes_128_gcm : List ℕ → List ℕ → List ℕ → List ℕ → List ℕ → Option (List ℕ)

-- `quic_v1_initial_salt`
abbrev pub quic_v1_initial_salt : List ℕ
quic_v1_initial_salt =
    0x38 ∷ 0x76 ∷ 0x2c ∷ 0xf7 ∷ 0xf5 ∷ 0x59 ∷ 0x34 ∷ 0xb3 ∷ 0x4d ∷ 0x17 ∷ 0x9a ∷ 0xe6 ∷ 0xa4 ∷ 0xc8
    ∷ 0x0c ∷ 0xad ∷ 0xcc ∷ 0xbb ∷ 0x7f ∷ 0x0a ∷ []

-- `quic_v2_initial_salt`
abbrev pub quic_v2_initial_salt : List ℕ
quic_v2_initial_salt =
    0x0d ∷ 0xed ∷ 0xe3 ∷ 0xde ∷ 0xf7 ∷ 0x00 ∷ 0xa6 ∷ 0xdb ∷ 0x81 ∷ 0x93 ∷ 0x81 ∷ 0xbe ∷ 0x6e ∷ 0x26
    ∷ 0x9d ∷ 0xcb ∷ 0xf9 ∷ 0xbd ∷ 0x2e ∷ 0xd9 ∷ []

-- `qsr_quic_keying_t`; the lengths are those of the lists.
pub record Keying : Type 0 where
  pub salt : List ℕ
  pub key_label : List ℕ
  pub iv_label : List ℕ
  pub hp_label : List ℕ

abbrev pub v1_keying : Keying
v1_keying = record {
  salt = quic_v1_initial_salt;
  key_label = b'q' ∷ b'u' ∷ b'i' ∷ b'c' ∷ b' ' ∷ b'k' ∷ b'e' ∷ b'y' ∷ [];
  iv_label = b'q' ∷ b'u' ∷ b'i' ∷ b'c' ∷ b' ' ∷ b'i' ∷ b'v' ∷ [];
  hp_label = b'q' ∷ b'u' ∷ b'i' ∷ b'c' ∷ b' ' ∷ b'h' ∷ b'p' ∷ [];
}

abbrev pub v2_keying : Keying
v2_keying = record {
  salt = quic_v2_initial_salt;
  key_label = b'q' ∷ b'u' ∷ b'i' ∷ b'c' ∷ b'v' ∷ b'2' ∷ b' ' ∷ b'k' ∷ b'e' ∷ b'y' ∷ [];
  iv_label = b'q' ∷ b'u' ∷ b'i' ∷ b'c' ∷ b'v' ∷ b'2' ∷ b' ' ∷ b'i' ∷ b'v' ∷ [];
  hp_label = b'q' ∷ b'u' ∷ b'i' ∷ b'c' ∷ b'v' ∷ b'2' ∷ b' ' ∷ b'h' ∷ b'p' ∷ [];
}

-- `keying_for_version`
unfoldable pub keying_for_version : ℕ → Result Keying
keying_for_version version =
    if version == quic_v1
    then ok v1_keying
    else if version == quic_v2
    then ok v2_keying
    else err unsupported

-- The status of a call that must write a given number of bytes.
abbrev pub of_length : ℕ → Option (List ℕ) → Result (List ℕ)
of_length n none = err invalid
of_length n (some out) = if length out == n then ok out else err invalid

-- "tls13 " and "client in"
abbrev pub label_prefix : List ℕ
label_prefix = b't' ∷ b'l' ∷ b's' ∷ b'1' ∷ b'3' ∷ b' ' ∷ []

abbrev pub client_label : List ℕ
client_label = b'c' ∷ b'l' ∷ b'i' ∷ b'e' ∷ b'n' ∷ b't' ∷ b' ' ∷ b'i' ∷ b'n' ∷ []

-- `qsr_initial_keys_t`
pub record InitialKeys : Type 0 where
  pub key : List ℕ
  pub iv : List ℕ
  pub hp : List ℕ

-- `sizeof(out->data)` of `qsr_quic_plaintext_t`
abbrev pub max_plaintext : ℕ
max_plaintext = max_client_hello_size

-- The status of the opening; a refused tag is invalid.
abbrev pub opened : Option (List ℕ) → Result (List ℕ)
opened none = err invalid
opened (some plaintext) = ok plaintext

-- The end of `qsr_quic_initial_client_keys`, which makes every failure of a derivation invalid.
abbrev pub or_invalid : {A : Type 0} → Result A → Result A
or_invalid (ok a) = ok a
or_invalid (err e) = err invalid
or_invalid fault = fault

module _ (ssl : OpenSsl) where
  -- `hkdf_extract`
  unfoldable pub hkdf_extract : List ℕ → List ℕ → ℕ → Result (List ℕ)
  hkdf_extract salt key out_len = of_length out_len (ssl.derive_extract salt key out_len)

  -- `hkdf_expand`
  unfoldable pub hkdf_expand : List ℕ → List ℕ → ℕ → Result (List ℕ)
  hkdf_expand secret info out_len = of_length out_len (ssl.derive_expand secret info out_len)

  -- `hkdf_expand_label`
  unfoldable pub hkdf_expand_label : List ℕ → List ℕ → ℕ → Result (List ℕ)
  hkdf_expand_label secret label out_len = do
    let prefix_len = length label_prefix
    reject_if
        (ltb 255 (prefix_len + length label)
          || (ltb 64 (4 + prefix_len + length label) || ltb (2 ^ 16 - 1) out_len))
        invalid
    hkdf_expand secret
        (out_len / 256 % 256
          ∷ out_len % 256
          ∷ (prefix_len + length label) % 256
          ∷ (label_prefix ++ (label ++ (0 ∷ []))))
        out_len

  -- `aes_ecb_mask`
  unfoldable pub aes_ecb_mask : List ℕ → List ℕ → Result (List ℕ)
  aes_ecb_mask key sample = of_length 16 (ssl.aes_128_ecb key sample)

  -- `aes_gcm_open`. The tag is the last 16 bytes.
  unfoldable pub aes_gcm_open : List ℕ → List ℕ → List ℕ → List ℕ → Result (List ℕ)
  aes_gcm_open key nonce aad ciphertext = do
    let encrypted_len = length ciphertext - 16
    reject_if
        (ltb (length ciphertext) 16
          || (ltb (2 ^ 31 - 1) (length aad) || ltb (2 ^ 31 - 1) encrypted_len))
        invalid
    opened (
        ssl.aes_128_gcm key nonce aad (take encrypted_len ciphertext)
          (drop encrypted_len ciphertext))

  -- `qsr_quic_initial_client_keys`
  unfoldable pub initial_client_keys : ℕ → List ℕ → ℕ → Result InitialKeys
  initial_client_keys version dcid dcid_len = do
    reject_if (dcid_len == 0 || ltb max_quic_cid_len dcid_len) invalid
    keying ← keying_for_version version
    id ← copy dcid 0 dcid_len
    or_invalid (do
      initial_secret ← hkdf_extract keying.salt id 32
      client_secret ← hkdf_expand_label initial_secret client_label 32
      key ← hkdf_expand_label client_secret keying.key_label 16
      iv ← hkdf_expand_label client_secret keying.iv_label 12
      hp ← hkdf_expand_label client_secret keying.hp_label 16
      ok (record { key = key; iv = iv; hp = hp }))

-- `a[i] ^= x`; outside the array it is a fault.
unfoldable pub xor_at : List ℕ → ℕ → ℕ → Result (List ℕ)
xor_at array i x = read array i >>= λ b. ok (set array i (bit_xor b x))

-- The loop over the bytes of the packet number: the header without their protection, and the number.
unfoldable pub unmask_loop : ℕ → ℕ → ℕ → List ℕ → List ℕ → ℕ → Result (List ℕ × ℕ)
unmask_loop zero i offset mask header packet_number = ok (header, packet_number)
unmask_loop (suc n) i offset mask header packet_number = do
  m ← read mask (i + 1)
  header' ← xor_at header (offset + i) m
  b ← read header' (offset + i)
  unmask_loop n (i + 1) offset mask header' (bit_or (packet_number * 256 % 2 ^ 64) b)

-- The loop that mixes the packet number into the nonce.
unfoldable pub nonce_loop : ℕ → ℕ → ℕ → List ℕ → Result (List ℕ)
nonce_loop zero i packet_number nonce = ok nonce
nonce_loop (suc n) i packet_number nonce = do
  nonce' ← xor_at nonce (12 - 1 - i) (packet_number / 2 ^ (i * 8) % 256)
  nonce_loop n (i + 1) packet_number nonce'

-- `qsr_quic_decrypt_initial`: the plaintext.
unfoldable pub decrypt_initial : OpenSsl → List ℕ → Initial → Result (List ℕ)
decrypt_initial ssl packet initial = do
  let offset = initial.packet_number_offset
  reject_if
      (initial.dcid_len == 0
        || (ltb (length packet) (offset + 4 + 16)
            || ltb initial.payload_len min_initial_payload_len))
      invalid
  keys ← initial_client_keys ssl initial.version initial.dcid initial.dcid_len
  reject_if (ltb max_datagram_size (length packet)) invalid
  sample ← copy packet (offset + 4) 16
  mask ← aes_ecb_mask ssl keys.hp sample
  mask_0 ← read mask 0
  header ← xor_at packet 0 (bit_and mask_0 0x0f)
  first ← read header 0
  let pn_len = bit_and first 3 + 1
  reject_if (ltb initial.payload_len pn_len || ltb (length packet) (offset + pn_len)) invalid
  (header', packet_number) ← unmask_loop pn_len 0 offset mask header 0
  nonce ← nonce_loop 8 0 packet_number keys.iv
  let ciphertext_len = initial.payload_len - pn_len
  reject_if
      (ltb max_plaintext ciphertext_len || ltb (length packet) (offset + pn_len + ciphertext_len))
      invalid
  aad ← copy header' 0 (offset + pn_len)
  ciphertext ← copy packet (offset + pn_len) ciphertext_len
  aes_gcm_open ssl keys.key nonce aad ciphertext
