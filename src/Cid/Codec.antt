-- ===== src/Cid/Codec.antt =====
-- The codec's key, its encoder and its decoder.
pub mod RoundTrip
use quic_sni_router.Base.{
  ℕ, zero, suc, ◌+◌, ◌-◌, ◌*◌, ◌/◌, ◌%◌, ◌^◌, ◌≤◌, ◌<◌, min, max, bit_and, bit_or, bit_xor, ◌≡◌,
  refl, sym, ap, ap₂, ◌∙◌, ◌≢◌, ◌↔◌, ◌⊎◌, inl, inr, Bool, true, false, not, ◌&&◌, ◌||◌, Option,
  none, some, List, [], ◌∷◌, ◌++◌, map, arith, ok, err, fault, invalid, truncated, unsupported,
  not_found, full, ltb, leb, ◌==◌, if◌then◌else◌, ltb→lt, lt→ltb, le→ltb, ltb→le, ==_iff, ==_refl,
  ==_ne, Bool-cases, Option-cases, length, get_elem?, get_or, set, take, drop, replicate, All,
  length-append, length-set, length-take, length-drop, length-replicate, get_elem?-lt, get_elem?-ge,
  lt_of_get_elem?, get_elem?-set_self, get_elem?-set_ne, get_elem?-replicate, get_elem?-append_lt,
  get_elem?-drop, get_elem?_of_drop, get_elem?-take, drop-add, take-length_append,
  drop-length_append, take-append-drop, All-get_elem?, All-drop, All-take, All-append, overlay,
  length-overlay, get_elem?-overlay_in, get_elem?-overlay_below, get_elem?-overlay_above,
  get_or_congr, get_or_of_get_elem?, All-overlay, All-set, All-replicate, All-get_or,
  get_or-set_self, get_or-set_ne, take_ext, IsByte, option_read, read, advance, copy, same_bytes,
  same_bytes_refl, same_bytes→eq, read-in, read-eq, advance-in, copy-in, big_endian, Safe-read,
  Safe-advance, Safe-copy, Safe-if, Status, Result, ◌>>=◌, ◌>>◌, reject_if, Safe, Safe-bind,
  Safe-reject_if, Safe-weaken, Safe_ok, Safe-ne-fault, Result-cases, bind-ok, reject_if-ok,
  are_bytes, are_bytes-IsByte,
}

abbrev pub cid_encoded_len : ℕ
cid_encoded_len = 16

abbrev pub cid_encoded_version : ℕ
cid_encoded_version = 0x4f

abbrev pub cid_key_len : ℕ
cid_key_len = 16

abbrev pub cid_nonce_len : ℕ
cid_nonce_len = 7

abbrev pub cid_payload_len : ℕ
cid_payload_len = 8

-- `QSR_CID_MAGIC`, "qsrlrtr"
abbrev pub cid_magic : List ℕ
cid_magic = b'q' ∷ b's' ∷ b'r' ∷ b'l' ∷ b'r' ∷ b't' ∷ b'r' ∷ []

-- `qsr_cid_codec_t`
pub record CidCodec : Type 0 where
  pub key : List ℕ
  pub enabled : Bool

abbrev pub zero_codec : CidCodec
zero_codec = record { key = replicate cid_key_len 0; enabled = false }

-- `hex_nibble`; its -1 is `none`.
unfoldable pub hex_nibble : ℕ → Option ℕ
hex_nibble c =
    if leb b'0' c && leb c b'9'
    then some (c - b'0')
    else if leb b'a' c && leb c b'f'
    then some (c - b'a' + 10)
    else if leb b'A' c && leb c b'F'
    then some (c - b'A' + 10)
    else none

-- The loop of `qsr_cid_codec_init_from_hex`: the bytes of the key, two characters each.
unfoldable pub hex_loop : List ℕ → Option (List ℕ)
hex_loop [] = some []
hex_loop (c ∷ []) = none
hex_loop (c ∷ d ∷ rest) =
    let later = hex_loop rest in
    elim (hex_nibble c) [
      | none ↦ none
      | some hi ↦ elim (hex_nibble d) [
        | none ↦ none
        | some lo ↦ elim later [
          | none ↦ none
          | some bytes ↦ some ((bit_or (hi * 16) lo % 256) ∷ bytes)
        ]
      ]
    ]

-- `qsr_cid_codec_init_from_hex`: the codec that it leaves, and its status.
unfoldable pub init_from_hex : List ℕ → CidCodec × Result (Unit {0})
init_from_hex hex_key =
    if not (length hex_key == cid_key_len * 2)
    then (zero_codec, err invalid)
    else elim (hex_loop hex_key) [
      | none ↦ (zero_codec, err invalid)
      | some key ↦ (record { key = key; enabled = true }, ok tt)
    ]

-- AES-128-CTR of OpenSSL: key, initial counter and input; `none` where a call of `EVP_` fails.
abbrev pub Cipher : Type 0
Cipher = List ℕ → List ℕ → List ℕ → Option (List ℕ)

-- `aes128_ctr_crypt`, with its test on the number of bytes put out.
unfoldable pub aes128_ctr_crypt : Cipher → List ℕ → List ℕ → List ℕ → Result (List ℕ)
aes128_ctr_crypt cipher key iv input = elim (cipher key iv input) [
  | none ↦ err invalid
  | some out ↦ if length out == cid_payload_len then ok out else err invalid
]

-- `build_iv`
unfoldable pub build_iv : List ℕ → List ℕ
build_iv nonce =
    cid_encoded_version
    ∷ (take cid_nonce_len nonce ++ replicate (cid_key_len - 1 - cid_nonce_len) 0)

-- `qsr_cid_codec_encode`: the 16 bytes of `out`.
unfoldable pub cid_encode : Cipher → CidCodec → ℕ → List ℕ → Result (List ℕ)
cid_encode cipher codec server_id nonce = do
  reject_if (not codec.enabled || server_id == 0) invalid
  payload ← aes128_ctr_crypt cipher codec.key (build_iv nonce) (server_id ∷ cid_magic)
  ok (cid_encoded_version ∷ (take cid_nonce_len nonce ++ payload))

-- `qsr_cid_codec_decode`: the server id.
unfoldable pub cid_decode : Cipher → CidCodec → List ℕ → Result ℕ
cid_decode cipher codec cid = do
  reject_if (not codec.enabled) invalid
  reject_if (not (length cid == cid_encoded_len) || not (get_or cid 0 0 == cid_encoded_version))
      invalid
  nonce ← copy cid 1 cid_nonce_len
  payload ← copy cid (1 + cid_nonce_len) cid_payload_len
  plaintext ← aes128_ctr_crypt cipher codec.key (build_iv nonce) payload
  server_id ← read plaintext 0
  magic ← copy plaintext 1 (cid_payload_len - 1)
  reject_if (server_id == 0 || not (same_bytes magic cid_magic)) invalid
  ok server_id
