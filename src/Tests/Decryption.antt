-- ===== src/Tests/Decryption.antt =====
-- The decryption of Initials (src/quic_crypto.c).
use quic_sni_router.Base.{ℕ, ◌≡◌, refl, none, some, List, [], ◌∷◌, ◌++◌, ok, replicate, read, copy}
use quic_sni_router.Quic.Initial.{Initial}
use quic_sni_router.Quic.Crypto.{
  OpenSsl, keying_for_version, hkdf_extract, hkdf_expand, hkdf_expand_label, aes_ecb_mask,
  aes_gcm_open, initial_client_keys, xor_at, unmask_loop, nonce_loop, decrypt_initial,
}

-- A library that copies, and one that refuses everything.
abbrev pub copying_ssl : OpenSsl
copying_ssl = record {
  derive_extract = λ salt key n. some (replicate n 1);
  derive_expand = λ secret info n. some (replicate n 2);
  aes_128_ecb = λ key sample. some sample;
  aes_128_gcm = λ key nonce aad ciphertext tag. some ciphertext;
}

abbrev pub refusing_ssl : OpenSsl
refusing_ssl = record {
  derive_extract = λ salt key n. none;
  derive_expand = λ secret info n. none;
  aes_128_ecb = λ key sample. none;
  aes_128_gcm = λ key nonce aad ciphertext tag. none;
}

abbrev pub initial_packet : List ℕ
initial_packet = 0xc0 ∷ 0 ∷ 0 ∷ 0 ∷ 1 ∷ 8 ∷ (replicate 8 3 ++ (0 ∷ 0 ∷ 40 ∷ replicate 40 5))

abbrev some_initial : Initial
some_initial = record {
  version = 1;
  dcid = replicate 8 3;
  dcid_len = 8;
  scid = [];
  scid_len = 0;
  token_offset = 16;
  token_len = 0;
  payload_offset = 17;
  payload_len = 40;
  packet_number_offset = 17;
}

-- The sample is 5s, so the mask flips the low bits of the header and of the number.
decrypt_initial_run : decrypt_initial copying_ssl initial_packet some_initial ≡ ok (replicate 22 5)
unfolding decrypt_initial initial_client_keys keying_for_version hkdf_extract hkdf_expand_label
    hkdf_expand aes_ecb_mask aes_gcm_open xor_at unmask_loop nonce_loop copy read
decrypt_initial_run = refl
