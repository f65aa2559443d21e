-- ===== src/Quic/Crypto/Safety.antt =====
-- The decryption of an Initial stays inside the packet and its own buffers.
use quic_sni_router.Base.{ℕ, ◌≡◌, some, List, length}
use quic_sni_router.Quic.Initial.{Initial}
use quic_sni_router.Quic.Crypto.{OpenSsl, InitialKeys}

Sized : ℕ → List ℕ → Type 0
Sized n xs = length xs ≡ n

record HasSizes (keys : InitialKeys) : Type 0 where
  key_sized : length keys.key ≡ 16
  iv_sized : length keys.iv ≡ 12
  hp_sized : length keys.hp ≡ 16

-- AES-GCM puts out as many bytes as it is given.
abbrev pub KeepsLength : OpenSsl → Type 0
KeepsLength ssl =
    (key nonce aad ciphertext tag out : List ℕ)
    → ssl.aes_128_gcm key nonce aad ciphertext tag ≡ some out
    → length out ≡ length ciphertext
