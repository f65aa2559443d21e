-- ===== src/Session/Key.antt =====
-- Session keys: `key_valid`, `key_hash`, `key_equals` and the constructors of keys.
pub mod Equality
use quic_sni_router.Base.{
  ℕ, ◌%◌, Bool, true, false, not, ◌&&◌, ◌||◌, List, [], ◌∷◌, ◌++◌, ltb, leb, ◌==◌, if◌then◌else◌,
  take, replicate, overlay, same_bytes,
}
use quic_sni_router.Sockaddr.{Sockaddr, sockaddr_size, is_inet}
use quic_sni_router.Quic.LongHeader.{max_quic_cid_len}

-- `QSR_MIN_LEARNED_CID_LEN`
abbrev pub min_learned_cid_len : ℕ
min_learned_cid_len = 8

-- `qsr_session_key_t`. The two arrays hold `max_quic_cid_len` bytes, zero behind their lengths.
pub record SessionKey : Type 0 where
  pub dcid_len : ℕ
  pub scid_len : ℕ
  pub client_addr : Sockaddr
  pub client_addr_len : ℕ
  pub has_tuple : Bool
  pub has_cids : Bool
  pub dcid : List ℕ
  pub scid : List ℕ

-- `{0}`
abbrev pub zero_key : SessionKey
zero_key = record {
  dcid_len = 0;
  scid_len = 0;
  client_addr = replicate sockaddr_size 0;
  client_addr_len = 0;
  has_tuple = false;
  has_cids = false;
  dcid = replicate max_quic_cid_len 0;
  scid = replicate max_quic_cid_len 0;
}

unfoldable pub key_valid : SessionKey → Bool
key_valid key =
    if (not key.has_tuple && not key.has_cids)
      || (ltb max_quic_cid_len key.dcid_len || ltb max_quic_cid_len key.scid_len)
    then false
    else if key.has_tuple && not (is_inet key.client_addr key.client_addr_len)
    then false
    else not key.has_cids || (ltb 0 key.dcid_len || ltb 0 key.scid_len)

-- The tuple's part of the buffer that `key_hash` fills, with its length in front.
abbrev pub tuple_bytes : SessionKey → List ℕ
tuple_bytes key =
    if key.has_tuple
    then (key.client_addr_len % 256) ∷ take key.client_addr_len key.client_addr
    else []

-- The part of the connection ids.
abbrev pub cid_bytes : SessionKey → List ℕ
cid_bytes key =
    if key.has_cids
    then (key.dcid_len % 256)
      ∷ (take key.dcid_len key.dcid ++ ((key.scid_len % 256) ∷ take key.scid_len key.scid))
    else []

-- The bytes that `key_hash` hashes.
unfoldable pub serialize : SessionKey → List ℕ
serialize key =
    (if key.has_tuple then 1 else 0)
    ∷ (if key.has_cids then 1 else 0)
    ∷ (tuple_bytes key ++ cid_bytes key)

-- `key_hash`, over the hash of the process (`qsr_hash_bytes` with the process-wide key).
unfoldable pub key_hash : (List ℕ → ℕ) → SessionKey → ℕ → ℕ
key_hash hash key capacity = hash (serialize key) % capacity

abbrev pub same_bool : Bool → Bool → Bool
same_bool a b = if a then b else not b

unfoldable pub key_equals : SessionKey → SessionKey → Bool
key_equals a b =
    if not (same_bool a.has_tuple b.has_tuple)
      || (not (same_bool a.has_cids b.has_cids)
          || (not (a.client_addr_len == b.client_addr_len)
              || (not (a.dcid_len == b.dcid_len) || not (a.scid_len == b.scid_len))))
    then false
    else if a.has_tuple
        && not (
            same_bytes (take a.client_addr_len a.client_addr)
              (take a.client_addr_len b.client_addr))
    then false
    else if a.has_cids
        && (not (same_bytes (take a.dcid_len a.dcid) (take a.dcid_len b.dcid))
            || not (same_bytes (take a.scid_len a.scid) (take a.scid_len b.scid)))
    then false
    else true

-- `qsr_session_tuple_key`, of an address that is there.
unfoldable pub session_tuple_key : Sockaddr → ℕ → SessionKey
session_tuple_key addr addr_len =
    if leb addr_len sockaddr_size
    then record zero_key {
      has_tuple = true;
      client_addr = overlay 0 (take addr_len addr) (replicate sockaddr_size 0);
      client_addr_len = addr_len;
    }
    else zero_key

-- `qsr_session_cid_key`; a null pointer has the length 0.
unfoldable pub session_cid_key : List ℕ → ℕ → List ℕ → ℕ → SessionKey
session_cid_key dcid dcid_len scid scid_len =
    if leb dcid_len max_quic_cid_len
      && (leb scid_len max_quic_cid_len && (ltb 0 dcid_len || ltb 0 scid_len))
    then record zero_key {
      has_cids = true;
      dcid = overlay 0 (take dcid_len dcid) (replicate max_quic_cid_len 0);
      scid = overlay 0 (take scid_len scid) (replicate max_quic_cid_len 0);
      dcid_len = dcid_len;
      scid_len = scid_len;
    }
    else zero_key

-- `qsr_session_single_cid_key`
unfoldable pub session_single_cid_key : List ℕ → ℕ → SessionKey
session_single_cid_key cid cid_len =
    if ltb cid_len min_learned_cid_len then zero_key else session_cid_key cid cid_len [] 0
