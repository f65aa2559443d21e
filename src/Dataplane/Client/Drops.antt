-- ===== src/Dataplane/Client/Drops.antt =====
-- What src/udp.c calls of OpenSSL for a datagram below the minimum size of an Initial.
use quic_sni_router.Base.{
  ℕ, ◌<◌, ◌≡◌, refl, ◌⊎◌, inl, inr, true, false, Option, none, some, List, ok, err, fault, ltb,
  if◌then◌else◌, lt→ltb, length, Result, ◌>>=◌,
}
use quic_sni_router.Sockaddr.{Sockaddr}
use quic_sni_router.Quic.Initial.{Initial, parse_initial}
use quic_sni_router.Quic.Crypto.{OpenSsl}
use quic_sni_router.Session.Key.{SessionKey, session_tuple_key}
use quic_sni_router.Session.Table.{SessionTable}
use quic_sni_router.Cid.Codec.{Cipher}
use quic_sni_router.Config.Sections.{Config}
use quic_sni_router.Flow.Table.{flow_table_get}
use quic_sni_router.Dataplane.Lookup.{lookup_encoded_cid}
use quic_sni_router.Dataplane.State.{Dataplane, World, min_initial_datagram_size}
use quic_sni_router.Dataplane.Fresh.{handle_unknown}
use quic_sni_router.Dataplane.Client.{
  takes_fast_path, classify, forward_known, handle_known, dispatch, handle_slow, forward_flow,
  by_flow, handle_client_packet,
}

bind_congr :
    {A B : Type 0} (m : Result A) (f g : A → Result B)
    → ((a : A) → f a ≡ g a)
    → (m >>= f) ≡ (m >>= g)
bind_congr (ok a) f g same = same a
bind_congr (err e) f g same = refl
bind_congr fault f g same = refl

-- The world with other calls of OpenSSL: those that decrypt Initials, and the cipher of encoded ids.
abbrev pub with_crypto : World → OpenSsl → Cipher → World
with_crypto world ssl cipher = record world { ssl = ssl; cipher = cipher }

-- The lookup by an encoded id does not read the cipher while encoded ids are off.
encoded_same :
    (hash : List ℕ → ℕ) (config : Config) (t : SessionTable) (packet : List ℕ) (key : SessionKey)
    (now : ℕ) (cipher cipher' : Cipher)
    → (config.cid_codec.enabled ≡ false) ⊎ (cipher' ≡ cipher)
    → lookup_encoded_cid hash cipher config t packet key now
      ≡ lookup_encoded_cid hash cipher' config t packet key now
unfolding lookup_encoded_cid
encoded_same hash config t packet key now cipher cipher' (inl disabled) = rw disabled refl
encoded_same hash config t packet key now cipher cipher' (inr same) = rw same refl

module _ (world : World) (ssl : OpenSsl) (cipher : Cipher) (dp : Dataplane) (packet : List ℕ)
    (source : Sockaddr) (source_len now : ℕ)
    (unread : (dp.config.cid_codec.enabled ≡ false) ⊎ (cipher ≡ world.cipher))
    (short : length packet < min_initial_datagram_size) where
  unknown_same :
      (dp' : Dataplane) (key : SessionKey) (initial : Result Initial)
      → handle_unknown world dp' packet source source_len key initial now
        ≡ handle_unknown (with_crypto world ssl cipher) dp' packet source source_len key initial now
  unfolding handle_unknown
  unknown_same dp' key (err e) = refl
  unknown_same dp' key fault = refl
  unknown_same dp' key (ok initial) =
      let small : ltb (length packet) min_initial_datagram_size ≡ true = lt→ltb _ _ short in
      rw small refl

  slow_same :
      handle_slow world dp packet source source_len now
      ≡ handle_slow (with_crypto world ssl cipher) dp packet source source_len now
  unfolding handle_slow dispatch handle_known forward_known
  slow_same =
      let key = session_tuple_key source source_len in
      let encoded =
        encoded_same world.hash dp.config dp.sessions packet key now world.cipher cipher unread in
      rw (← encoded) (
        bind_congr (lookup_encoded_cid world.hash world.cipher dp.config dp.sessions packet key now)
          _ _
          λ (t, found).
            bind_congr (classify world.hash dp.config t packet key now (parse_initial packet) found)
              _ _ λ (t', session). dispatch_same (record dp { sessions = t' }) session)
    where
      dispatch_same :
          (dp' : Dataplane) (session : Option ℕ)
          → dispatch world dp' packet source source_len now (parse_initial packet) session
            ≡ dispatch
                (with_crypto world ssl cipher)
                dp'
                packet
                source
                source_len
                now
                (parse_initial packet)
                session
      dispatch_same dp' (some i) = refl
      dispatch_same dp' none =
          unknown_same dp' (session_tuple_key source source_len) (parse_initial packet)

  -- What the router does with a datagram of less than 1200 bytes, from whatever source and with
  -- whatever bytes, does not depend on what OpenSSL's HKDF, AES-128-ECB and AES-128-GCM compute. Where
  -- encoded ids are off it does not depend on AES-128-CTR, the cipher of those ids, either; where they
  -- are on, that cipher stays as it is.
  pub handle_client_packet-short :
      handle_client_packet world dp packet source source_len now
      ≡ handle_client_packet (with_crypto world ssl cipher) dp packet source source_len now
  unfolding handle_client_packet by_flow forward_flow
  handle_client_packet-short = by (
      if takes_fast_path dp.config packet
      then flow_table_get world.hash dp.flows source source_len
      else none)
    where
      by :
          (slot : Option ℕ)
          → by_flow world dp packet source source_len now slot
            ≡ by_flow (with_crypto world ssl cipher) dp packet source source_len now slot
      by none = slow_same
      by (some slot) = refl
