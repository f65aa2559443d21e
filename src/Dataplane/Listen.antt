-- ===== src/Dataplane/Listen.antt =====
-- The listen address: `split_listen` of src/udp.c.
use quic_sni_router.Base.{
  ℕ, ◌||◌, Option, none, some, List, [], ◌∷◌, ok, err, invalid, leb, ◌==◌, if◌then◌else◌, length,
  Result,
}

-- `strrchr(listen, ':')`: the text before the last colon and the text behind it.
abbrev pub last_colon : List ℕ → Option (List ℕ × List ℕ)
last_colon [] = none
last_colon (c ∷ rest) = in_front c rest (last_colon rest)
  where
    in_front : ℕ → List ℕ → Option (List ℕ × List ℕ) → Option (List ℕ × List ℕ)
    in_front c rest (some (prefix, port)) = some (c ∷ prefix, port)
    in_front c rest none = if c == b':' then some ([], rest) else none

-- `split_listen`: the host and the port.
unfoldable pub split_listen : List ℕ → ℕ → ℕ → Result (List ℕ × List ℕ)
split_listen listen host_len port_len = split (last_colon listen)
  where
    split : Option (List ℕ × List ℕ) → Result (List ℕ × List ℕ)
    split none = err invalid
    split (some (host, port)) =
        if leb host_len (length host) || leb port_len (length port)
        then err invalid
        else ok (host, port)
