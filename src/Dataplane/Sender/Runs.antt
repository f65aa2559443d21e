-- ===== src/Dataplane/Sender/Runs.antt =====
-- What a flush hands to the kernel, and the bound of the queue.
use quic_sni_router.Base.{
  ℕ, zero, suc, ◌≤◌, ◌<◌, ◌≡◌, ◌+◌, refl, ap, ap₂, ◌∙◌, ◌⊎◌, inl, inr, true, false, List, [], ◌∷◌,
  ◌++◌, arith, ltb, leb, ◌==◌, if◌then◌else◌, sym, ltb→le, ltb→lt, ==_iff, Bool-cases, length, take,
  drop, All, length-append, All-append,
}
use quic_sni_router.Sockaddr.{Sockaddr}
use quic_sni_router.Dataplane.Sender.{
  SendItem, Sender, Answer, accepted, interrupted, refused, udp_batch_size, take_run, runs_loop,
  runs_of, sender_flush, sender_enqueue, send_run,
}
use quic_sni_router.Quic.Crypto.{max_datagram_size}

-- The items of runs in turn.
abbrev pub joined_runs : List (List SendItem) → List SendItem
joined_runs [] = []
joined_runs (run ∷ runs) = run ++ joined_runs runs

-- A run is not empty, and its items have one descriptor.
abbrev pub IsRun : List SendItem → Type 0
IsRun [] = ⊥
IsRun (item ∷ items) = All (λ other. other.fd ≡ item.fd) items

take_run_lem :
    (fd : ℕ) (items : List SendItem)
    → ((take_run fd items).0 ++ (take_run fd items).1 ≡ items)
      × (All (λ other. other.fd ≡ fd) (take_run fd items).0)
      × (length (take_run fd items).1 ≤ length items)
take_run_lem fd [] = (refl, tt, omega arith)
take_run_lem fd (item ∷ items) =
    let (whole, same, short) = take_run_lem fd items in
    elim (Bool-cases (item.fd == fd)) [
      | inl here ↦
          rw here (ap (λ t. item ∷ t) whole, ((==_iff item.fd fd).0 here, same), omega arith)
      | inr other ↦ rw other (refl, tt, omega arith)
    ]

runs_loop_lem :
    (fuel : ℕ) (items : List SendItem)
    → length items ≤ fuel
    → (joined_runs (runs_loop fuel items) ≡ items) × All IsRun (runs_loop fuel items)
unfolding runs_loop
runs_loop_lem zero [] h = (refl, tt)
runs_loop_lem zero (item ∷ items) h = absurd (omega arith)
runs_loop_lem (suc fuel) [] h = (refl, tt)
runs_loop_lem (suc fuel) (item ∷ items) h =
    let (whole, same, short) = take_run_lem item.fd items in
    let (later, uniform) = runs_loop_lem fuel (take_run item.fd items).1 (omega arith) in
    (ap (λ t. item ∷ t) (ap (λ t. (take_run item.fd items).0 ++ t) later ∙ whole), (same, uniform))

-- A flush empties the queue. The runs that it hands to the kernel are the queued datagrams, each one
-- once and in their order, and every run is a non-empty one of datagrams with one descriptor.
pub sender_flush_lem :
    (s : Sender)
    → ((sender_flush s).items ≡ [])
      × ((sender_flush s).flushed ≡ s.flushed ++ runs_of s.items)
      × (joined_runs (runs_of s.items) ≡ s.items)
      × All IsRun (runs_of s.items)
unfolding sender_flush
sender_flush_lem s =
    let (whole, uniform) = runs_loop_lem (length s.items) s.items (omega arith) in
    (refl, refl, whole, uniform)

-- The queue fits its array, and every datagram in it is one that the program may send.
pub record IsSender (s : Sender) : Type 0 where
  pub bounded : length s.items ≤ udp_batch_size
  pub packets_fit : All (λ item. length item.packet ≤ max_datagram_size) s.items

pub sender_flush-IsSender : (s : Sender) → IsSender (sender_flush s)
unfolding sender_flush
sender_flush-IsSender s = record { bounded = omega arith; packets_fit = tt }

append_assoc : {A : Type 0} (xs ys zs : List A) → (xs ++ ys) ++ zs ≡ xs ++ (ys ++ zs)
append_assoc [] ys zs = refl
append_assoc (x ∷ xs) ys zs = ap (λ t. x ∷ t) (append_assoc xs ys zs)

joined_runs-append :
    (a b : List (List SendItem)) → joined_runs (a ++ b) ≡ joined_runs a ++ joined_runs b
joined_runs-append [] b = refl
joined_runs-append (run ∷ a) b =
    ap (λ t. run ++ t) (joined_runs-append a b)
    ∙ sym (append_assoc run (joined_runs a) (joined_runs b))

-- Every datagram that the sender was given: those that were flushed, and those that wait.
abbrev pub given : Sender → List SendItem
given s = joined_runs s.flushed ++ s.items

pub sender_flush-given : (s : Sender) → joined_runs (sender_flush s).flushed ≡ given s
unfolding sender_flush
sender_flush-given s =
    let (emptied, handed, whole, uniform) = sender_flush_lem s in
    joined_runs-append s.flushed (runs_of s.items) ∙ ap (λ t. joined_runs s.flushed ++ t) whole

-- What a sender owes to a datagram: it is added behind all others, and waits in a queue that was
-- flushed before if it was full, and was not flushed otherwise.
abbrev pub IsQueued : Sender → SendItem → Sender → Type 0
IsQueued s item s' =
    (given s' ≡ given s ++ (item ∷ []))
    × (((length s.items < udp_batch_size) × (s'.flushed ≡ s.flushed))
        ⊎ ((udp_batch_size ≤ length s.items) × (s'.items ≡ item ∷ [])))

-- On a queue within its bounds, a datagram of more than 1500 bytes leaves the sender as it is. Any
-- other one is added behind all that the sender was given, of which none is lost: a queue with room
-- gets it without a flush, and a queue of 64 datagrams is flushed before. The queue stays within its
-- bounds.
pub sender_enqueue-IsSender :
    (s : Sender) (fd : ℕ) (packet : List ℕ) (dest : Sockaddr) (dest_len : ℕ)
    → IsSender s
    → IsSender (sender_enqueue s fd packet dest dest_len)
      × (((max_datagram_size < length packet) × (sender_enqueue s fd packet dest dest_len ≡ s))
          ⊎ ((length packet ≤ max_datagram_size)
              × IsQueued s
                  (record { packet = packet; dest = dest; dest_len = dest_len; fd = fd })
                  (sender_enqueue s fd packet dest dest_len)))
unfolding sender_enqueue
sender_enqueue-IsSender s fd packet dest dest_len good =
    elim (Bool-cases (ltb max_datagram_size (length packet))) [
      | inl long ↦ rw long (good, inl (ltb→lt _ _ long, refl))
      | inr short ↦ elim (Bool-cases (leb udp_batch_size (length s.items))) [
        | inl whole ↦
            rw (short, whole)
              (flushed_before (ltb→le _ _ short) (full_queue (length s.items) whole))
        | inr room ↦
            rw (short, room)
              (
                record {
                  bounded =
                      omega (arith, length-append s.items (item ∷ []), few (length s.items) room);
                  packets_fit =
                      All-append _ s.items (item ∷ []) good.packets_fit (ltb→le _ _ short, tt);
                },
                inr (
                  ltb→le _ _ short,
                  (
                    sym (append_assoc (joined_runs s.flushed) s.items (item ∷ [])),
                    inl (few (length s.items) room, refl),
                  ),
                ),
              )
      ]
    ]
  where
    item : SendItem
    item = record { packet = packet; dest = dest; dest_len = dest_len; fd = fd }

    few : (n : ℕ) → leb udp_batch_size n ≡ false → n < udp_batch_size
    few n h = ground arith

    full_queue : (n : ℕ) → leb udp_batch_size n ≡ true → udp_batch_size ≤ n
    full_queue n h = ground arith

    after : Sender
    after = record (sender_flush s) { items = (sender_flush s).items ++ (item ∷ []) }

    flushed_before :
        length packet ≤ max_datagram_size
        → udp_batch_size ≤ length s.items
        → IsSender after
          × (((max_datagram_size < length packet) × (after ≡ s))
              ⊎ ((length packet ≤ max_datagram_size) × IsQueued s item after))
    flushed_before fits crowded =
        let (emptied, handed, whole, uniform) = sender_flush_lem s in
        let alone : (sender_flush s).items ++ (item ∷ []) ≡ item ∷ [] = rw emptied refl in
        (
          record { bounded = rw alone (omega arith); packets_fit = rw alone (fits, tt) },
          inr (fits, (ap₂ ◌++◌ (sender_flush-given s) alone, inr (crowded, alone))),
        )

-- The number of messages that the kernel says it took before it failed or took none.
abbrev pub taken_count : List Answer → ℕ
taken_count [] = 0
taken_count (interrupted ∷ answers) = taken_count answers
taken_count (refused ∷ answers) = 0
taken_count (accepted n ∷ answers) =
    let later = taken_count answers in if n == 0 then 0 else n + later

take-none : (n : ℕ) → take {A = SendItem} n [] ≡ []
take-none zero = refl
take-none (suc n) = refl

take_from_drop :
    (n m k : ℕ) (items : List SendItem)
    → k ≡ n + m
    → take n items ++ take m (drop n items) ≡ take k items
take_from_drop zero m k items h = let same : m ≡ k = omega arith in ap (λ j. take j items) same
take_from_drop (suc n) m zero items h = absurd (omega arith)
take_from_drop (suc n) m (suc k) [] h = take-none m
take_from_drop (suc n) m (suc k) (item ∷ items) h =
    ap (λ t. item ∷ t) (take_from_drop n m k items (omega arith))

-- Whatever the kernel answers to the calls for a run, interruptions included, it gets the front of the
-- run, each datagram once and in order, and as many as it says it took before it first failed or took
-- none. What it leaves of a run is not sent again.
pub send_run-take :
    (answers : List Answer) (items : List SendItem)
    → send_run answers items ≡ take (taken_count answers) items
unfolding send_run
send_run-take answers [] = sym (take-none (taken_count answers))
send_run-take [] (item ∷ items) = refl
send_run-take (interrupted ∷ answers) (item ∷ items) = send_run-take answers (item ∷ items)
send_run-take (refused ∷ answers) (item ∷ items) = refl
send_run-take (accepted n ∷ answers) (item ∷ items) = elim (Bool-cases (n == 0)) [
  | inl none_sent ↦ rw none_sent refl
  | inr sent ↦
      rw (sent, send_run-take answers (drop n (item ∷ items)))
        (take_from_drop n (taken_count answers) _ (item ∷ items) refl)
]
