-- ===== src/Tls/Hostname/Labels.antt =====
-- The host names that `valid_hostname` accepts, described by their labels.
use quic_sni_router.Base.{
  ℕ, suc, ◌+◌, ◌-◌, ◌≡◌, refl, ◌∙◌, inl, inr, Bool, true, false, not, ◌&&◌, ◌||◌, some, List, [],
  ◌∷◌, ◌++◌, arith, ltb, leb, ◌==◌, if◌then◌else◌, Bool-cases, length, get_elem?, get_or,
  length-append, get_or_of_get_elem?,
}
use quic_sni_router.Tls.Hostname.{is_alnum, hostname_loop, max_hostname_len, valid_hostname}

-- A letter, a digit or a hyphen.
abbrev pub is_ldh : ℕ → Bool
is_ldh c = is_alnum c || c == b'-'

abbrev pub all_ldh : List ℕ → Bool
all_ldh [] = true
all_ldh (c ∷ cs) = is_ldh c && all_ldh cs

-- What a label may begin with: only letters, digits and hyphens, and no hyphen first.
abbrev pub is_start : List ℕ → Bool
is_start label = all_ldh label && not (get_or label 0 0 == b'-')

-- A label of 1 to 63 letters, digits and hyphens, with no hyphen at either end.
abbrev pub is_label : List ℕ → Bool
is_label label =
    is_start label
    && (ltb 0 (length label)
        && (leb (length label) 63 && not (get_or label (length label - 1) 0 == b'-')))

-- The labels of a name behind the part `label` of the first, all of which must be labels.
abbrev pub all_labels : List ℕ → List ℕ → Bool
all_labels label [] = is_label label
all_labels label (c ∷ rest) =
    let later = all_labels [] rest in
    let longer = all_labels (label ++ (c ∷ [])) rest in
    if c == b'.' then is_label label && later else longer

all_ldh-append : (xs ys : List ℕ) → all_ldh (xs ++ ys) ≡ (all_ldh xs && all_ldh ys)
all_ldh-append [] ys = refl
all_ldh-append (x ∷ xs) ys = rw (all_ldh-append xs ys) (ground arith)

last-append : (xs : List ℕ) (c : ℕ) → get_or (xs ++ (c ∷ [])) (length (xs ++ (c ∷ [])) - 1) 0 ≡ c
last-append xs c = get_or_of_get_elem? (xs ++ (c ∷ [])) _ 0 (last_at xs)
  where
    last_at : (ys : List ℕ) → get_elem? (ys ++ (c ∷ [])) (length (ys ++ (c ∷ [])) - 1) ≡ some c
    last_at [] = refl
    last_at (y ∷ []) = refl
    last_at (y ∷ z ∷ ys) =
        let e : length (y ∷ z ∷ ys ++ (c ∷ [])) - 1 ≡ suc (length (z ∷ ys ++ (c ∷ [])) - 1) =
          omega arith in
        rw e (last_at (z ∷ ys))

is_start-append :
    (label : List ℕ) (c : ℕ)
    → is_start (label ++ (c ∷ []))
      ≡ (is_start label && (is_ldh c && not (length label == 0 && c == b'-')))
is_start-append [] c = ground arith
is_start-append (x ∷ label) c = rw all_ldh-append (ground arith)

-- A part that is no beginning of a label spoils the name.
not_start : (label rest : List ℕ) → is_start label ≡ false → all_labels label rest ≡ false
not_start label [] h = rw h
not_start label (c ∷ rest) h =
    let longer : all_labels (label ++ (c ∷ [])) rest ≡ false =
      not_start (label ++ (c ∷ [])) rest (is_start-append label c ∙ rw h) in
    rw (h, longer) (ground arith)

-- At the start of a label the byte before does not matter.
prev_unused : (p q : ℕ) (rest : List ℕ) → hostname_loop p 0 rest ≡ hostname_loop q 0 rest
unfolding hostname_loop
prev_unused p q [] = refl
prev_unused p q (c ∷ rest) = refl

-- The loop, behind a part `label` of a label: its two numbers are the part's last byte and length.
hostname_loop-labels :
    (label rest : List ℕ)
    → is_start label ≡ true
    → hostname_loop (get_or label (length label - 1) 0) (length label) rest ≡ all_labels label rest
unfolding hostname_loop
hostname_loop-labels label [] h = rw h
hostname_loop-labels label (c ∷ rest) h = elim (Bool-cases (c == b'.')) [
  | inl dot ↦ ground (arith, hostname_loop-labels [] rest refl, prev_unused c 0 rest)
  | inr other ↦ elim (Bool-cases (is_ldh c && not (length label == 0 && c == b'-'))) [
    | inl fits ↦
        let start : is_start (label ++ (c ∷ [])) ≡ true = is_start-append label c ∙ rw (h, fits) in
        let later = hostname_loop-labels (label ++ (c ∷ [])) rest start in
        let last : get_or (label ++ (c ∷ [])) (length (label ++ (c ∷ [])) - 1) 0 ≡ c =
          last-append label c in
        let size : length (label ++ (c ∷ [])) ≡ length label + 1 = length-append label (c ∷ []) in
        let step : hostname_loop c (length label + 1) rest ≡ all_labels (label ++ (c ∷ [])) rest =
          rw (last, size) at later in
        ground (arith, step)
    | inr spoils ↦
        let bad : all_labels (label ++ (c ∷ [])) rest ≡ false =
          not_start (label ++ (c ∷ [])) rest (is_start-append label c ∙ rw (h, spoils)) in
        ground (arith, bad)
  ]
]

-- A name that ends in a dot has an empty last label.
last_dot :
    (label : List ℕ) (c : ℕ) (rest : List ℕ)
    → get_or (c ∷ rest) (length rest) 0 ≡ b'.'
    → all_labels label (c ∷ rest) ≡ false
last_dot label c [] h = ground arith
last_dot label c (d ∷ rest) h =
    ground (arith, last_dot [] d rest h, last_dot (label ++ (c ∷ [])) d rest h)

dots_at_ends :
    (name : List ℕ)
    → (get_or name 0 0 == b'.' || get_or name (length name - 1) 0 == b'.') ≡ true
    → all_labels [] name ≡ false
dots_at_ends [] h = refl
dots_at_ends (c ∷ rest) h =
    let e : suc (length rest) - 1 ≡ length rest = omega arith in
    let h' : (c == b'.' || get_or (c ∷ rest) (length rest) 0 == b'.') ≡ true = rw (← e) h in
    elim (Bool-cases (c == b'.')) [
      | inl dot ↦ rw dot
      | inr other ↦ last_dot [] c rest (ground arith)
    ]

-- `valid_hostname` accepts exactly the names of at most 255 bytes whose parts between dots are all
-- labels: 1 to 63 letters, digits and hyphens, with no hyphen at either end.
pub valid_hostname-labels :
    (name : List ℕ)
    → valid_hostname name ≡ (leb (length name) max_hostname_len && all_labels [] name)
unfolding valid_hostname
valid_hostname-labels [] = refl
valid_hostname-labels (c ∷ rest) =
    ground (arith, dots_at_ends (c ∷ rest), hostname_loop-labels [] (c ∷ rest) refl)
