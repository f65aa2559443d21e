-- ===== src/Base/Outcome.antt =====
-- `qsr_status_t` (include/qsr/common.h) and what a C function that returns it delivers.
use mathlib.Core.Path.{◌≡◌, refl}
use mathlib.Core.Logic.{◌≢◌, ◌⊎◌, inl, inr}
use mathlib.Core.Bool.{Bool, true, false}

-- The error codes of `qsr_status_t`. `QSR_OK` is the `ok` of `Result`.
pub data Status : Type 0 where
  invalid truncated unsupported not_found full : Status

-- `ok` carries the output parameters, `err` a status. `fault` is no value of the program: it is a
-- read or a write outside a buffer, or a loop that the model's fuel does not let finish.
pub data Result {ℓ} (A : Type ℓ) : Type ℓ where
  ok : A → Result A
  err : Status → Result A
  fault : Result A

-- An early return: `if (test) return status;`
abbrev pub reject_if : Bool → Status → Result (Unit {0})
reject_if test status = elim test [ true ↦ err status | false ↦ ok tt ]

-- What stands behind a call that may return early.
module _ {ℓ κ} {A : Type ℓ} {B : Type κ} where
  infixl 5 ◌>>=◌
  abbrev pub ◌>>=◌ : Result A → (A → Result B) → Result B
  fault >>= next = fault
  err status >>= next = err status
  ok value >>= next = next value

infixl 5 ◌>>◌
abbrev pub ◌>>◌ {ℓ} : {B : Type ℓ} → Result (Unit {0}) → Result B → Result B
first >> second = first >>= λ _. second

-- A run that does not fault, and whose value satisfies `P` where there is one.
abbrev pub Safe : {A : Type 0} → (A → Type 0) → Result A → Type 0
Safe P (ok a) = P a
Safe P (err e) = Unit {0}
Safe P fault = ⊥

pub Safe-bind :
    {A B : Type 0} (P : A → Type 0) (Q : B → Type 0) (m : Result A) (f : A → Result B)
    → Safe P m
    → ((a : A) → P a → Safe Q (f a))
    → Safe Q (m >>= f)
Safe-bind P Q (ok a) f h k = k a h
Safe-bind P Q (err e) f h k = tt
Safe-bind P Q fault f h k = elim h [ ]

pub Safe-reject_if :
    {B : Type 0} (Q : B → Type 0) (b : Bool) (e : Status) (m : Result B)
    → (b ≡ false → Safe Q m)
    → Safe Q (reject_if b e >> m)
Safe-reject_if Q true e m h = tt
Safe-reject_if Q false e m h = h refl

pub Safe-weaken :
    {A : Type 0} (P Q : A → Type 0) (m : Result A) → Safe P m → ((a : A) → P a → Q a) → Safe Q m
Safe-weaken P Q (ok a) h k = k a h
Safe-weaken P Q (err e) h k = tt
Safe-weaken P Q fault h k = elim h [ ]

pub Safe-both :
    {A : Type 0} (P Q : A → Type 0) (m : Result A) → Safe P m → Safe Q m → Safe (λ a. P a × Q a) m
Safe-both P Q (ok a) h k = (h, k)
Safe-both P Q (err e) h k = tt
Safe-both P Q fault h k = h

-- What a safe run that returned has established.
pub Safe_ok : {A : Type 0} (P : A → Type 0) (m : Result A) {a : A} → Safe P m → m ≡ ok a → P a
Safe_ok P (ok b) h e = let p : b ≡ _ = cc in rw p at h
Safe_ok P (err s) h e = absurd (cc)
Safe_ok P fault h e = elim h [ ]

pub Safe-ne-fault : {A : Type 0} (P : A → Type 0) (m : Result A) → Safe P m → m ≢ fault
Safe-ne-fault P (ok b) h = λ e. cc
Safe-ne-fault P (err s) h = λ e. cc
Safe-ne-fault P fault h = λ e. h

pub Result-cases :
    {A : Type 0} (m : Result A)
    → ((a : A) × (m ≡ ok a)) ⊎ ((e : Status) × (m ≡ err e)) ⊎ (m ≡ fault)
Result-cases (ok a) = inl (a, refl)
Result-cases (err e) = inr (inl (e, refl))
Result-cases fault = inr (inr refl)

-- What a run that returned has gone through.
pub bind-ok :
    {A B : Type 0} (first : Result A) (next : A → Result B) {final : B}
    → (first >>= next) ≡ ok final
    → (value : A) × (first ≡ ok value) × (next value ≡ ok final)
bind-ok (ok value) next h = (value, refl, h)
bind-ok (err status) next h = cc
bind-ok fault next h = cc

pub reject_if-ok :
    {B : Type 0} (t : Bool) (e : Status) (m : Result B) {b : B}
    → (reject_if t e >> m) ≡ ok b
    → (t ≡ false) × (m ≡ ok b)
reject_if-ok true e m h = cc
reject_if-ok false e m h = (refl, h)
