-- ===== src/Error.antt =====
-- core/src/lib.rs: the error type, and `Result` with the monad that `?` is.
use rabaska.Prelude.{ℕ, ◌≡◌, ◌≢◌, ◌⊎◌, inl, inr, refl, Bool, true, false}

pub data Error : Type 0 where
  truncated : ℕ → ℕ → Error
  bad_magic : Error
  bad_version : ℕ → Error
  bad_frame_type : ℕ → Error
  bad_mode : ℕ → Error
  bad_crc : ℕ → ℕ → Error
  foreign_session : Error
  auth_failed : Error
  length_mismatch : ℕ → ℕ → Error
  decompress : Error
  missing_identity : Error

-- `panic` is no Rust value: it is where the code would panic.
pub data Result {ℓ} (A : Type ℓ) : Type ℓ where
  ok : A → Result A
  err : Error → Result A
  panic : Result A

infixl 5 ◌>>=◌
abbrev pub ◌>>=◌ {ℓ κ} : {X : Type ℓ} → {Y : Type κ} → Result X → (X → Result Y) → Result Y
panic >>= k = panic
err code >>= k = err code
ok x >>= k = k x

-- `if !test { return Err(e) }`
abbrev pub ensure : Bool → Error → Result (Unit {0})
ensure false code = err code
ensure true code = ok tt

infixl 5 ◌>>◌
abbrev pub ◌>>◌ {ℓ} : {Y : Type ℓ} → Result (Unit {0}) → Result Y → Result Y
first >> second = first >>= λ _. second

-- What a bind that panicked ran before, if its first part did not.
pub >>=-eq-panic {ℓ κ} :
    {X : Type ℓ}
    → {Y : Type κ} → (r : Result X) → (k : X → Result Y) → r ≢ panic
    → (r >>= k) ≡ panic
    → (x : X) × (r ≡ ok x) × (k x ≡ panic)
>>=-eq-panic panic k ne h = absurd (ne refl)
>>=-eq-panic (err code) k ne h = cc
>>=-eq-panic (ok x) k ne h = (x, refl, h)

-- What a bind that returned ran before.
pub >>=-eq-ok {ℓ κ} :
    {X : Type ℓ}
    → {Y : Type κ} → (r : Result X) → (k : X → Result Y) → {y : Y} → (r >>= k) ≡ ok y
    → (x : X) × (r ≡ ok x) × (k x ≡ ok y)
>>=-eq-ok panic k h = cc
>>=-eq-ok (err code) k h = cc
>>=-eq-ok (ok x) k h = (x, refl, h)

-- A test in front of a computation does not show where that returns, nor where it panics.
pub ensure-ok {ℓ} :
    {A : Type ℓ} (b : Bool) (e : Error) (m : Result A) {a : A} → (ensure b e >> m) ≡ ok a → m ≡ ok a
ensure-ok true e m h = h
ensure-ok false e m h = cc

pub ensure-panic {ℓ} :
    {A : Type ℓ} (b : Bool) (e : Error) (m : Result A) → (ensure b e >> m) ≡ panic → m ≡ panic
ensure-panic true e m h = h
ensure-panic false e m h = cc

pub ok_injective {ℓ} : {A : Type ℓ} {x y : A} → ok x ≡ ok y → x ≡ y
ok_injective h = cc

pub Result-cases {ℓ} :
    {X : Type ℓ} (r : Result X) → (r ≡ panic) ⊎ ((e : Error) × (r ≡ err e)) ⊎ ((x : X) × (r ≡ ok x))
Result-cases panic = inl refl
Result-cases (err e) = inr (inl (e, refl))
Result-cases (ok x) = inr (inr (x, refl))
