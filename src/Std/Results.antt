-- ===== src/Std/Results.antt =====
-- Go's `error` values and the pair `(value, error)` that a fallible call returns.
use wireproxy_homerun.Prelude.{arith, Bool, false, List, ℕ, ◌++◌, ◌≡◌, refl, ◌⊎◌, inl, inr}

-- What the code observes of an error: its message, whether `errors.Is(err, net.ErrClosed)`,
-- and whether it is a `net.Error` whose `Timeout()` is true.
pub record Error : Type 0 where
  pub message : List ℕ
  pub is_closed : Bool
  pub is_timeout : Bool

-- errors.New
unfoldable pub new_error : List ℕ → Error
new_error m = record { message = m; is_closed = false; is_timeout = false }

-- fmt.Errorf("<prefix>%w", err): the chain keeps what it wraps, the value is no `net.Error`.
unfoldable pub errorf : List ℕ → Error → Error
errorf prefix e = record {
  message = prefix ++ e.message;
  is_closed = e.is_closed;
  is_timeout = false;
}

pub data Result {ℓ} (A : Type ℓ) : Type ℓ where
  ok : A → Result A
  err : Error → Result A

pub Result-cases {ℓ} :
    {A : Type ℓ} (r : Result A) → ((a : A) × (r ≡ ok a)) ⊎ ((e : Error) × (r ≡ err e))
Result-cases (ok a) = inl (a, refl)
Result-cases (err e) = inr (e, refl)

infixl 5 ◌>>=◌
abbrev pub ◌>>=◌ {ℓ κ} : {X : Type ℓ} {Y : Type κ} → Result X → (X → Result Y) → Result Y
ok x >>= next = next x
err failure >>= next = err failure

-- A chain that succeeds got through its first call.
pub >>=-eq-ok {ℓ κ} :
    {X : Type ℓ} {Y : Type κ} (first : Result X) (next : X → Result Y) {y : Y}
    → (first >>= next) ≡ ok y
    → (x : X) × (first ≡ ok x) × (next x ≡ ok y)
>>=-eq-ok (ok x) next h = (x, refl, h)
>>=-eq-ok (err failure) next h = cc

pub ok-injective {ℓ} : {A : Type ℓ} {a b : A} → ok a ≡ ok b → a ≡ b
ok-injective h = ground arith
