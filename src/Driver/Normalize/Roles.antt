-- ===== src/Driver/Normalize/Roles.antt =====
-- Whatever a callback reports, the driver sees a code of the callback's role.
use max.Prelude.{
  ◌≡◌, refl, ◌⊎◌, inl, inr, Bool, true, false, Option, none, some, String, pos, ◌||◌, arith,
}
use max.Status.{
  Error, invalid_state, bus_lock_timeout, bus_lock_failed, chip_select_failed, spi_transfer_failed,
  gpio_failed, code_number, same_code, Failure, err, Status,
}
use max.Status.Codes.{same_code-eq, same_code-true}
use mathlib.Core.Bool.{false≢true}
use max.Driver.Normalize.{
  promote, or_message, keep_or, normalize_lock_status, normalize_chip_select_status,
  normalize_required_deassert_status, normalize_transfer_status, normalize_gpio_status,
}

-- The failure keeps its code and detail, and the code is one that the callback documents; or the
-- code is not, the failure has the role's own code, and its detail is the number of the code that
-- the callback gave. It has a message.
pub record InRole (f : Failure) (role : Error) (documented : Error → Type 0) (status : Status)
    : Type 0 where
  pub failure : Failure
  pub is_failure : status ≡ err failure
  pub code :
      ((failure.code ≡ f.code) × (failure.detail ≡ f.detail) × documented f.code)
      ⊎ ((failure.code ≡ role)
          × (failure.detail ≡ pos (code_number f.code))
          × (documented f.code → ⊥))
  pub message : (m : String) × (failure.msg ≡ some m)

or_message-some :
    (msg : Option String) (fallback : String) → (m : String) × (or_message msg fallback ≡ some m)
or_message-some none fallback = (fallback, refl)
or_message-some (some m) fallback = (m, refl)

keep_or-InRole :
    (keep : Bool) (role : Error) (fallback : String) (f : Failure) (documented : Error → Type 0)
    → (keep ≡ true → documented f.code)
    → (documented f.code → keep ≡ true)
    → InRole f role documented (keep_or keep role fallback f)
keep_or-InRole true role fallback f documented h k = record {
  failure = record { code = f.code; msg = or_message f.msg fallback; detail = f.detail };
  is_failure = refl;
  code = inl (refl, refl, h refl);
  message = or_message-some f.msg fallback;
}
keep_or-InRole false role fallback f documented h k = record {
  failure = record { code = role; msg = some fallback; detail = pos (code_number f.code) };
  is_failure = refl;
  code = inr (refl, refl, λ d. false≢true (k d));
  message = (fallback, refl);
}

or_true : (a b : Bool) → (a || b) ≡ true → (a ≡ true) ⊎ (b ≡ true)
or_true true b h = inl refl
or_true false b h = inr h

either_code : (a b c : Error) → (same_code a b || same_code a c) ≡ true → (a ≡ b) ⊎ (a ≡ c)
either_code a b c h = elim (or_true _ _ h) [
  | inl e ↦ inl (same_code-eq a b e)
  | inr e ↦ inr (same_code-eq a c e)
]

true_or : (a b : Bool) → (a ≡ true) ⊎ (b ≡ true) → (a || b) ≡ true
true_or a b h = ground arith

code_either : (a b c : Error) → (a ≡ b) ⊎ (a ≡ c) → (same_code a b || same_code a c) ≡ true
code_either a b c (inl e) = true_or _ _ (inl (same_code-true a b e))
code_either a b c (inr e) = true_or _ _ (inr (same_code-true a c e))

abbrev pub IsLockCode : Error → Type 0
IsLockCode c = (c ≡ invalid_state) ⊎ ((c ≡ bus_lock_timeout) ⊎ (c ≡ bus_lock_failed))

-- A failed lock is seen with `InvalidState`, `BusLockTimeout` or `BusLockFailed`.
pub normalize_lock_status-InRole :
    (f : Failure) → InRole f bus_lock_failed IsLockCode (normalize_lock_status (some f))
unfolding normalize_lock_status
normalize_lock_status-InRole f = keep_or-InRole _ bus_lock_failed _ f IsLockCode kept keeping
  where
    kept :
        (same_code f.code invalid_state
            || same_code f.code bus_lock_timeout
            || same_code f.code bus_lock_failed)
          ≡ true
        → IsLockCode f.code
    kept h = elim (or_true _ (same_code f.code bus_lock_failed) h) [
      | inl e ↦ ground (arith, either_code f.code invalid_state bus_lock_timeout e)
      | inr e ↦ inr (inr (same_code-eq _ _ e))
    ]

    keeping :
        IsLockCode f.code
        → (same_code f.code invalid_state
            || same_code f.code bus_lock_timeout
            || same_code f.code bus_lock_failed)
          ≡ true
    keeping (inl e) = true_or _ _ (inl (code_either f.code invalid_state bus_lock_timeout (inl e)))
    keeping (inr (inl e)) =
        true_or _ _ (inl (code_either f.code invalid_state bus_lock_timeout (inr e)))
    keeping (inr (inr e)) = true_or _ _ (inr (same_code-true f.code bus_lock_failed e))

-- A failed chip select is seen with `InvalidState` or `ChipSelectFailed`.
pub normalize_chip_select_status-InRole :
    (f : Failure)
    → InRole f chip_select_failed
        (λ c. (c ≡ invalid_state) ⊎ (c ≡ chip_select_failed))
        (normalize_chip_select_status (some f))
unfolding normalize_chip_select_status
normalize_chip_select_status-InRole f =
    keep_or-InRole _ _ _ f _ (either_code _ _ _) (code_either _ _ _)

-- A failed transfer is seen with `InvalidState` or `SpiTransferFailed`.
normalize_transfer_status-InRole :
    (f : Failure)
    → InRole f spi_transfer_failed
        (λ c. (c ≡ invalid_state) ⊎ (c ≡ spi_transfer_failed))
        (normalize_transfer_status (some f))
unfolding normalize_transfer_status
normalize_transfer_status-InRole f =
    keep_or-InRole _ _ _ f _ (either_code _ _ _) (code_either _ _ _)

-- A failed pin read is seen with `InvalidState` or `GpioFailed`.
normalize_gpio_status-InRole :
    (f : Failure)
    → InRole f gpio_failed
        (λ c. (c ≡ invalid_state) ⊎ (c ≡ gpio_failed))
        (normalize_gpio_status (some f))
unfolding normalize_gpio_status
normalize_gpio_status-InRole f = keep_or-InRole _ _ _ f _ (either_code _ _ _) (code_either _ _ _)

-- A failed lock, chip select, transfer or pin read keeps its code and detail if the code is one
-- that its callback documents; any other is seen as the failure of its callback, with the code's
-- number as its detail; it has a message.
pub normalize-InRole :
    (f : Failure)
    → InRole f bus_lock_failed IsLockCode (normalize_lock_status (some f))
      × InRole f chip_select_failed
          (λ c. (c ≡ invalid_state) ⊎ (c ≡ chip_select_failed))
          (normalize_chip_select_status (some f))
      × InRole f spi_transfer_failed
          (λ c. (c ≡ invalid_state) ⊎ (c ≡ spi_transfer_failed))
          (normalize_transfer_status (some f))
      × InRole f gpio_failed
          (λ c. (c ≡ invalid_state) ⊎ (c ≡ gpio_failed))
          (normalize_gpio_status (some f))
normalize-InRole f = (
  normalize_lock_status-InRole f,
  normalize_chip_select_status-InRole f,
  normalize_transfer_status-InRole f,
  normalize_gpio_status-InRole f,
)

promote_lem :
    (msg : Option String) (g : Failure)
    → ((g.code ≡ invalid_state) ⊎ (g.code ≡ chip_select_failed))
    → (m : String) × (g.msg ≡ some m)
    → (r : Failure) × (promote msg (err g) ≡ err r)
      × (r.code ≡ chip_select_failed)
      × ((m : String) × (r.msg ≡ some m))
promote_lem msg g (inl e) m = (
  record {
    code = chip_select_failed;
    msg = or_message msg "chip-select deassert precondition failed";
    detail = pos (code_number invalid_state);
  },
  rw e,
  refl,
  or_message-some msg _,
)
promote_lem msg g (inr e) m = (g, rw e, e, m)

-- A failed deassertion that is required is always seen as `ChipSelectFailed`, with a message.
pub normalize_required_deassert_status_lem :
    (f : Failure)
    → (g : Failure) × (normalize_required_deassert_status (some f) ≡ err g)
      × (g.code ≡ chip_select_failed)
      × ((m : String) × (g.msg ≡ some m))
unfolding normalize_required_deassert_status
normalize_required_deassert_status_lem f =
    let r = normalize_chip_select_status-InRole f in
    rw r.is_failure (promote_lem f.msg r.failure (in_role r) r.message)
  where
    in_role :
        (r : InRole f chip_select_failed
          (λ c. (c ≡ invalid_state) ⊎ (c ≡ chip_select_failed))
          (normalize_chip_select_status (some f)))
        → (r.failure.code ≡ invalid_state) ⊎ (r.failure.code ≡ chip_select_failed)
    in_role r = ground (arith, r.code)
