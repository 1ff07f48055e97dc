-- ===== src/Common/Results.antt =====
-- The result of code that returns a value or throws, with the exceptions of the sources.
use Prim.Native.Nat.{ℕ}
use Prim.Native.String.{String}
use mathlib.Core.Path.{◌≡◌, refl}
use mathlib.Core.Logic.{◌⊎◌, inl, inr, ◌≢◌}
use mathlib.Core.Bool.{Bool, true, false}
use mathlib.Core.Option.{Option, none, some}

-- `bad_data_item_id` and its like are the exception classes of ProtocolConfig.h; the last three are
-- those of ProtocolMessage.h. Of the text of an exception its subject is kept.
pub data Error : Type 0 where
  invalid_argument length_error out_of_range bad_cast : Error
  bad_data_item_id bad_signal_id bad_status_code_id : ℕ → Error
  bad_data_item_name bad_signal_name bad_status_code_name bad_module_name : String → Error
  signal_id_not_initialized : Error
  data_item_wrong_type data_item_not_present : String → Error

-- `stuck` is no result of the program: a loop of the model ran out of fuel.
pub data Result {ℓ} (A : Type ℓ) : Type ℓ where
  ok : A → Result A
  err : Error → Result A
  stuck : Result A

infixl 5 ◌>>=◌ ◌>>◌
abbrev pub ◌>>=◌ {ℓ κ} : {A : Type ℓ} {B : Type κ} → Result A → (A → Result B) → Result B
stuck >>= next = stuck
err why >>= next = err why
ok value >>= next = next value

abbrev pub or_throw {ℓ} : {A : Type ℓ} → Option A → Error → Result A
or_throw none why = err why
or_throw (some value) why = ok value

-- `if (! b) throw why;`
abbrev pub guard : Bool → Error → Result (Unit {0})
guard false why = err why
guard true why = ok tt

abbrev pub ◌>>◌ {ℓ} : {B : Type ℓ} → Result (Unit {0}) → Result B → Result B
check >> next = check >>= λ _. next

-- A bind runs out of fuel only if one of its parts does.
pub >>=-ne-stuck {ℓ κ} :
    {A : Type ℓ} {B : Type κ} (m : Result A) (f : A → Result B)
    → m ≢ stuck
    → ((a : A) → m ≡ ok a → f a ≢ stuck)
    → (m >>= f) ≢ stuck
>>=-ne-stuck (ok a) f hm hf = hf a refl
>>=-ne-stuck (err e) f hm hf = λ p. cc
>>=-ne-stuck stuck f hm hf = absurd (hm refl)

pub Result-cases {ℓ} :
    {A : Type ℓ} (r : Result A)
    → ((value : A) × (r ≡ ok value)) ⊎ ((why : Error) × (r ≡ err why)) ⊎ (r ≡ stuck)
Result-cases (ok a) = inl (a, refl)
Result-cases (err e) = inr (inl (e, refl))
Result-cases stuck = inr (inr refl)

-- A bind that succeeded, for the rest of a proof: the value is then a variable of it.
pub >>=-elim {ℓ κ μ} :
    {A : Type ℓ} {B : Type κ} {C : Type μ} (m : Result A) (f : A → Result B) {b : B}
    → (m >>= f) ≡ ok b
    → ((a : A) → m ≡ ok a → f a ≡ ok b → C)
    → C
>>=-elim (ok a) f h k = k a refl h
>>=-elim (err e) f h k = absurd (cc h)
>>=-elim stuck f h k = absurd (cc h)

pub guard->>-elim {ℓ μ} :
    {A : Type ℓ} {C : Type μ} (b : Bool) (e : Error) (m : Result A) {a : A}
    → (guard b e >> m) ≡ ok a
    → (b ≡ true → m ≡ ok a → C)
    → C
guard->>-elim true e m h k = k refl h
guard->>-elim false e m h k = absurd (cc h)

pub ok-injective {ℓ} : {A : Type ℓ} {a b : A} → ok a ≡ ok b → a ≡ b
ok-injective h = cc

-- The same as a value.
module _ {ℓ κ} {A : Type ℓ} {B : Type κ} (run : Result A) (next : A → Result B) where
  pub >>=-eq-ok :
      {last : B}
      → (run >>= next) ≡ ok last
      → (value : A) × (run ≡ ok value) × (next value ≡ ok last)
  >>=-eq-ok h = >>=-elim run next h (λ value first rest. (value, first, rest))
