-- ===== src/Common/Maps.antt =====
-- std::map as the list of its entries in key order.
use Prim.Native.Nat.{ℕ}
use Prim.Native.String
use Prim.Native.String.{String}
use Prim.Native.Nat.{Ordering}
use mathlib.Core.Path.{◌≡◌, refl, subst}
use mathlib.Core.Logic.{◌↔◌}
use mathlib.Core.Bool.{Bool, true, false, not, ◌||◌, ◌&&◌}
use mathlib.Core.Option.{Option, none, some}
use mathlib.Core.List.{List, [], ◌∷◌}
use native.Mathlib.Omega.{arith}
use text.Mathlib.Text.{◌==◌ as str_eq}
use text.Mathlib.TextEquality.{eq_iff}
use ll_dlep.Common.Tests.{ltb, ◌==◌, if◌then◌else◌, eq→==, ==→eq, if-elim, if-≡-elim}

-- A key type, by operator== and operator<.
pub record Key {ℓ} (K : Type ℓ) : Type ℓ where
  pub key_eq : K → K → Bool
  pub key_lt : K → K → Bool
  pub key_eq_iff : (a b : K) → (key_eq a b ≡ true) ↔ (a ≡ b)

module _ {ℓ κ} {K : Type ℓ} {V : Type κ} ⦃key : Key K⦄ where
  -- find().
  unfoldable pub map_find : K → List (K × V) → Option V
  map_find k [] = none
  map_find k ((j, v) ∷ m) = if key.key_eq j k then some v else map_find k m

  -- `m[k] = v`.
  unfoldable pub map_insert : K → V → List (K × V) → List (K × V)
  map_insert k v [] = (k, v) ∷ []
  map_insert k v ((j, w) ∷ m) =
      if key.key_eq j k
      then (j, v) ∷ m
      else if key.key_lt k j
      then (k, v) ∷ (j, w) ∷ m
      else (j, w) ∷ map_insert k v m

  -- erase().
  unfoldable pub map_erase : K → List (K × V) → List (K × V)
  map_erase k [] = []
  map_erase k ((j, w) ∷ m) = if key.key_eq j k then map_erase k m else (j, w) ∷ map_erase k m

  -- find(k) != end().
  unfoldable pub map_has : K → List (K × V) → Bool
  map_has k [] = false
  map_has k ((j, w) ∷ m) = key.key_eq j k || map_has k m

  pub map_find-map_insert :
      (k j : K) (v : V) (m : List (K × V))
      → map_find j (map_insert k v m) ≡ (if key.key_eq k j then some v else map_find j m)
  unfolding map_find map_insert
  map_find-map_insert k j v [] = refl
  map_find-map_insert k j v ((i, w) ∷ m) = ground (
    arith,
    key.key_eq_iff i k,
    key.key_eq_iff k j,
    key.key_eq_iff i j,
    map_find-map_insert k j v m,
  )

  pub map_find-map_erase :
      (k j : K) (m : List (K × V))
      → map_find j (map_erase k m) ≡ (if key.key_eq k j then none else map_find j m)
  unfolding map_find map_erase
  map_find-map_erase k j [] = ground arith
  map_find-map_erase k j ((i, w) ∷ m) =
      ground (
        arith,
        key.key_eq_iff i k,
        key.key_eq_iff k j,
        key.key_eq_iff i j,
        map_find-map_erase k j m,
      )

  pub map_has-map_insert :
      (k j : K) (v : V) (m : List (K × V))
      → map_has j (map_insert k v m) ≡ (key.key_eq k j || map_has j m)
  unfolding map_has map_insert
  map_has-map_insert k j v [] = refl
  map_has-map_insert k j v ((i, w) ∷ m) = ground (
    arith,
    key.key_eq_iff i k,
    key.key_eq_iff k j,
    key.key_eq_iff i j,
    map_has-map_insert k j v m,
  )

  pub map_has-map_erase :
      (k j : K) (m : List (K × V)) → map_has j (map_erase k m) ≡ not (key.key_eq k j) && map_has j m
  unfolding map_has map_erase
  map_has-map_erase k j [] = ground arith
  map_has-map_erase k j ((i, w) ∷ m) =
      ground
        (arith, key.key_eq_iff i k, key.key_eq_iff k j, key.key_eq_iff i j, map_has-map_erase k j m)

  pub map_has-map_find :
      (k : K) (m : List (K × V))
      → map_has k m ≡ (elim (map_find k m) [ none ↦ false | some v ↦ true ])
  unfolding map_has map_find
  map_has-map_find k [] = refl
  map_has-map_find k ((i, w) ∷ m) = ground (arith, map_has-map_find k m)

-- A predicate of every value of a map, and what insert and find do with it.
unfoldable pub AllValues {ℓ κ μ} : {K : Type ℓ} {V : Type κ} → (V → Type μ) → List (K × V) → Type μ
AllValues P [] = Unit
AllValues P ((k, v) ∷ m) = P v × AllValues P m

module _ {ℓ κ μ} {K : Type ℓ} {V : Type κ} ⦃key : Key K⦄ (P : V → Type μ) where
  pub map_insert-AllValues :
      (k : K) (v : V) (m : List (K × V)) → P v → AllValues P m → AllValues P (map_insert k v m)
  unfolding map_insert AllValues
  map_insert-AllValues k v [] p h = (p, tt)
  map_insert-AllValues k v ((j, w) ∷ m) p h =
      if-elim (AllValues P) (key.key_eq j k) _ _ (λ _. (p, h.1))
        (λ _.
          if-elim (AllValues P) (key.key_lt k j) _ _ (λ _. (p, h))
            (λ _. (h.0, map_insert-AllValues k v m p h.1)))

  pub map_find-AllValues :
      (k : K) (v : V) (m : List (K × V)) → AllValues P m → map_find k m ≡ some v → P v
  unfolding map_find AllValues
  map_find-AllValues k v [] h e = absurd (cc e)
  map_find-AllValues k v ((j, w) ∷ m) h e =
      if-≡-elim (key.key_eq j k) e (λ _ q. subst P (let x : w ≡ v = cc q in x) h.0)
        (λ _ q. map_find-AllValues k v m h.1 q)

instance abbrev pub nat_key : Key ℕ
nat_key = record { key_eq = ◌==◌; key_lt = ltb; key_eq_iff = λ a b. (==→eq a b, eq→== a b) }

abbrev string_lt : String → String → Bool
string_lt a b = elim (String.compare a b) [ Ordering.lt ↦ true | _ ↦ false ]

instance abbrev pub string_key : Key String
string_key = record { key_eq = str_eq; key_lt = string_lt; key_eq_iff = eq_iff }

-- operator== and operator< of std::vector<uint8_t>.
abbrev pub bytes_eq : List ℕ → List ℕ → Bool
bytes_eq [] [] = true
bytes_eq [] (b ∷ bs) = false
bytes_eq (a ∷ as') [] = false
bytes_eq (a ∷ as') (b ∷ bs) = a == b && bytes_eq as' bs

abbrev pub bytes_lt : List ℕ → List ℕ → Bool
bytes_lt as' [] = false
bytes_lt [] (b ∷ bs) = true
bytes_lt (a ∷ as') (b ∷ bs) = ltb a b || a == b && bytes_lt as' bs

pub bytes_eq_iff : (a b : List ℕ) → (bytes_eq a b ≡ true) ↔ (a ≡ b)
bytes_eq_iff [] [] = (λ h. refl, λ h. refl)
bytes_eq_iff [] (b ∷ bs) = (λ h. absurd (cc h), λ h. absurd (cc h))
bytes_eq_iff (a ∷ as') [] = (λ h. absurd (cc h), λ h. absurd (cc h))
bytes_eq_iff (a ∷ as') (b ∷ bs) =
    (λ h. ground (arith, bytes_eq_iff as' bs), λ h. ground (arith, bytes_eq_iff as' bs))

instance abbrev pub bytes_key : Key (List ℕ)
bytes_key = record { key_eq = bytes_eq; key_lt = bytes_lt; key_eq_iff = bytes_eq_iff }
