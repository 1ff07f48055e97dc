-- ===== src/DataItem/Occurrences.antt =====
-- DataItem.cpp: DataItem::validate_occurrences() accepts exactly the data items that the
-- configuration allows.
use ll_dlep.Common.{
  ℕ, suc, ◌+◌, ◌^◌, ◌≤◌, ◌<◌, String, ◌≡◌, refl, sym, ◌∙◌, inl, inr, Bool, true, false, ◌||◌,
  Option, none, some, List, [], ◌∷◌, arith, ◌==◌, if◌then◌else◌, ==→eq, Bool-cases, Option-cases,
  length, All, ok, >>=-elim,
}
use ll_dlep.DataItem.Types.{SubDataItem, DataItemInfo, DataItem}
use ll_dlep.DataItem.Validate.{
  Problem, Occurrences, count_one, count_all, occurs_actual, erase, check_occurs, check_all,
  name_unexpected, check_left, validate_occurrences,
}
use ll_dlep.ProtocolConfig.{ProtocolConfig}
use mathlib.Core.Logic.{◌↔◌}
use text.Mathlib.TextEquality.{eq_iff}

-- How often an id occurs.
abbrev pub count : ℕ → List DataItem → ℕ
count id [] = 0
count id (di ∷ dis) = (if di.id == id then 1 else 0) + count id dis

-- What an `occurs` text asks of a number.
pub record Allows (occurs : String) (n : ℕ) : Type 0 where
  pub one : occurs ≡ "1" → n ≡ 1
  pub some_number : occurs ≡ "1+" → 1 ≤ n
  pub at_most_one : occurs ≡ "0-1" → n ≤ 1

abbrev pub is_listed : ℕ → List SubDataItem → Bool
is_listed id [] = false
is_listed id (info ∷ infos) = info.id == id || is_listed id infos

-- No id is listed twice.
abbrev pub HasDistinctIds : List SubDataItem → Type 0
HasDistinctIds [] = Unit {0}
HasDistinctIds (info ∷ infos) = (is_listed info.id infos ≡ false) × HasDistinctIds infos

-- Every data item is listed, and each listed one occurs as often as it may.
abbrev pub Conforms : List DataItem → List SubDataItem → Type 0
Conforms dis infos =
    All (λ di. is_listed di.id infos ≡ true) dis
    × All (λ info. Allows info.occurs (count info.id dis)) infos

check_occurs-Allows :
    (info : SubDataItem) (n : ℕ) → (check_occurs info n ≡ none) ↔ Allows info.occurs n
unfolding check_occurs
check_occurs-Allows info n = (
  λ h. record {
    one = λ e. let h' = rw e at h in ground arith;
    some_number = λ e. let h' = rw e at h in ground arith;
    at_most_one = λ e. let h' = rw e at h in ground arith;
  },
  λ h. ground (arith, eq_iff info.occurs "1", eq_iff info.occurs "1+", eq_iff info.occurs "0-1"),
)

-- The map that the counting loop builds.
occurs_actual-count_one :
    (id j : ℕ) (m : Occurrences)
    → occurs_actual j m + 1 < 2 ^ 32
    → occurs_actual j (count_one id m) ≡ (if id == j then 1 else 0) + occurs_actual j m
unfolding occurs_actual count_one
occurs_actual-count_one id j [] h = ground arith
occurs_actual-count_one id j ((i, n) ∷ m) h = ground (arith, occurs_actual-count_one id j m)

occurs_actual-count_all :
    (j : ℕ) (dis : List DataItem) (m : Occurrences)
    → occurs_actual j m + length dis < 2 ^ 32
    → occurs_actual j (count_all dis m) ≡ count j dis + occurs_actual j m
unfolding count_all
occurs_actual-count_all j [] m h = omega arith
occurs_actual-count_all j (di ∷ dis) m h =
    let step = occurs_actual-count_one di.id j m (omega arith) in
    ground (arith, step, occurs_actual-count_all j dis (count_one di.id m))

-- Every entry of the map counts something.
abbrev IsPositive : Occurrences → Type 0
IsPositive = All (λ o. 0 < o.1)

occurs_actual-erase :
    (id j : ℕ) (m : Occurrences)
    → occurs_actual j (erase id m) ≡ (if id == j then 0 else occurs_actual j m)
unfolding occurs_actual erase
occurs_actual-erase id j [] = ground arith
occurs_actual-erase id j ((i, n) ∷ m) = ground (arith, occurs_actual-erase id j m)

erase-IsPositive : (id : ℕ) (m : Occurrences) → IsPositive m → IsPositive (erase id m)
unfolding erase
erase-IsPositive id [] h = tt
erase-IsPositive id ((i, n) ∷ m) h = ground (arith, erase-IsPositive id m h.1)

-- Every entry counts something, and can count `k` more without wrapping.
abbrev HasRoom : ℕ → Occurrences → Type 0
HasRoom k = All (λ o. (0 < o.1) × (o.1 + k < 2 ^ 32))

count_one-HasRoom :
    (id k : ℕ) (m : Occurrences) → k + 1 < 2 ^ 32 → HasRoom (suc k) m → HasRoom k (count_one id m)
unfolding count_one
count_one-HasRoom id k [] hk h = omega arith
count_one-HasRoom id k ((i, n) ∷ m) hk h =
    ground (arith, count_one-HasRoom id k m hk h.1, weaken m h.1)
  where
    weaken : (m' : Occurrences) → HasRoom (suc k) m' → HasRoom k m'
    weaken [] h' = tt
    weaken (o ∷ m') h' = (omega arith, weaken m' h'.1)

count_all-HasRoom :
    (dis : List DataItem) (m : Occurrences)
    → length dis < 2 ^ 32
    → HasRoom (length dis) m
    → HasRoom 0 (count_all dis m)
unfolding count_all
count_all-HasRoom [] m hl h = h
count_all-HasRoom (di ∷ dis) m hl h =
    count_all-HasRoom dis (count_one di.id m) (omega arith)
      (count_one-HasRoom di.id (length dis) m (omega arith) h)

HasRoom-IsPositive : (m : Occurrences) → HasRoom 0 m → IsPositive m
HasRoom-IsPositive [] h = tt
HasRoom-IsPositive (o ∷ m) h = (h.0.0, HasRoom-IsPositive m h.1)

-- Erasing the entry of one id leaves the numbers of the others.
erase_others :
    (id : ℕ) (infos : List SubDataItem) (m : Occurrences)
    → is_listed id infos ≡ false
    → All (λ info. occurs_actual info.id (erase id m) ≡ occurs_actual info.id m) infos
erase_others id [] m h = tt
erase_others id (info ∷ infos) m h =
    let differ : (id == info.id) ≡ false = ground arith in
    (rw (occurs_actual-erase id info.id m, differ), erase_others id infos m (ground arith))

abbrev AllChecked : List SubDataItem → Occurrences → Type 0
AllChecked infos m = All (λ info. check_occurs info (occurs_actual info.id m) ≡ none) infos

AllChecked-congr :
    (infos : List SubDataItem) (m m' : Occurrences)
    → All (λ info. occurs_actual info.id m' ≡ occurs_actual info.id m) infos
    → AllChecked infos m
    → AllChecked infos m'
AllChecked-congr [] m m' e h = tt
AllChecked-congr (info ∷ infos) m m' e h = (rw e.0 h.0, AllChecked-congr infos m m' e.1 h.1)

AllChecked-congr' :
    (infos : List SubDataItem) (m m' : Occurrences)
    → All (λ info. occurs_actual info.id m' ≡ occurs_actual info.id m) infos
    → AllChecked infos m'
    → AllChecked infos m
AllChecked-congr' [] m m' e h = tt
AllChecked-congr' (info ∷ infos) m m' e h = (rw (sym e.0) h.0, AllChecked-congr' infos m m' e.1 h.1)

-- The loop finds no error exactly when each listed data item occurs as often as it may.
check_all-AllChecked :
    (infos : List SubDataItem) (m : Occurrences)
    → HasDistinctIds infos
    → ((check_all infos m).0 ≡ none) ↔ AllChecked infos m
unfolding check_all
check_all-AllChecked [] m d = (λ h. tt, λ h. refl)
check_all-AllChecked (info ∷ infos) m d =
    let others = erase_others info.id infos m d.0 in
    let ih = check_all-AllChecked infos (erase info.id m) d.1 in
    elim (Option-cases (check_occurs info (occurs_actual info.id m))) [
      | inl good ↦ (
        λ h. (
          good,
          AllChecked-congr' infos m (erase info.id m) others (ih.0 (rw (good, check_all) at h)),
        ),
        λ h. rw (good, check_all) (ih.1 (AllChecked-congr infos m (erase info.id m) others h.1)),
      )
      | inr (p, bad) ↦ (λ h. absurd (cc (rw (bad, check_all) at h)), λ h. absurd (cc (h.0, bad)))
    ]

-- What it leaves.
check_all_left :
    (infos : List SubDataItem) (m : Occurrences) (j : ℕ)
    → (check_all infos m).0 ≡ none
    → occurs_actual j (check_all infos m).1 ≡ (if is_listed j infos then 0 else occurs_actual j m)
unfolding check_all
check_all_left [] m j h = refl
check_all_left (info ∷ infos) m j h =
    ground (arith, check_all_left infos (erase info.id m) j, occurs_actual-erase info.id j m)

check_all-IsPositive :
    (infos : List SubDataItem) (m : Occurrences) → IsPositive m → IsPositive (check_all infos m).1
unfolding check_all
check_all-IsPositive [] m h = h
check_all-IsPositive (info ∷ infos) m h =
    let ih = check_all-IsPositive infos (erase info.id m) (erase-IsPositive info.id m h) in
    elim (Option-cases (check_occurs info (occurs_actual info.id m))) [
      | inl good ↦ rw (good, check_all) ih
      | inr (p, bad) ↦ rw (bad, check_all) (erase-IsPositive info.id m h)
    ]

empty_of_zero : (m : Occurrences) → IsPositive m → ((j : ℕ) → occurs_actual j m ≡ 0) → m ≡ []
unfolding occurs_actual
empty_of_zero [] h z = refl
empty_of_zero ((i, n) ∷ m) h z = let zi = z i in absurd (ground (arith, zi))

All-is_listed :
    (infos : List SubDataItem) (dis : List DataItem)
    → ((j : ℕ) → is_listed j infos ≡ false → count j dis ≡ 0)
    → All (λ di. is_listed di.id infos ≡ true) dis
All-is_listed infos [] z = tt
All-is_listed infos (di ∷ dis) z = (
  elim (Bool-cases (is_listed di.id infos)) [
    | inl listed ↦ listed
    | inr missing ↦ let none_left = z di.id missing in absurd (ground (arith, none_left))
  ],
  All-is_listed infos dis (λ j u. let sum = z j u in omega (arith, sum)),
)

count_unlisted :
    (infos : List SubDataItem) (dis : List DataItem) (j : ℕ)
    → All (λ di. is_listed di.id infos ≡ true) dis
    → is_listed j infos ≡ false
    → count j dis ≡ 0
count_unlisted infos [] j h u = refl
count_unlisted infos (di ∷ dis) j h u = elim (Bool-cases (di.id == j)) [
  | inl same ↦
      let clash : is_listed di.id infos ≡ false = rw (==→eq di.id j same) u in
      absurd (let x : true ≡ false = cc (h.0, clash) in cc x)
  | inr other ↦ rw (other, count_unlisted infos dis j h.1 u)
]

counted_number :
    (j : ℕ) (dis : List DataItem)
    → length dis < 2 ^ 32
    → occurs_actual j (count_all dis []) ≡ count j dis
unfolding occurs_actual
counted_number j dis hl = omega (arith, occurs_actual-count_all j dis [] (omega arith))

-- The checks see the numbers of the data items.
AllChecked-count :
    (infos : List SubDataItem) (dis : List DataItem)
    → length dis < 2 ^ 32
    → (AllChecked infos (count_all dis [])
        → All (λ info. Allows info.occurs (count info.id dis)) infos)
      × (All (λ info. Allows info.occurs (count info.id dis)) infos
          → AllChecked infos (count_all dis []))
AllChecked-count [] dis hl = (λ h. tt, λ h. tt)
AllChecked-count (info ∷ infos) dis hl =
    let same : occurs_actual info.id (count_all dis []) ≡ count info.id dis =
      counted_number info.id dis hl in
    let ih = AllChecked-count infos dis hl in
    (
      λ h. ((check_occurs-Allows info (count info.id dis)).0 (rw same at h.0), ih.0 h.1),
      λ h. (rw same ((check_occurs-Allows info (count info.id dis)).1 h.0), ih.1 h.1),
    )

check_left-none :
    (cfg : ProtocolConfig) (parent : Option DataItemInfo) (p : Option Problem) (m : Occurrences)
    → (check_left cfg parent (p, m) ≡ ok none) ↔ ((p ≡ none) × (m ≡ []))
unfolding check_left
check_left-none cfg parent (some q) m = (λ h. absurd (cc h), λ h. absurd (cc h.0))
check_left-none cfg parent none [] = (λ h. (refl, refl), λ h. refl)
check_left-none cfg parent none (o ∷ m) = (
  λ h. >>=-elim (name_unexpected cfg parent (o ∷ m)) _ h λ us e1 e2. absurd (cc e2),
  λ h. absurd (cc h.1),
)

-- Where no id is listed twice and there are fewer than 2^32 data items, the check of a message's
-- or a data item's contents finds no error exactly when every data item is listed and each listed
-- one occurs as often as its `occurs` text allows.
pub validate_occurrences-Conforms :
    (cfg : ProtocolConfig) (dis : List DataItem) (infos : List SubDataItem)
    (parent : Option DataItemInfo)
    → HasDistinctIds infos
    → length dis < 2 ^ 32
    → (validate_occurrences cfg dis infos parent ≡ ok none) ↔ Conforms dis infos
unfolding validate_occurrences occurs_actual
validate_occurrences-Conforms cfg dis infos parent distinct hl = (sound, complete)
  where
    loop : ((check_all infos (count_all dis [])).0 ≡ none) ↔ AllChecked infos (count_all dis [])
    loop = check_all-AllChecked infos (count_all dis []) distinct

    left :
        (check_all infos (count_all dis [])).0 ≡ none
        → (j : ℕ)
        → occurs_actual j (check_all infos (count_all dis [])).1
          ≡ (if is_listed j infos then 0 else count j dis)
    left h j = rw (check_all_left infos (count_all dis []) j h, counted_number j dis hl)

    positive : IsPositive (check_all infos (count_all dis [])).1
    positive =
        check_all-IsPositive infos (count_all dis [])
          (HasRoom-IsPositive (count_all dis []) (count_all-HasRoom dis [] hl tt))

    sound : validate_occurrences cfg dis infos parent ≡ ok none → Conforms dis infos
    sound h =
        let (no_error, empty) = (check_left-none cfg parent _ _).0 h in
        (
          All-is_listed infos dis (λ j u. sym (rw (empty, u) at (left no_error j))),
          (AllChecked-count infos dis hl).0 (loop.0 no_error),
        )

    complete : Conforms dis infos → validate_occurrences cfg dis infos parent ≡ ok none
    complete h =
        let no_error = loop.1 ((AllChecked-count infos dis hl).1 h.1) in
        (check_left-none cfg parent _ _).1 (
          no_error,
          empty_of_zero _ positive (λ j. elim (Bool-cases (is_listed j infos)) [
            | inl listed ↦ rw listed at (left no_error j)
            | inr missing ↦ rw missing at (left no_error j) ∙ count_unlisted infos dis j h.0 missing
          ]),
        )
