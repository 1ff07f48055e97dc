-- ===== src/Peer/Queues.antt =====
-- Peer.cpp: the queues of messages that wait for a response, and what they look like.
use ll_dlep.Common.{
  ℕ, ◌+◌, ◌≤◌, ◌<◌, ◌≡◌, sym, ◌⊎◌, inl, inr, true, some, List, [], ◌∷◌, ◌++◌, arith, All, map_find,
  map_insert, map_erase, nat_key, string_key, bytes_key, if-elim, if-≡-elim,
}
use mathlib.Core.Path.{subst}
use ll_dlep.Peer.State.{ResponsePending}

-- The messages behind the head of a queue for `dest`: none of them was sent, they stand in the
-- order in which they were made, and they were made before `next`.
unfoldable pub AreBehind : List ℕ → ℕ → ℕ → List ResponsePending → Type 0
AreBehind dest next a [] = Unit
AreBehind dest next a (rp ∷ rest) =
    (a < rp.address)
    × (rp.address < next)
    × (rp.queued ≡ true)
    × (rp.destination ≡ dest)
    × (rp.send_tries ≡ 0)
    × AreBehind dest next rp.address rest

-- A queue for `dest`: it is not empty, and its head was sent at most `limit` times.
unfoldable pub IsQueue : ℕ → ℕ → List ℕ → List ResponsePending → Type 0
IsQueue limit next dest [] = ⊥
IsQueue limit next dest (rp ∷ rest) =
    (rp.address < next)
    × (rp.queued ≡ true)
    × (rp.destination ≡ dest)
    × (rp.send_tries ≤ limit)
    × AreBehind dest next rp.address rest

-- All the queues, each for its key.
unfoldable pub AreQueues : ℕ → ℕ → List (List ℕ × List ResponsePending) → Type 0
AreQueues limit next m = All (λ e. IsQueue limit next e.0 e.1) m

AreBehind-mono :
    (dest : List ℕ) (next next' a : ℕ) (q : List ResponsePending)
    → next ≤ next'
    → AreBehind dest next a q
    → AreBehind dest next' a q
unfolding AreBehind
AreBehind-mono dest next next' a [] le h = tt
AreBehind-mono dest next next' a (rp ∷ rest) le (h1, h2, h3, h4, h5, h6) =
    (h1, omega arith, h3, h4, h5, AreBehind-mono dest next next' rp.address rest le h6)

IsQueue-mono :
    (limit next next' : ℕ) (dest : List ℕ) (q : List ResponsePending)
    → next ≤ next'
    → IsQueue limit next dest q
    → IsQueue limit next' dest q
unfolding IsQueue
IsQueue-mono limit next next' dest [] le h = absurd h
IsQueue-mono limit next next' dest (rp ∷ rest) le (h1, h2, h3, h4, h5) =
    (omega arith, h2, h3, h4, AreBehind-mono dest next next' rp.address rest le h5)

pub AreQueues-mono :
    (limit next next' : ℕ) (m : List (List ℕ × List ResponsePending))
    → next ≤ next'
    → AreQueues limit next m
    → AreQueues limit next' m
unfolding AreQueues
AreQueues-mono limit next next' [] le h = tt
AreQueues-mono limit next next' ((k, q) ∷ m) le h =
    (IsQueue-mono limit next next' k q le h.0, AreQueues-mono limit next next' m le h.1)

-- A new message behind the others.
AreBehind-push :
    (dest : List ℕ) (next a : ℕ) (q : List ResponsePending) (rp : ResponsePending)
    → a < next
    → rp.address ≡ next
    → rp.queued ≡ true
    → rp.destination ≡ dest
    → rp.send_tries ≡ 0
    → AreBehind dest next a q
    → AreBehind dest (next + 1) a (q ++ (rp ∷ []))
unfolding AreBehind
AreBehind-push dest next a [] rp lt e1 e2 e3 e4 h = (omega arith, omega arith, e2, e3, e4, tt)
AreBehind-push dest next a (r ∷ rest) rp lt e1 e2 e3 e4 (h1, h2, h3, h4, h5, h6) =
    (h1, omega arith, h3, h4, h5, AreBehind-push dest next r.address rest rp h2 e1 e2 e3 e4 h6)

pub IsQueue-push :
    (limit next : ℕ) (dest : List ℕ) (q : List ResponsePending) (rp : ResponsePending)
    → rp.address ≡ next
    → rp.queued ≡ true
    → rp.destination ≡ dest
    → rp.send_tries ≡ 0
    → (q ≡ []) ⊎ IsQueue limit next dest q
    → IsQueue limit (next + 1) dest (q ++ (rp ∷ []))
unfolding IsQueue AreBehind
IsQueue-push limit next dest [] rp e1 e2 e3 e4 h = (omega arith, e2, e3, omega arith, tt)
IsQueue-push limit next dest (r ∷ rest) rp e1 e2 e3 e4 (inl h) = absurd (cc h)
IsQueue-push limit next dest (r ∷ rest) rp e1 e2 e3 e4 (inr (h1, h2, h3, h4, h5)) =
    (omega arith, h2, h3, h4, AreBehind-push dest next r.address rest rp h1 e1 e2 e3 e4 h5)

-- The head of a queue in a new state: only its time and its count of tries change.
pub IsQueue-head :
    (limit next : ℕ) (dest : List ℕ) (front rp : ResponsePending) (rest : List ResponsePending)
    → rp.address ≡ front.address
    → rp.queued ≡ true
    → rp.destination ≡ dest
    → rp.send_tries ≤ limit
    → IsQueue limit next dest (front ∷ rest)
    → IsQueue limit next dest (rp ∷ rest)
unfolding IsQueue
IsQueue-head limit next dest front rp rest e1 e2 e3 e4 (h1, h2, h3, h4, h5) =
    (omega arith, e2, e3, e4, subst (λ a. AreBehind dest next a rest) (sym e1) h5)

-- What is left of a queue without its head.
pub IsQueue-tail :
    (limit next : ℕ) (dest : List ℕ) (front rp : ResponsePending) (rest : List ResponsePending)
    → IsQueue limit next dest (front ∷ rp ∷ rest)
    → IsQueue limit next dest (rp ∷ rest)
unfolding IsQueue AreBehind
IsQueue-tail limit next dest front rp rest (h1, h2, h3, h4, (k1, k2, k3, k4, k5, k6)) =
    (k2, k3, k4, omega (arith, k5), k6)

-- The message behind the head was not sent yet.
pub second_is_unsent :
    (limit next : ℕ) (dest : List ℕ) (front rp : ResponsePending) (rest : List ResponsePending)
    → IsQueue limit next dest (front ∷ rp ∷ rest)
    → (rp.queued ≡ true) × (rp.send_tries ≡ 0)
unfolding IsQueue AreBehind
second_is_unsent limit next dest front rp rest (h1, h2, h3, h4, (k1, k2, k3, k4, k5, k6)) = (k3, k5)

pub second_is_for :
    (limit next : ℕ) (dest : List ℕ) (front rp : ResponsePending) (rest : List ResponsePending)
    → IsQueue limit next dest (front ∷ rp ∷ rest)
    → rp.destination ≡ dest
unfolding IsQueue AreBehind
second_is_for limit next dest front rp rest (h1, h2, h3, h4, (k1, k2, k3, k4, k5, k6)) = k4

-- What holds of the head.
pub head_is_queued :
    (limit next : ℕ) (dest : List ℕ) (front : ResponsePending) (rest : List ResponsePending)
    → IsQueue limit next dest (front ∷ rest)
    → front.queued ≡ true
unfolding IsQueue
head_is_queued limit next dest front rest h = h.1

-- The operations of the map.
pub map_find-AreQueues :
    (limit next : ℕ) (k : List ℕ) (q : List ResponsePending)
    (m : List (List ℕ × List ResponsePending))
    → AreQueues limit next m
    → map_find k m ≡ some q
    → IsQueue limit next k q
unfolding AreQueues map_find
map_find-AreQueues limit next k q [] h e = absurd (cc e)
map_find-AreQueues limit next k q ((j, w) ∷ m) h e =
    if-≡-elim (bytes_key.key_eq j k) e
      (λ same p.
        subst (λ i. IsQueue limit next i q) ((bytes_key.key_eq_iff j k).0 same)
          (subst (IsQueue limit next j) (let x : w ≡ q = cc p in x) h.0))
      (λ _ p. map_find-AreQueues limit next k q m h.1 p)

pub map_insert-AreQueues :
    (limit next : ℕ) (k : List ℕ) (q : List ResponsePending)
    (m : List (List ℕ × List ResponsePending))
    → IsQueue limit next k q
    → AreQueues limit next m
    → AreQueues limit next (map_insert k q m)
unfolding AreQueues map_insert
map_insert-AreQueues limit next k q [] p h = (p, tt)
map_insert-AreQueues limit next k q ((j, w) ∷ m) p h =
    if-elim (AreQueues limit next) (bytes_key.key_eq j k) _ _
      (λ same.
        (subst (λ i. IsQueue limit next i q) (sym ((bytes_key.key_eq_iff j k).0 same)) p, h.1))
      (λ _.
        if-elim (AreQueues limit next) (bytes_key.key_lt k j) _ _ (λ _. (p, h))
          (λ _. (h.0, map_insert-AreQueues limit next k q m p h.1)))

pub map_erase-AreQueues :
    (limit next : ℕ) (k : List ℕ) (m : List (List ℕ × List ResponsePending))
    → AreQueues limit next m
    → AreQueues limit next (map_erase k m)
unfolding AreQueues map_erase
map_erase-AreQueues limit next k [] h = tt
map_erase-AreQueues limit next k ((j, w) ∷ m) h =
    if-elim (AreQueues limit next) (bytes_key.key_eq j k) _ _
      (λ _. map_erase-AreQueues limit next k m h.1)
      (λ _. (h.0, map_erase-AreQueues limit next k m h.1))
