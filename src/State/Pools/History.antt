-- ===== src/State/Pools/History.antt =====
-- The ring of a pool's rate changes against the list of the last seven of them.
use native.Mathlib.Decide.{ℕ_discrete}
use stendar_l.Base.{
  ℕ, suc, zero, ◌+◌, ◌-◌, ◌≤◌, ◌<◌, ◌≡◌, ◌⊎◌, arith, refl, ◌∙◌, Option, none, some, List, [], ◌∷◌,
  ◌++◌, ltb, ◌==◌, if◌then◌else◌,
}
use stendar_l.Base.Keys.{length}
use stendar_l.State.Pools.{
  RateHistoryEntry, PoolState, rate_history_size, push_rate_history, rate_history_entry_at,
  initialize_rate_history,
}

abbrev pub get_elem? {ℓ} : {A : Type ℓ} → List A → ℕ → Option A
get_elem? [] i = none
get_elem? (x ∷ xs) zero = some x
get_elem? (x ∷ xs) (suc i) = get_elem? xs i

-- The list without its first element.
abbrev pub tail {ℓ} : {A : Type ℓ} → List A → List A
tail [] = []
tail (x ∷ xs) = xs

-- The last seven changes, once another has been made.
pub remember : List RateHistoryEntry → RateHistoryEntry → List RateHistoryEntry
remember xs e = if ltb (length xs) rate_history_size then xs ++ (e ∷ []) else tail (xs ++ (e ∷ []))

-- A ring whose head is where the next change goes: while it is not full, after the last change.
pub record IsRing (p : PoolState) : Type 0 where
  pub head_inside : p.rate_history_head < rate_history_size
  pub len_inside : p.rate_history_len ≤ rate_history_size
  pub next_slot :
      (p.rate_history_len ≡ rate_history_size) ⊎ (p.rate_history_head ≡ p.rate_history_len)

-- A ring that holds the changes of a list, the oldest first.
pub record Holds (p : PoolState) (xs : List RateHistoryEntry) : Type 0 where
  pub ring : IsRing p
  pub size : p.rate_history_len ≡ length xs
  pub entry : (i : ℕ) → rate_history_entry_at p i ≡ get_elem? xs i

pub push-IsRing : (p : PoolState) (e : RateHistoryEntry) → IsRing p → IsRing (push_rate_history p e)
unfolding push_rate_history
push-IsRing p e r = ground arith

-- The entries after a push to a ring that is not full.
entry_before_full :
    (p : PoolState) (e : RateHistoryEntry) (i : ℕ)
    → IsRing p
    → p.rate_history_len < rate_history_size
    → rate_history_entry_at (push_rate_history p e) i
      ≡ (if i == p.rate_history_len then some e else rate_history_entry_at p i)
unfolding push_rate_history rate_history_entry_at
entry_before_full p e i r h = ground arith

-- The entries after a push to a full ring.
entry_when_full :
    (p : PoolState) (e : RateHistoryEntry) (i : ℕ)
    → IsRing p
    → p.rate_history_len ≡ rate_history_size
    → rate_history_entry_at (push_rate_history p e) i
      ≡ (if i == 6 then some e else rate_history_entry_at p (i + 1))
unfolding push_rate_history rate_history_entry_at
entry_when_full p e i r h = ground arith

length-snoc : {A : Type 0} (xs : List A) (x : A) → length (xs ++ (x ∷ [])) ≡ length xs + 1
length-snoc [] x = refl
length-snoc (y ∷ ys) x = omega (arith, length-snoc ys x)

get_elem?-snoc :
    {A : Type 0} (xs : List A) (x : A) (i : ℕ)
    → get_elem? (xs ++ (x ∷ [])) i ≡ (if i == length xs then some x else get_elem? xs i)
get_elem?-snoc [] x zero = refl
get_elem?-snoc [] x (suc i) = ground arith
get_elem?-snoc (y ∷ ys) x zero = ground arith
get_elem?-snoc (y ∷ ys) x (suc i) = ground (arith, get_elem?-snoc ys x i)

get_elem?-tail : {A : Type 0} (xs : List A) (i : ℕ) → get_elem? (tail xs) i ≡ get_elem? xs (i + 1)
get_elem?-tail [] i = refl
get_elem?-tail (x ∷ xs) i = ground arith

length-tail : {A : Type 0} (xs : List A) → length (tail xs) ≡ length xs - 1
length-tail [] = refl
length-tail (x ∷ xs) = omega arith

pushed_entry :
    (p : PoolState) (xs : List RateHistoryEntry) (e : RateHistoryEntry) (i : ℕ)
    → Holds p xs
    → rate_history_entry_at (push_rate_history p e) i ≡ get_elem? (remember xs e) i
unfolding remember
pushed_entry p xs e i h = elim (ℕ_discrete (length xs) 7) [
  | yes full ↦
      let slid = get_elem?-tail (xs ++ (e ∷ [])) i in
      let stored = get_elem?-snoc xs e (i + 1) in
      let found = entry_when_full p e i h.ring (h.size ∙ full) in
      let kept = h.entry (i + 1) in ground arith
  | no room ↦
      let stored = get_elem?-snoc xs e i in
      let found = entry_before_full p e i h.ring (omega (arith, h.size, h.ring.len_inside)) in
      let kept = h.entry i in
      let within : length xs < 7 = omega (arith, h.size, h.ring.len_inside) in ground arith
]

pushed_size :
    (p : PoolState) (xs : List RateHistoryEntry) (e : RateHistoryEntry)
    → Holds p xs
    → (push_rate_history p e).rate_history_len ≡ length (remember xs e)
unfolding push_rate_history remember
pushed_size p xs e h =
    let more = length-snoc xs e in
    let fewer = length-tail (xs ++ (e ∷ [])) in
    let size = h.size in let inside = h.ring.len_inside in ground arith

-- A push to the ring of rate changes keeps the last seven of them, in order: a ring that holds a list
-- of changes holds that list with the new one at its end and, if it was full, without its first.
pub push_rate_history-Holds :
    (p : PoolState) (xs : List RateHistoryEntry) (e : RateHistoryEntry)
    → Holds p xs
    → Holds (push_rate_history p e) (remember xs e)
push_rate_history-Holds p xs e h = record {
  ring = push-IsRing p e h.ring;
  size = pushed_size p xs e h;
  entry = λ i. pushed_entry p xs e i h;
}

-- The ring of a new pool holds no change.
pub initialize_rate_history-Holds : (p : PoolState) → Holds (initialize_rate_history p) []
unfolding initialize_rate_history rate_history_entry_at
initialize_rate_history-Holds p = record {
  ring = ground arith;
  size = refl;
  entry = λ i. ground arith;
}
