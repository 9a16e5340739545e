-- ===== src/Server/Connections.antt =====
-- `std::map<int, Connection*>`: the entries by ascending key. A null pointer is `none`.
use libsiot.Base.{
  ℕ, suc, ◌<◌, ◌≡◌, refl, Option, none, some, List, [], ◌∷◌, if◌then◌else◌, ltb, ◌==◌, arith,
  Bool-cases, inl, inr,
}

abbrev pub Table : Type 0
Table = List (ℕ × Option ℕ)

-- `connections_.find`
abbrev pub lookup : ℕ → Table → Option (Option ℕ)
lookup k [] = none
lookup k ((j, v) ∷ m) = if j == k then some v else lookup k m

-- `connections_[k] = v`
abbrev pub insert : ℕ → Option ℕ → Table → Table
insert k v [] = (k, v) ∷ []
insert k v ((j, w) ∷ m) =
    if j == k then (k, v) ∷ m else (if ltb k j then (k, v) ∷ (j, w) ∷ m else (j, w) ∷ insert k v m)

-- `connections_.erase(k)`
abbrev pub erase : ℕ → Table → Table
erase k [] = []
erase k ((j, w) ∷ m) = if j == k then m else (j, w) ∷ erase k m

pub lookup-insert :
    (k j : ℕ) (v : Option ℕ) (m : Table)
    → lookup j (insert k v m) ≡ (if k == j then some v else lookup j m)
lookup-insert k j v [] = refl
lookup-insert k j v ((i, w) ∷ m) = ground (arith, lookup-insert k j v m)

-- The keys ascend from `lo` on.
abbrev pub Ascends : ℕ → Table → Type 0
Ascends lo [] = Unit
Ascends lo ((j, w) ∷ m) = (lo < suc j) × Ascends (suc j) m

pub Ascends-mono : (lo hi : ℕ) (m : Table) → lo < suc hi → Ascends hi m → Ascends lo m
Ascends-mono lo hi [] h a = tt
Ascends-mono lo hi ((j, w) ∷ m) h a = (omega arith, a.1)

pub insert-Ascends :
    (lo k : ℕ) (v : Option ℕ) (m : Table) → lo < suc k → Ascends lo m → Ascends lo (insert k v m)
insert-Ascends lo k v [] h a = (h, tt)
insert-Ascends lo k v ((j, w) ∷ m) h a =
    ground (arith, insert-Ascends (suc j) k v m, Ascends-mono lo (suc k) m)

pub lookup-below : (k lo : ℕ) (m : Table) → k < lo → Ascends lo m → lookup k m ≡ none
lookup-below k lo [] h a = refl
lookup-below k lo ((j, w) ∷ m) h a = ground (arith, lookup-below k (suc j) m)

pub lookup-erase :
    (lo k j : ℕ) (m : Table)
    → Ascends lo m
    → lookup j (erase k m) ≡ (if k == j then none else lookup j m)
lookup-erase lo k j [] a = ground arith
lookup-erase lo k j ((i, w) ∷ m) a =
    ground (arith, lookup-erase (suc i) k j m a.1, lookup-below j (suc i) m)

pub erase-Ascends : (lo k : ℕ) (m : Table) → Ascends lo m → Ascends lo (erase k m)
erase-Ascends lo k [] a = tt
erase-Ascends lo k ((j, w) ∷ m) a = elim (Bool-cases (j == k)) [
  | inl here ↦ rw here (Ascends-mono lo (suc j) m (omega arith) a.1)
  | inr there ↦ rw there (a.0, erase-Ascends (suc j) k m a.1)
]
