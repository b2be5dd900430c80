-- ===== src/Lru.antt =====
-- bp_router/lru_cache.py: `BoundedLRUDict`, an ordered dict that drops its oldest entry when it is
-- over its size. The entries stand with the oldest first.
pub mod Bounds
pub mod Recency
mod Examples
use backplaned_agents.Prelude.{
  Eq, nat_eq, list_eq, option_eq, Dict, lookup, erase, ℕ, zero, suc, Bool, Option, none, some, List,
  [], ◌∷◌, ◌++◌, arith, ltb, if◌then◌else◌, is_some, length,
}

pub record Lru {ℓ κ} (K : Type ℓ) (V : Type κ) : Type (ℓ ⊔ κ) where
  pub maxsize : ℕ
  pub entries : Dict K V

-- `__init__`; none is the `ValueError`
unfoldable pub init {ℓ κ} : {K : Type ℓ} {V : Type κ} → ℕ → Option (Lru K V)
init maxsize = if ltb maxsize 1 then none else some (record { maxsize = maxsize; entries = [] })

-- `popitem(last=False)` of a dict that is not empty
abbrev pub drop_oldest {ℓ} : {A : Type ℓ} → List A → List A
drop_oldest [] = []
drop_oldest (x ∷ xs) = xs

module _ {ℓ κ} {K : Type ℓ} {V : Type κ} ⦃e : Eq K⦄ where
  -- the entry at the most recent end, with its value
  unfoldable pub put_last : K → V → Dict K V → Dict K V
  unfolding erase
  put_last key value entries = erase key entries ++ (key, value) ∷ []

  -- `__getitem__`; none is the `KeyError`
  unfoldable pub get_item : Lru K V → K → Option (V × Lru K V)
  unfolding put_last lookup
  get_item c key = elim (lookup key c.entries) [
    | none ↦ none
    | some value ↦ some (value, record c { entries = put_last key value c.entries })
  ]

  -- `get`
  unfoldable pub get : Lru K V → K → V → V × Lru K V
  unfolding get_item
  get c key default = elim (get_item c key) [ none ↦ (default, c) | some found ↦ found ]

  -- `__setitem__`
  unfoldable pub set_item : Lru K V → K → V → Lru K V
  unfolding put_last lookup
  set_item c key value =
      if is_some (lookup key c.entries)
      then record c { entries = put_last key value c.entries }
      else (let longer = c.entries ++ (key, value) ∷ [] in
          if ltb c.maxsize (length longer)
          then record c { entries = drop_oldest longer }
          else record c { entries = longer })

  -- `__contains__`, which touches nothing
  unfoldable pub has_key : Lru K V → K → Bool
  unfolding lookup
  has_key c key = is_some (lookup key c.entries)

  -- `pop`: the value, or the default
  unfoldable pub pop : Lru K V → K → V → V × Lru K V
  unfolding lookup erase
  pop c key default = (
    elim (lookup key c.entries) [ none ↦ default | some value ↦ value ],
    record c { entries = erase key c.entries },
  )

-- `__len__` and `clear`
unfoldable pub len {ℓ κ} : {K : Type ℓ} {V : Type κ} → Lru K V → ℕ
len c = length c.entries

unfoldable pub clear {ℓ κ} : {K : Type ℓ} {V : Type κ} → Lru K V → Lru K V
clear c = record c { entries = [] }
