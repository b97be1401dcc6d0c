-- ===== src/Table.antt =====
-- `std::unordered_map` and `std::map` as association lists with distinct keys. The order of the
-- list stands for the iteration order, which the standard leaves open.
use perf_monitor.Prelude.{
  ℕ, ◌≡◌, refl, sym, ◌↔◌, Bool, true, List, [], ◌∷◌, Option, none, some, arith, if◌then◌else◌,
  Bool-cases, inl, inr, ==_iff, ◌==◌ as nat_eq,
}
use mathlib.Core.Path.{subst}
use perf_monitor.Text.{Bytes, str_eq, str_eq_iff}

pub record Eq {ℓ} (K : Type ℓ) : Type ℓ where
  pub beq : K → K → Bool
  pub beq_iff : (a b : K) → (beq a b ≡ true) ↔ (a ≡ b)

instance abbrev pub bytes_eq : Eq Bytes
bytes_eq = record { beq = str_eq; beq_iff = str_eq_iff }

instance abbrev pub number_eq : Eq ℕ
number_eq = record { beq = nat_eq; beq_iff = ==_iff }

abbrev pub Table {ℓ} : Type ℓ → Type ℓ → Type ℓ
Table K V = List (K × V)

abbrev pub unless {ℓ} : {V : Type ℓ} → (V → Bool) → Option V → Option V
unless p none = none
unless p (some v) = if p v then none else some v

module _ {ℓ} {K : Type ℓ} {V : Type ℓ} ⦃e : Eq K⦄ where
  -- `m.find(k)`
  unfoldable pub lookup : K → Table K V → Option V
  lookup k [] = none
  lookup k ((j, v) ∷ m) = if e.beq j k then some v else lookup k m

  -- `m[k] = v`
  unfoldable pub insert : K → V → Table K V → Table K V
  insert k v [] = (k, v) ∷ []
  insert k v ((j, w) ∷ m) = if e.beq j k then (j, v) ∷ m else (j, w) ∷ insert k v m

  pub lookup-insert :
      (k j : K) (v : V) (m : Table K V)
      → lookup j (insert k v m) ≡ (if e.beq k j then some v else lookup j m)
  unfolding lookup insert
  lookup-insert k j v [] = refl
  lookup-insert k j v ((i, w) ∷ m) =
      ground (arith, e.beq_iff k j, e.beq_iff i k, e.beq_iff i j, lookup-insert k j v m)

  -- No key stands twice.
  abbrev pub IsMap : Table K V → Type ℓ
  IsMap [] = Unit
  IsMap ((k, v) ∷ m) = (lookup k m ≡ none) × IsMap m

  pub insert-IsMap : (k : K) (v : V) (m : Table K V) → IsMap m → IsMap (insert k v m)
  unfolding lookup insert
  insert-IsMap k v [] h = ground arith
  insert-IsMap k v ((j, w) ∷ m) h =
      ground (arith, insert-IsMap k v m h.1, e.beq_iff j k, e.beq_iff k j, lookup-insert k j v m)

  -- The erasing loop: an entry that meets the test is dropped, the others keep their order.
  unfoldable pub erase_if : (V → Bool) → Table K V → Table K V
  erase_if p [] = []
  erase_if p ((k, v) ∷ m) = let rest = erase_if p m in if p v then rest else (k, v) ∷ rest

  pub lookup-erase_if :
      (p : V → Bool) (k : K) (m : Table K V)
      → IsMap m
      → lookup k (erase_if p m) ≡ unless p (lookup k m)
  unfolding lookup erase_if
  lookup-erase_if p k [] h = refl
  lookup-erase_if p k ((j, v) ∷ m) h = ground (arith, lookup-erase_if p k m h.1, e.beq_iff j k)

  pub erase_if-IsMap : (p : V → Bool) (m : Table K V) → IsMap m → IsMap (erase_if p m)
  unfolding lookup erase_if
  erase_if-IsMap p [] h = tt
  erase_if-IsMap p ((j, v) ∷ m) h =
      ground (arith, erase_if-IsMap p m h.1, lookup-erase_if p j m h.1)

  -- A predicate of the entries, of the key and the value.
  module _ {κ} (P : K → V → Type κ) where
    abbrev pub Entries : Table K V → Type κ
    Entries [] = Unit
    Entries ((k, v) ∷ m) = P k v × Entries m

    pub insert-Entries :
        (k : K) (v : V) (m : Table K V) → P k v → Entries m → Entries (insert k v m)
    unfolding insert
    insert-Entries k v [] p h = (p, tt)
    insert-Entries k v ((j, w) ∷ m) p h = elim (Bool-cases (e.beq j k)) [
      | inl same ↦ rw same (subst (λ x. P x v) (sym ((e.beq_iff j k).0 same)) p, h.1)
      | inr other ↦ rw other (h.0, insert-Entries k v m p h.1)
    ]

    pub erase_if-Entries : (p : V → Bool) (m : Table K V) → Entries m → Entries (erase_if p m)
    unfolding erase_if
    erase_if-Entries p [] h = tt
    erase_if-Entries p ((j, v) ∷ m) h = elim (Bool-cases (p v)) [
      | inl drop ↦ rw drop (erase_if-Entries p m h.1)
      | inr keep ↦ rw keep (h.0, erase_if-Entries p m h.1)
    ]

    pub lookup-Entries : (k : K) (v : V) (m : Table K V) → Entries m → lookup k m ≡ some v → P k v
    unfolding lookup
    lookup-Entries k v [] h q = absurd (cc)
    lookup-Entries k v ((j, w) ∷ m) h q = elim (Bool-cases (e.beq j k)) [
      | inl same ↦
          let here : P j w = h.0 in
          let eq : w ≡ v = ground arith in
          subst (λ x. P x v) ((e.beq_iff j k).0 same) (subst (λ x. P j x) eq here)
      | inr other ↦ lookup-Entries k v m h.1 (ground arith)
    ]
