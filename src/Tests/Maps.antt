-- ===== src/Tests/Maps.antt =====
-- A hash map with room for 65536 entries, as the kernel programs of worker/src/ebpf/ declare them.
use perf_monitor.Prelude.{
  ℕ, ◌≡◌, ◌≢◌, ◌⊎◌, refl, ◌∙◌, Bool, true, false, Option, none, some, [], ◌∷◌, length, ◌==◌,
  if◌then◌else◌, ltb, arith, Bool-cases, inl, inr,
}
use perf_monitor.Table.{Eq, Table, lookup, insert, lookup-insert, number_eq}
use perf_monitor.Worker.Kernel.{HashMap, bpf_noexist}
use perf_monitor.Worker.Kernel.Flow.{FlowKey}
use perf_monitor.Worker.Kernel.Calls.{same_key, same_key_iff}

instance abbrev pub flow_key_eq : Eq FlowKey
flow_key_eq = record { beq = same_key; beq_iff = same_key_iff }

differ : {K : Type 0} ⦃e : Eq K⦄ (k j : K) → k ≢ j → e.beq k j ≡ false
differ ⦃e⦄ k j other = elim (Bool-cases (e.beq k j)) [
  | inl same ↦ absurd (other ((e.beq_iff k j).0 same))
  | inr distinct ↦ distinct
]

module _ {K V : Type 0} ⦃e : Eq K⦄ where
  unfoldable pub remove : K → Table K V → Table K V
  remove k [] = []
  remove k ((j, v) ∷ m) = let rest = remove k m in if e.beq j k then rest else (j, v) ∷ rest

  -- The update, by what the map holds under the key.
  unfoldable pub updated : Option V → Table K V → K → V → ℕ → Table K V
  updated none m k v flags = if ltb (length m) 65536 then insert k v m else m
  updated (some w) m k v flags = if flags == bpf_noexist then m else insert k v m

  abbrev pub update : Table K V → K → V → ℕ → Table K V
  update m k v flags = updated (lookup k m) m k v flags

  pub insert_same : (k : K) (v : V) (m : Table K V) → lookup k (insert k v m) ≡ some v
  insert_same k v m =
      let own : e.beq k k ≡ true = (e.beq_iff k k).1 refl in lookup-insert k k v m ∙ rw own refl

  pub insert_other :
      (k j : K) (v : V) (m : Table K V) → k ≢ j → lookup j (insert k v m) ≡ lookup j m
  insert_other k j v m other = lookup-insert k j v m ∙ rw (differ k j other) refl

  -- An update sets the entry of its key alone, or nothing.
  either_same :
      (b : Bool) (k : K) (v : V) (m : Table K V)
      → (lookup k (if b then insert k v m else m) ≡ some v)
        ⊎ (lookup k (if b then insert k v m else m) ≡ lookup k m)
  either_same true k v m = inl (insert_same k v m)
  either_same false k v m = inr refl

  either_other :
      (b : Bool) (k j : K) (v : V) (m : Table K V)
      → k ≢ j
      → lookup j (if b then insert k v m else m) ≡ lookup j m
  either_other true k j v m other = insert_other k j v m other
  either_other false k j v m other = refl

  pub updated_same :
      (o : Option V) (m : Table K V) (k : K) (v : V) (flags : ℕ)
      → (lookup k (updated o m k v flags) ≡ some v)
        ⊎ (lookup k (updated o m k v flags) ≡ lookup k m)
  unfolding updated
  updated_same none m k v flags = either_same (ltb (length m) 65536) k v m
  updated_same (some w) m k v flags = elim (Bool-cases (flags == bpf_noexist)) [
    | inl noexist ↦ rw noexist (inr refl)
    | inr any ↦ rw any (inl (insert_same k v m))
  ]

  pub updated_other :
      (o : Option V) (m : Table K V) (k j : K) (v : V) (flags : ℕ)
      → k ≢ j
      → lookup j (updated o m k v flags) ≡ lookup j m
  unfolding updated
  updated_other none m k j v flags other = either_other (ltb (length m) 65536) k j v m other
  updated_other (some w) m k j v flags other = elim (Bool-cases (flags == bpf_noexist)) [
    | inl noexist ↦ rw noexist refl
    | inr any ↦ rw any (insert_other k j v m other)
  ]

  pub remove_same : (k : K) (m : Table K V) → lookup k (remove k m) ≡ none
  unfolding lookup remove
  remove_same k [] = refl
  remove_same k ((j, v) ∷ m) = elim (Bool-cases (e.beq j k)) [
    | inl own ↦ rw own (remove_same k m)
    | inr other ↦ rw (other, lookup, other) (remove_same k m)
  ]

  pub remove_other : (k j : K) (m : Table K V) → k ≢ j → lookup j (remove k m) ≡ lookup j m
  unfolding lookup remove
  remove_other k j [] other = refl
  remove_other k j ((i, v) ∷ m) other =
      let rest = remove_other k j m other in
      ground (arith, rest, e.beq_iff i k, e.beq_iff i j, differ k j other)

  instance abbrev pub table_map : HashMap (Table K V) K V
  table_map = record {
    lookup_elem = λ m k. lookup k m;
    update_elem = update;
    delete_elem = λ m k. remove k m;
    store = λ m k v. insert k v m;
    update_same = λ m k v flags. updated_same (lookup k m) m k v flags;
    update_other = λ m k j v flags. updated_other (lookup k m) m k j v flags;
    delete_same = λ m k. remove_same k m;
    delete_other = λ m k j. remove_other k j m;
    store_same = λ m k v w h. insert_same k v m;
    store_other = λ m k j v w h. insert_other k j v m;
  }
