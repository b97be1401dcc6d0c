-- ===== src/Worker/Config/Steps.antt =====
-- The pieces of `Load` of worker/src/config/config_manager.cpp: what each keeps and what a loop over
-- an array adds.
use perf_monitor.Prelude.{
  ◌≡◌, ◌≢◌, refl, ap, sym, ◌∙◌, Bool, true, false, List, [], ◌∷◌, ◌++◌, Option, none, some,
  append_assoc, append-nil,
}
use perf_monitor.Worker.Config.{ConfigManager}
use perf_monitor.Worker.Config.Load.{
  Json, Outcome, completed, threw, Step, continue, ◌>>◌, when, assign, push_each,
}

pub threw_completed : threw ≢ completed
threw_completed e = absurd (cc)

-- The values of all the elements, if each converts.
abbrev pub all_values {ℓ κ} : {A : Type ℓ} {B : Type κ} → (A → Option B) → List A → Option (List B)
all_values f [] = some []
all_values f (x ∷ xs) = elim (f x) [
  | none ↦ none
  | some y ↦ elim (all_values f xs) [ none ↦ none | some ys ↦ some (y ∷ ys) ]
]

pub all_values-cons {ℓ κ} :
    {A : Type ℓ} {B : Type κ} (f : A → Option B) (x : A) (xs : List A) (y : B) (ys : List B)
    → f x ≡ some y
    → all_values f xs ≡ some ys
    → all_values f (x ∷ xs) ≡ some (y ∷ ys)
all_values-cons f x xs y ys e all = rw (all_values, e, all) refl

-- A step that leaves a part of the configuration as it was.
pub record Keeps {ℓ} {X : Type ℓ} (g : ConfigManager → X) (step : Step) : Type ℓ where
  pub kept : (cfg : ConfigManager) → g (step cfg).1 ≡ g cfg

module _ {ℓ} {X : Type ℓ} (g : ConfigManager → X) where
  pub then-Keeps : (p q : Step) → Keeps g p → Keeps g q → Keeps g (p >> q)
  then-Keeps p q h k = record { kept = λ cfg. go cfg (p cfg) (h.kept cfg) }
    where
      go :
          (cfg : ConfigManager) (r : Outcome × ConfigManager)
          → g r.1 ≡ g cfg
          → g (continue r q).1 ≡ g cfg
      go cfg (completed, c) e = k.kept c ∙ e
      go cfg (threw, c) e = e

  pub when-Keeps : (b : Bool) (p : Step) → Keeps g p → Keeps g (when b p)
  when-Keeps true p h = h
  when-Keeps false p h = record { kept = λ cfg. refl }

  pub assign-Keeps {κ} :
      {A : Type κ} (o : Option A) (set : A → ConfigManager → ConfigManager)
      → ((a : A) (cfg : ConfigManager) → g (set a cfg) ≡ g cfg)
      → Keeps g (assign o set)
  assign-Keeps none set h = record { kept = λ cfg. refl }
  assign-Keeps (some a) set h = record { kept = h a }

  pub push_each-Keeps {κ} :
      {J : Type 0} ⦃j : Json J⦄ {A : Type κ} (convert : J → Option A)
      (push : A → ConfigManager → ConfigManager) (items : List J)
      → ((a : A) (cfg : ConfigManager) → g (push a cfg) ≡ g cfg)
      → Keeps g (push_each convert push items)
  unfolding push_each
  push_each-Keeps convert push [] h = record { kept = λ cfg. refl }
  push_each-Keeps convert push (item ∷ rest) h =
      then-Keeps (assign (convert item) push) (push_each convert push rest)
        (assign-Keeps (convert item) push h) (push_each-Keeps convert push rest h)

-- A sequence that completes is two steps that complete.
pub then-completed :
    (p q : Step) (cfg : ConfigManager)
    → ((p >> q) cfg).0 ≡ completed
    → ((p cfg).0 ≡ completed) × ((q (p cfg).1).0 ≡ completed) × ((p >> q) cfg ≡ q (p cfg).1)
then-completed p q cfg = go (p cfg)
  where
    go :
        (r : Outcome × ConfigManager)
        → (continue r q).0 ≡ completed
        → (r.0 ≡ completed) × ((q r.1).0 ≡ completed) × (continue r q ≡ q r.1)
    go (completed, c) e = (refl, e, refl)
    go (threw, c) e = absurd (threw_completed e)

pub assign-completed {κ} :
    {A : Type κ} (o : Option A) (set : A → ConfigManager → ConfigManager) (cfg : ConfigManager)
    → (assign o set cfg).0 ≡ completed
    → (a : A) × (o ≡ some a) × (assign o set cfg ≡ (completed, set a cfg))
assign-completed none set cfg e = absurd (threw_completed e)
assign-completed (some a) set cfg e = (a, refl, refl)

-- A loop that completes adds the values of all the elements to its list.
pub push_each-values {κ} :
    {J : Type 0} ⦃j : Json J⦄ {A : Type κ} (convert : J → Option A)
    (push : A → ConfigManager → ConfigManager) (get : ConfigManager → List A)
    → ((a : A) (cfg : ConfigManager) → get (push a cfg) ≡ get cfg ++ a ∷ [])
    → (items : List J) (cfg : ConfigManager) → (push_each convert push items cfg).0 ≡ completed
    → (values : List A) × (all_values convert items ≡ some values)
      × (get (push_each convert push items cfg).1 ≡ get cfg ++ values)
unfolding push_each
push_each-values convert push get h [] cfg done = ([], refl, sym (append-nil (get cfg)))
push_each-values convert push get h (item ∷ rest) cfg done =
    let (one, others, path) =
      then-completed (assign (convert item) push) (push_each convert push rest) cfg done in
    let (a, e, first) = assign-completed (convert item) push cfg one in
    let (values, all, later) = push_each-values convert push get h rest _ others in
    (
      a ∷ values,
      all_values-cons convert item rest a values e all,
      ap (λ (r : Outcome × ConfigManager). get r.1) path
          ∙ later
          ∙ ap (λ (r : Outcome × ConfigManager). get r.1 ++ values) first
          ∙ ap (λ l. l ++ values) (h a cfg)
          ∙ append_assoc (get cfg) (a ∷ []) values,
    )
