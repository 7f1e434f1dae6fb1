-- ===== src/Prelude/Options.antt =====
-- Steps that may raise, where `none` is an exception, one after another.
use mathlib.Core.Path.{◌≡◌, refl}
use mathlib.Core.Option.{Option, none, some}
use mathlib.Core.Logic.{◌↔◌, ◌⊎◌, inl, inr}

infixl 5 ◌>>=◌
abbrev pub ◌>>=◌ {ℓ κ} : {A : Type ℓ} {B : Type κ} → Option A → (A → Option B) → Option B
none >>= rest = none
some a >>= rest = rest a

-- Where a step raises, what follows it is not run.
pub first_some {ℓ κ} :
    {A : Type ℓ} {B : Type κ} {out : B} (step : Option A) (rest : A → Option B)
    → (step >>= rest) ≡ some out
    → (mid : A) × (step ≡ some mid) × (rest mid ≡ some out)
first_some (some mid) rest h = (mid, refl, h)
first_some none rest h = cc

pub some-inj {ℓ} : {A : Type ℓ} {a b : A} → some a ≡ some b → a ≡ b
some-inj h = cc

-- When a chain of steps raises.
pub chain_none {ℓ κ} :
    {A : Type ℓ} {B : Type κ} (m : Option A) (rest : A → Option B) (P : Type 0)
    → ((a : A) → (rest a ≡ none) ↔ P)
    → ((m >>= rest) ≡ none) ↔ ((m ≡ none) ⊎ P)
chain_none none rest P iff = ((λ _. inl refl), (λ _. refl))
chain_none (some a) rest P iff =
    ((λ h. inr ((iff a).0 h)), (λ h. elim h [ inl e ↦ cc | inr p ↦ (iff a).1 p ]))

pub chain_iff {ℓ κ} :
    {A : Type ℓ} {B : Type κ} {m : Option A} {rest : A → Option B} {P Q : Type 0}
    → (m ≡ none) ↔ Q
    → ((a : A) → (rest a ≡ none) ↔ P)
    → ((m >>= rest) ≡ none) ↔ (Q ⊎ P)
chain_iff {m = m} {rest} {P} q iff =
    let c = chain_none m rest P iff in
    (
      (λ h. elim (c.0 h) [ inl x ↦ inl (q.0 x) | inr p ↦ inr p ]),
      (λ h. elim h [ inl x ↦ c.1 (inl (q.1 x)) | inr p ↦ c.1 (inr p) ]),
    )

-- Two steps, the second of what the first reads.
pub pair_none {ℓ κ μ} :
    {A : Type ℓ} {B : Type κ} {C : Type μ} (m : Option A) (next : A → Option B)
    (rest : B → Option C) (P : Type 0)
    → ((b : B) → (rest b ≡ none) ↔ P)
    → ((m >>= λ a. next a >>= rest) ≡ none) ↔ (((m >>= next) ≡ none) ⊎ P)
pair_none none next rest P iff = ((λ _. inl refl), (λ _. refl))
pair_none (some a) next rest P iff = chain_none (next a) rest P iff

pub last_none {ℓ κ} :
    {A : Type ℓ} {B : Type κ} (m : Option A) (g : A → B)
    → ((m >>= λ a. some (g a)) ≡ none) ↔ (m ≡ none)
last_none none g = ((λ _. refl), (λ _. refl))
last_none (some a) g = ((λ h. cc), (λ h. cc))
