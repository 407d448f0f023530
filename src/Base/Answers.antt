-- ===== src/Base/Answers.antt =====
-- Calls with an answer: they return what is expected, or raise a `DomainError`.
use capstone_nps.Base.{ℕ, Bool, Option, if◌then◌else◌, none, some, true, ◌≡◌, false, refl}
use capstone_nps.Base.Errors.{Result, Code, ◌>>=◌, ok, err, domain_error, other, raise_if, ◌>>◌}

-- What a call returns satisfies the predicate, and what it raises is a `DomainError`.
abbrev pub Answers {ℓ} : {A : Type ℓ} → (A → Type 0) → Result A → Type 0
Answers P (err other) = ⊥
Answers P (err (domain_error code status)) = Unit
Answers P (ok a) = P a

pub Answers-bind {κ ℓ} :
    {A : Type κ} {B : Type ℓ} (P : A → Type 0) (Q : B → Type 0) (call : Result A)
    (next : A → Result B)
    → Answers P call
    → ((a : A) → P a → Answers Q (next a))
    → Answers Q (call >>= next)
Answers-bind P Q (ok a) next h k = k a h
Answers-bind P Q (err (domain_error code status)) next h k = tt
Answers-bind P Q (err other) next h k = elim h [ ]

pub Answers-raise_if {ℓ} :
    {B : Type ℓ} (Q : B → Type 0) (b : Bool) (code : Code) (status : ℕ) (rest : Result B)
    → (b ≡ false → Answers Q rest)
    → Answers Q (raise_if b code status >> rest)
Answers-raise_if Q true code status rest k = tt
Answers-raise_if Q false code status rest k = k refl

pub Answers-option {κ ℓ} :
    {A : Type κ} {B : Type ℓ} (P : Option A → Type 0) (Q : B → Type 0) (without : Result B)
    (with_it : A → Result B)
    → (P none → Answers Q without)
    → ((a : A) → P (some a) → Answers Q (with_it a))
    → (found : Option A) → P found
    → Answers Q (elim found [ none ↦ without | some a ↦ with_it a ])
Answers-option P Q without with_it h k none p = h p
Answers-option P Q without with_it h k (some a) p = k a p

pub Answers-if {ℓ} :
    {B : Type ℓ} (Q : B → Type 0) (b : Bool) (yes_part no_part : Result B)
    → Answers Q yes_part
    → Answers Q no_part
    → Answers Q (if b then yes_part else no_part)
Answers-if Q true yes_part no_part h k = h
Answers-if Q false yes_part no_part h k = k
