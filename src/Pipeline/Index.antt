-- ===== src/Pipeline/Index.antt =====
-- Positions in a pipeline.
use capstone_nps.Pipeline.{index_of}
use capstone_nps.Base.{
  List, length, contains, ◌∷◌, ℕ, ◌≤◌, get_elem?, ◌≡◌, false, some, arith, true, ==_iff, ◌<◌, [],
  Bool-cases, refl, suc, ◌==◌, zero, inl, inr, Option-cases, ◌∙◌,
}
use capstone_nps.Jobs.{pipelines}
use capstone_nps.Models.{Kind, Step, step_eq, Step-discrete}

abbrev pub Distinct : List Step → Type 0
Distinct [] = Unit
Distinct (s ∷ rest) = (contains s rest ≡ false) × Distinct rest

pub pipelines-Distinct : (k : Kind) → Distinct (pipelines k)
unfolding pipelines step_eq Step-discrete
pipelines-Distinct Kind.upload = (refl, tt)
pipelines-Distinct Kind.analyze = (refl, (refl, (refl, (refl, (refl, (refl, (refl, (refl, tt))))))))
pipelines-Distinct Kind.plan = (refl, (refl, (refl, (refl, (refl, (refl, tt))))))
pipelines-Distinct Kind.ppt = (refl, (refl, (refl, tt)))
pipelines-Distinct Kind.image = (refl, tt)
pipelines-Distinct Kind.video = (refl, (refl, (refl, tt)))
pipelines-Distinct Kind.template = (refl, tt)
pipelines-Distinct Kind.design_reference = (refl, (refl, tt))

pub contains_of_get :
    (xs : List Step) (i : ℕ) (s : Step) → get_elem? xs i ≡ some s → contains s xs ≡ true
contains_of_get [] i s h = cc
contains_of_get (x ∷ xs) zero s h = ground (arith, ==_iff s x)
contains_of_get (x ∷ xs) (suc i) s h = ground (arith, contains_of_get xs i s h)

pub index_of_get :
    (xs : List Step) (i : ℕ) (s : Step)
    → Distinct xs
    → get_elem? xs i ≡ some s
    → index_of s xs ≡ some i
unfolding index_of
index_of_get [] i s d h = cc
index_of_get (x ∷ xs) zero s d h = ground (arith, ==_iff x s)
index_of_get (x ∷ xs) (suc i) s d h =
    ground (arith, ==_iff x s, contains_of_get xs i s h, index_of_get xs i s d.1 h)

index_suc :
    (x : Step) (xs : List Step) (i : ℕ) (s : Step)
    → index_of s (x ∷ xs) ≡ some (suc i)
    → index_of s xs ≡ some i
unfolding index_of
index_suc x xs i s h = elim (Option-cases (index_of s xs)) [
  | inl absent ↦ absurd (ground arith)
  | inr (k, there) ↦ there ∙ ground arith
]

pub get_of_index :
    (xs : List Step) (i : ℕ) (s : Step) → index_of s xs ≡ some i → get_elem? xs i ≡ some s
unfolding index_of
get_of_index [] i s h = cc
get_of_index (x ∷ xs) zero s h = ground (arith, ==_iff x s)
get_of_index (x ∷ xs) (suc i) s h = get_of_index xs i s (index_suc x xs i s h)

pub lt-of_get : (xs : List Step) (i : ℕ) (s : Step) → get_elem? xs i ≡ some s → i < length xs
lt-of_get [] i s h = cc
lt-of_get (x ∷ xs) zero s h = omega arith
lt-of_get (x ∷ xs) (suc i) s h = omega (arith, lt-of_get xs i s h)

pub length-pipelines : (k : Kind) → length (pipelines k) ≤ 8
unfolding pipelines
length-pipelines k = ground arith

pub index_of_contained :
    (xs : List Step) (s : Step) → contains s xs ≡ true → (i : ℕ) × (index_of s xs ≡ some i)
unfolding index_of
index_of_contained [] s h = cc
index_of_contained (x ∷ xs) s h = elim (Bool-cases (x == s)) [
  | inl same ↦ (0, rw same)
  | inr differ ↦
      let (i, there) = index_of_contained xs s (ground (arith, ==_iff x s, ==_iff s x)) in
      (suc i, rw (differ, there))
]
