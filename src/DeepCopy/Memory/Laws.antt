-- ===== src/DeepCopy/Memory/Laws.antt =====
-- Deep copies, from those of the parts: they read the same, and all their places are new.
use mathlib.Core.List.{Memᴰ}
use Prim.Native.Nat.{◌≤◌, ◌<◌}
use accelerator_config_manag.Prelude.{none, some, List, [], ◌∷◌, ◌++◌, ◌≡◌, refl, ap, ℕ, suc, arith}
use accelerator_config_manag.Prelude.Dict.{Dict}
use accelerator_config_manag.DeepCopy.Memory.{
  Ref, Copy, plain, copy_ref, copy_list, copy_dict, no_places, places_ref, places_list, places_dict,
  read_ref, read_list, read_dict,
}

-- All places are from `n` on and before `m`.
abbrev pub Between : ℕ → ℕ → List ℕ → Type 0
Between n m [] = Unit
Between n m (p ∷ ps) = (n ≤ p) × (p < m) × Between n m ps

pub record IsDeep {A V : Type 0} (read : A → V) (places : A → List ℕ) (copy : Copy A) : Type 0 where
  pub same : (a : A) (n : ℕ) → read (copy a n).0 ≡ read a
  pub grows : (a : A) (n : ℕ) → n ≤ (copy a n).1
  pub fresh : (a : A) (n : ℕ) → Between n (copy a n).1 (places (copy a n).0)

Between-widen : (n n' m m' : ℕ) (ps : List ℕ) → n' ≤ n → m ≤ m' → Between n m ps → Between n' m' ps
Between-widen n n' m m' [] l u b = tt
Between-widen n n' m m' (p ∷ ps) l u (h, k, b) =
    (omega arith, omega arith, Between-widen n n' m m' ps l u b)

Between-append :
    (n m k : ℕ) (ps qs : List ℕ)
    → n ≤ m
    → m ≤ k
    → Between n m ps
    → Between m k qs
    → Between n k (ps ++ qs)
Between-append n m k [] qs l u b c = Between-widen m n k k qs l (omega arith) c
Between-append n m k (p ∷ ps) qs l u (h, j, b) c =
    (h, omega arith, Between-append n m k ps qs l u b c)

pub plain-IsDeep : {A : Type 0} → IsDeep {A = A} {V = A} (λ a. a) no_places plain
plain-IsDeep = record { same = λ a n. refl; grows = λ a n. omega arith; fresh = λ a n. tt }

module _ {A V : Type 0} {read : A → V} {places : A → List ℕ} {copy : Copy A}
    (deep : IsDeep read places copy) where
  ref-same : (a : Ref A) (n : ℕ) → read_ref read (copy_ref copy a n).0 ≡ read_ref read a
  unfolding read_ref copy_ref
  ref-same none n = refl
  ref-same (some r) n = ap (λ x. some x) (deep.same r.content (suc n))

  ref-grows : (a : Ref A) (n : ℕ) → n ≤ (copy_ref copy a n).1
  unfolding copy_ref
  ref-grows none n = omega arith
  ref-grows (some r) n = let h = deep.grows r.content (suc n) in omega arith

  ref-fresh :
      (a : Ref A) (n : ℕ)
      → Between n (copy_ref copy a n).1 (places_ref places (copy_ref copy a n).0)
  unfolding copy_ref places_ref
  ref-fresh none n = tt
  ref-fresh (some r) n =
      let h = deep.grows r.content (suc n) in
      (
        omega arith,
        omega arith,
        Between-widen (suc n) n _ _ _ (omega arith) (omega arith) (deep.fresh r.content (suc n)),
      )

  -- A pointer, a map or a slice.
  pub ref-IsDeep : IsDeep (read_ref read) (places_ref places) (copy_ref copy)
  ref-IsDeep = record { same = ref-same; grows = ref-grows; fresh = ref-fresh }

  list-same : (a : List A) (n : ℕ) → read_list read (copy_list copy a n).0 ≡ read_list read a
  unfolding read_list copy_list
  list-same [] n = refl
  list-same (a ∷ rest) n = rw (deep.same a n, list-same rest (copy a n).1) refl

  list-grows : (a : List A) (n : ℕ) → n ≤ (copy_list copy a n).1
  unfolding copy_list
  list-grows [] n = omega arith
  list-grows (a ∷ rest) n =
      let h = deep.grows a n in let k = list-grows rest (copy a n).1 in omega arith

  list-fresh :
      (a : List A) (n : ℕ)
      → Between n (copy_list copy a n).1 (places_list places (copy_list copy a n).0)
  unfolding copy_list places_list
  list-fresh [] n = tt
  list-fresh (a ∷ rest) n =
      Between-append n (copy a n).1 _ _ _ (deep.grows a n) (list-grows rest (copy a n).1)
        (deep.fresh a n) (list-fresh rest (copy a n).1)

  -- The elements of a slice.
  pub list-IsDeep : IsDeep (read_list read) (places_list places) (copy_list copy)
  list-IsDeep = record { same = list-same; grows = list-grows; fresh = list-fresh }

  dict-same : (a : Dict A) (n : ℕ) → read_dict read (copy_dict copy a n).0 ≡ read_dict read a
  unfolding read_dict copy_dict
  dict-same [] n = refl
  dict-same ((k, a) ∷ rest) n = rw (deep.same a (suc n), dict-same rest (copy a (suc n)).1) refl

  dict-grows : (a : Dict A) (n : ℕ) → n ≤ (copy_dict copy a n).1
  unfolding copy_dict
  dict-grows [] n = omega arith
  dict-grows ((k, a) ∷ rest) n =
      let h = deep.grows a (suc n) in let j = dict-grows rest (copy a (suc n)).1 in omega arith

  dict-fresh :
      (a : Dict A) (n : ℕ)
      → Between n (copy_dict copy a n).1 (places_dict places (copy_dict copy a n).0)
  unfolding copy_dict places_dict
  dict-fresh [] n = tt
  dict-fresh ((k, a) ∷ rest) n =
      let h = deep.grows a (suc n) in
      Between-append n (copy a (suc n)).1 _ _ _ (omega arith) (dict-grows rest (copy a (suc n)).1)
        (Between-widen (suc n) n _ _ _ (omega arith) (omega arith) (deep.fresh a (suc n)))
        (dict-fresh rest (copy a (suc n)).1)

  -- The values of a map.
  pub dict-IsDeep : IsDeep (read_dict read) (places_dict places) (copy_dict copy)
  dict-IsDeep = record { same = dict-same; grows = dict-grows; fresh = dict-fresh }

module _ {A V : Type 0} {read : A → V} {places : A → List ℕ} {copy : Copy A}
    (deep : IsDeep read places copy) where
  -- What is read may be looked at in another way.
  pub seen-IsDeep : {W : Type 0} (f : V → W) → IsDeep (λ a. f (read a)) places copy
  seen-IsDeep f = record {
    same = λ a n. ap f (deep.same a n);
    grows = deep.grows;
    fresh = deep.fresh;
  }

  -- A record whose parts are copied, while its other fields are kept.
  pub parts-IsDeep :
      {B W : Type 0} (parts : B → A) (read' : B → W) (copy' : Copy B)
      → ((b : B) (n : ℕ) → parts (copy' b n).0 ≡ (copy (parts b) n).0)
      → ((b : B) (n : ℕ) → (copy' b n).1 ≡ (copy (parts b) n).1)
      → ((b : B) (n : ℕ)
          → read (copy (parts b) n).0 ≡ read (parts b)
          → read' (copy' b n).0 ≡ read' b)
      → IsDeep read' (λ b. places (parts b)) copy'
  parts-IsDeep parts read' copy' at_parts next rebuilt = record {
    same = λ b n. rebuilt b n (deep.same (parts b) n);
    grows = λ b n. rw (next b n) (deep.grows (parts b) n);
    fresh = λ b n. rw (at_parts b n, next b n) (deep.fresh (parts b) n);
  }

module _ {A V B W : Type 0} {read : A → V} {places : A → List ℕ} {copy : Copy A}
    (deep : IsDeep read places copy) {read' : B → W} {places' : B → List ℕ} {copy' : Copy B}
    (deep' : IsDeep read' places' copy') where
  -- Two fields, one after the other.
  pub both-IsDeep :
      IsDeep {V = V × W}
        (λ (x : A × B). (read x.0, read' x.1))
        (λ x. places x.0 ++ places' x.1)
        (λ x n. (((copy x.0 n).0, (copy' x.1 (copy x.0 n).1).0), (copy' x.1 (copy x.0 n).1).1))
  both-IsDeep = record {
    same = λ (a, b) n. λ i. (deep.same a n i, deep'.same b (copy a n).1 i);
    grows = λ (a, b) n. let h = deep.grows a n in let k = deep'.grows b (copy a n).1 in omega arith;
    fresh = λ (a, b) n.
        Between-append n (copy a n).1 _ _ _ (deep.grows a n) (deep'.grows b (copy a n).1)
          (deep.fresh a n) (deep'.fresh b (copy a n).1);
  }

-- A place before the first free one is not among the places of a copy.
abbrev pub Apart : List ℕ → List ℕ → Type 0
Apart ps [] = Unit
Apart ps (q ∷ qs) = (¬ Memᴰ q ps) × Apart ps qs

before-new : (n m q : ℕ) (ps : List ℕ) → Between n m ps → q < n → ¬ Memᴰ q ps
before-new n m q [] b l h = elim h [ ]
before-new n m q (p ∷ ps) (h, j, b) l (Memᴰ.head e) = absurd (omega arith)
before-new n m q (p ∷ ps) (h, j, b) l (Memᴰ.tail k) = before-new n m q ps b l k

pub Between-Apart : (n m : ℕ) (ps qs : List ℕ) → Between n m ps → Between 0 n qs → Apart ps qs
Between-Apart n m ps [] b c = tt
Between-Apart n m ps (q ∷ qs) b (z, l, c) = (before-new n m q ps b l, Between-Apart n m ps qs b c)
