-- ===== src/Api/Meta.antt =====
-- `metav1.ObjectMeta`, nodes and ConfigMaps of the Kubernetes API, as far as the controllers use them.
use accelerator_config_manag.Prelude.{ℕ, zero, suc, String, Bool, true, false, Option, none, some}
use accelerator_config_manag.Prelude.{List, ◌<>◌, ◌≡◌, ◌⊎◌, inl, inr, refl}
use accelerator_config_manag.Prelude.GoMap.{GoMap}

-- The fields of `metav1.ObjectMeta` that the controllers use.
pub record ObjectMeta : Type 0 where
  pub name : String
  pub resource_version : String
  pub deletion_timestamp : Option ℕ
  pub finalizers : List String

-- `DeletionTimestamp.IsZero()`: nil, or the zero time.
abbrev pub is_zero : Option ℕ → Bool
is_zero none = true
is_zero (some zero) = true
is_zero (some (suc t)) = false

-- `types.NamespacedName` and its `String()`
pub record NamespacedName : Type 0 where
  pub namespace : String
  pub name : String

abbrev pub name_string : NamespacedName → String
name_string n = n.namespace <> ("/" <> n.name)

-- `corev1.Node`: its name and its labels.
pub record Node : Type 0 where
  pub name : String
  pub labels : GoMap String

-- `corev1.ConfigMap`: its name and its `Data`.
pub record ConfigMap : Type 0 where
  pub name : String
  pub entries : GoMap String

-- An `error`: what `errors.IsNotFound` says of it, and its text.
pub record GoError : Type 0 where
  pub is_not_found : Bool
  pub message : String

-- `fmt.Errorf("… %s", err.Error())`: a new error, whose text ends with that of the old one.
abbrev pub wrap : String → GoError → GoError
wrap text e = record { is_not_found = false; message = text <> e.message }

-- An `error` result: nil, or an error.
abbrev pub Error : Type 0
Error = Option GoError

-- A value with an `error`: the value is there when the error is nil.
pub data Fallible {ℓ} (A : Type ℓ) : Type ℓ where
  done : A → Fallible A
  failed : GoError → Fallible A

-- `ctrl.Result`: `RequeueAfter` in seconds, and none stands for zero.
pub record Result : Type 0 where
  pub requeue : Bool
  pub requeue_after : Option ℕ

-- `reconcile.Result{}`
abbrev pub no_result : Result
no_result = record { requeue = false; requeue_after = none }

pub Fallible-cases {ℓ} :
    {A : Type ℓ} (f : Fallible A) → ((a : A) × (f ≡ done a)) ⊎ ((e : GoError) × (f ≡ failed e))
Fallible-cases (done a) = inl (a, refl)
Fallible-cases (failed e) = inr (e, refl)
