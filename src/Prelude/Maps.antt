-- ===== src/Prelude/Maps.antt =====
-- Go maps with string keys: association lists without double keys. The order of the list is the
-- order of a `range` loop, which Go leaves open: theorems hold for every order.
use Prim.Native.Nat.{suc}
use mathlib.Core.Path.{◌≡◌, refl, sym, ◌∙◌}
use mathlib.Core.Logic.{ite, ◌≢◌, ◌⊎◌, inl, inr}
use mathlib.Core.Bool.{Bool, true, false}
use mathlib.Core.List.{List, [], ◌∷◌}
use mathlib.Core.Option.{Option, none, some}
use native.Mathlib.Omega.{arith}
use stream_relay.Prelude.Strings.{Bytes, Bytes-discrete}
use stream_relay.Prelude.Lists.{length}

abbrev pub Map {ℓ} : Type ℓ → Type ℓ
Map V = List (Bytes × V)

module _ {ℓ} {V : Type ℓ} where
  -- `v, ok := m[k]`
  unfoldable pub lookup : Bytes → Map V → Option V
  lookup k [] = none
  lookup k ((j, v) ∷ m) = ite (Bytes-discrete k j) (some v) (lookup k m)

  -- `m[k] = v`
  unfoldable pub insert : Bytes → V → Map V → Map V
  insert k v [] = (k, v) ∷ []
  insert k v ((j, w) ∷ m) = ite (Bytes-discrete k j) ((j, v) ∷ m) ((j, w) ∷ insert k v m)

  -- `delete(m, k)`
  unfoldable pub delete : Bytes → Map V → Map V
  delete k [] = []
  delete k ((j, w) ∷ m) = let rest = delete k m in ite (Bytes-discrete k j) rest ((j, w) ∷ rest)

  abbrev pub keys : Map V → List Bytes
  keys [] = []
  keys ((k, v) ∷ m) = k ∷ keys m

  -- Whether there is an entry for the key.
  abbrev pub has_key : Bytes → Map V → Bool
  has_key k m = elim (lookup k m) [ none ↦ false | some _ ↦ true ]

  -- No entry has the key.
  abbrev pub Lacks : Bytes → Map V → Type 0
  Lacks k [] = Unit
  Lacks k ((j, v) ∷ m) = (k ≢ j) × Lacks k m

  -- A Go map holds each key once.
  abbrev pub Distinct : Map V → Type 0
  Distinct [] = Unit
  Distinct ((k, v) ∷ m) = Lacks k m × Distinct m

module _ {ℓ} {V : Type ℓ} where
  pub lookup-insert :
      (j k : Bytes) (v : V) (m : Map V)
      → lookup j (insert k v m) ≡ ite (Bytes-discrete k j) (some v) (lookup j m)
  unfolding lookup insert
  lookup-insert j k v [] = ground arith
  lookup-insert j k v ((i, w) ∷ m) = ground (arith, lookup-insert j k v m)

  pub lookup-delete :
      (j k : Bytes) (m : Map V) → lookup j (delete k m) ≡ ite (Bytes-discrete k j) none (lookup j m)
  unfolding lookup delete
  lookup-delete j k [] = ground arith
  lookup-delete j k ((i, w) ∷ m) = ground (arith, lookup-delete j k m)

  pub Lacks-insert : (j k : Bytes) (v : V) (m : Map V) → j ≢ k → Lacks j m → Lacks j (insert k v m)
  unfolding insert
  Lacks-insert j k v [] h l = (h, tt)
  Lacks-insert j k v ((i, w) ∷ m) h l = ground (arith, Lacks-insert j k v m h l.1)

  pub Lacks-delete : (j k : Bytes) (m : Map V) → Lacks j m → Lacks j (delete k m)
  unfolding delete
  Lacks-delete j k [] l = tt
  Lacks-delete j k ((i, w) ∷ m) l = ground (arith, Lacks-delete j k m l.1)

  pub lookup_of_Lacks : (k : Bytes) (m : Map V) → Lacks k m → lookup k m ≡ none
  unfolding lookup
  lookup_of_Lacks k [] l = refl
  lookup_of_Lacks k ((i, w) ∷ m) l = ground (arith, lookup_of_Lacks k m l.1)

  pub Lacks-of_lookup : (k : Bytes) (m : Map V) → lookup k m ≡ none → Lacks k m
  unfolding lookup
  Lacks-of_lookup k [] h = tt
  Lacks-of_lookup k ((i, w) ∷ m) h = ground (arith, Lacks-of_lookup k m)

  pub delete_of_Lacks : (k : Bytes) (m : Map V) → Lacks k m → delete k m ≡ m
  unfolding delete
  delete_of_Lacks k [] l = refl
  delete_of_Lacks k ((i, w) ∷ m) l = ground (arith, delete_of_Lacks k m l.1)

module _ {ℓ} {V : Type ℓ} where
  pub insert-Distinct : (k : Bytes) (v : V) (m : Map V) → Distinct m → Distinct (insert k v m)
  unfolding insert
  insert-Distinct k v [] d = (tt, tt)
  insert-Distinct k v ((i, w) ∷ m) d =
      ground (arith, insert-Distinct k v m d.1, Lacks-insert i k v m)

  pub delete-Distinct : (k : Bytes) (m : Map V) → Distinct m → Distinct (delete k m)
  unfolding delete
  delete-Distinct k [] d = tt
  delete-Distinct k ((i, w) ∷ m) d = ground (arith, delete-Distinct k m d.1, Lacks-delete i k m)

  -- An insertion adds an entry exactly where the key is new.
  pub length-insert :
      (k : Bytes) (v : V) (m : Map V)
      → length (insert k v m) ≡ (elim (lookup k m) [ none ↦ suc (length m) | some _ ↦ length m ])
  unfolding insert lookup
  length-insert k v [] = refl
  length-insert k v ((i, w) ∷ m) = ground (arith, length-insert k v m)

  -- A deletion removes one entry exactly where the key is there.
  pub length-delete :
      (k : Bytes) (m : Map V)
      → Distinct m
      → length m
        ≡ (elim (lookup k m) [ none ↦ length (delete k m) | some _ ↦ suc (length (delete k m)) ])
  unfolding delete lookup
  length-delete k [] d = refl
  length-delete k ((i, w) ∷ m) d =
      ground (arith, length-delete k m d.1, delete_of_Lacks k m, Lacks-of_lookup k m)

-- What is read after an insertion is what was inserted, or what was there.
pub lookup-insert_cases {ℓ} :
    {V : Type ℓ} (j k : Bytes) (v w : V) (m : Map V)
    → lookup j (insert k v m) ≡ some w
    → ((k ≡ j) × (v ≡ w)) ⊎ ((k ≢ j) × (lookup j m ≡ some w))
lookup-insert_cases j k v w m e =
    let law = lookup-insert j k v m in
    elim (Bytes-discrete k j)
        as (λ d.
          ite d (some v) (lookup j m) ≡ some w
          → ((k ≡ j) × (v ≡ w)) ⊎ ((k ≢ j) × (lookup j m ≡ some w))) [
            | yes same ↦ λ found. inl (same, cc)
            | no differs ↦ λ found. inr (differs, found)
          ]
      (sym law ∙ e)

pub lookup-delete-some {ℓ} :
    {V : Type ℓ} (j k : Bytes) (w : V) (m : Map V)
    → lookup j (delete k m) ≡ some w
    → (k ≢ j) × (lookup j m ≡ some w)
lookup-delete-some j k w m e =
    let law = lookup-delete j k m in
    elim (Bytes-discrete k j)
        as (λ d. ite d none (lookup j m) ≡ some w → (k ≢ j) × (lookup j m ≡ some w)) [
          | yes same ↦ λ found. cc
          | no differs ↦ λ found. (differs, found)
        ]
      (sym law ∙ e)

pub ruleset map_laws = (lookup-insert, lookup-delete)
