-- ===== src/Common/Dict.antt =====
-- Maps whose keys are byte strings, as association lists: the first entry of a key counts.
use mathlib.Core.Path.{◌≡◌, refl}
use mathlib.Core.Bool.{false}
use mathlib.Core.Logic.{inl, inr}
use mathlib.Core.List.{List, [], ◌∷◌}
use mathlib.Core.Option.{Option, none, some}
use korthochain.Common.Tests.{if◌then◌else◌, Bool-cases}
use korthochain.Common.Bytes.{Bytes, bytes_eq, bytes_eq→eq}

module _ {ℓ} {V : Type ℓ} where
  unfoldable pub lookup_key : Bytes → List (Bytes × V) → Option V
  lookup_key k [] = none
  lookup_key k ((j, v) ∷ d) = let rest = lookup_key k d in if bytes_eq j k then some v else rest

  abbrev pub put_key : Bytes → V → List (Bytes × V) → List (Bytes × V)
  put_key k v d = (k, v) ∷ d

  -- Every entry of the key goes.
  unfoldable pub delete_key : Bytes → List (Bytes × V) → List (Bytes × V)
  delete_key k [] = []
  delete_key k ((j, v) ∷ d) =
      let rest = delete_key k d in if bytes_eq j k then rest else (j, v) ∷ rest

  pub lookup-delete_self : (k : Bytes) (d : List (Bytes × V)) → lookup_key k (delete_key k d) ≡ none
  unfolding lookup_key delete_key
  lookup-delete_self k [] = refl
  lookup-delete_self k ((j, v) ∷ d) = elim (Bool-cases (bytes_eq j k)) [
    | inl e ↦ rw e (lookup-delete_self k d)
    | inr e ↦ rw (e, e) (lookup-delete_self k d)
  ]

  pub lookup-delete :
      (k i : Bytes) (d : List (Bytes × V))
      → bytes_eq k i ≡ false
      → lookup_key i (delete_key k d) ≡ lookup_key i d
  unfolding lookup_key delete_key
  lookup-delete k i [] h = refl
  lookup-delete k i ((j, v) ∷ d) h = elim (Bool-cases (bytes_eq j k)) [
    | inl e ↦
        let same : j ≡ k = bytes_eq→eq j k e in
        let other : bytes_eq j i ≡ false = rw same h in rw (e, other) (lookup-delete k i d h)
    | inr e ↦ rw (e, lookup-delete k i d h) refl
  ]
