-- ===== src/Base/Text.antt =====
-- Strings as lists of bytes, and what the code uses of `std::string` and of maps keyed by one.
use Prim.Native.Nat.{ℕ}
use Prim.Native.Char.{code}
use Prim.Native.String.{String}
use mathlib.Core.Path.{◌≡◌, refl}
use mathlib.Core.Logic.{◌↔◌}
use mathlib.Core.List.{List, [], ◌∷◌, ◌++◌}
use mathlib.Core.Bool.{Bool, true, false, ◌&&◌, ◌||◌, not}
use mathlib.Core.Option.{Option, none, some}
use native.Mathlib.Omega.{arith}
use mathlib.Core.Logic.{inl, inr}
use catena.Base.Tests.{◌==◌, if◌then◌else◌, Bool-cases}
use catena.Base.Lists.{length, drop, any}

abbrev pub Text : Type 0
Text = List ℕ

-- A literal: its code points, which are its bytes, since the code's literals are ASCII.
abbrev pub txt : String → Text
txt String.[] = []
txt (String.◌∷◌ c s) = code c ∷ txt s

unfoldable pub eqb : Text → Text → Bool
eqb [] [] = true
eqb (a ∷ s) (b ∷ t) = a == b && eqb s t
eqb _ _ = false

unfoldable pub starts_with : Text → Text → Bool
starts_with s [] = true
starts_with (a ∷ s) (b ∷ t) = a == b && starts_with s t
starts_with [] (b ∷ t) = false

unfoldable pub ends_with : Text → Text → Bool
unfolding eqb
ends_with [] t = eqb [] t
ends_with (a ∷ s) t = eqb (a ∷ s) t || ends_with s t

pub eqb_sound : (s t : Text) → eqb s t ≡ true → s ≡ t
unfolding eqb
eqb_sound [] [] h = refl
eqb_sound (a ∷ s) (b ∷ t) h = ground (arith, eqb_sound s t)
eqb_sound [] (b ∷ t) h = cc
eqb_sound (a ∷ s) [] h = cc

pub eqb_self : (s : Text) → eqb s s ≡ true
unfolding eqb
eqb_self [] = refl
eqb_self (a ∷ s) = ground (arith, eqb_self s)

pub eqb_iff : (s t : Text) → (eqb s t ≡ true) ↔ (s ≡ t)
eqb_iff s t = (eqb_sound s t, λ e. rw e (eqb_self t))

pub eqb_sym : (s t : Text) → eqb s t ≡ eqb t s
unfolding eqb
eqb_sym [] [] = refl
eqb_sym (a ∷ s) (b ∷ t) = ground (arith, eqb_sym s t)
eqb_sym [] (b ∷ t) = refl
eqb_sym (a ∷ s) [] = refl

pub starts_with-append : (s t : Text) → starts_with (s ++ t) s ≡ true
unfolding starts_with
starts_with-append [] t = refl
starts_with-append (a ∷ s) t = ground (arith, starts_with-append s t)

pub starts_with-drop : (s p : Text) → starts_with s p ≡ true → s ≡ p ++ drop (length p) s
unfolding starts_with
starts_with-drop s [] h = refl
starts_with-drop [] (b ∷ p) h = absurd (ground arith)
starts_with-drop (a ∷ s) (b ∷ p) h = ground (arith, starts_with-drop s p)

abbrev pub is_some {ℓ} : {A : Type ℓ} → Option A → Bool
is_some none = false
is_some (some a) = true

-- A map keyed by text, as the list of its entries; the order of an `unordered_map` is unspecified.
module _ {ℓ} {V : Type ℓ} where
  unfoldable pub lookup : Text → List (Text × V) → Option V
  lookup k [] = none
  lookup k ((j, v) ∷ m) = if eqb j k then some v else lookup k m

  unfoldable pub insert : Text → V → List (Text × V) → List (Text × V)
  insert k v [] = (k, v) ∷ []
  insert k v ((j, w) ∷ m) = if eqb j k then (k, v) ∷ m else (j, w) ∷ insert k v m

  unfoldable pub erase : Text → List (Text × V) → List (Text × V)
  erase k [] = []
  erase k ((j, w) ∷ m) = if eqb j k then erase k m else (j, w) ∷ erase k m

  unfoldable pub contains_key : Text → List (Text × V) → Bool
  contains_key k [] = false
  contains_key k ((j, v) ∷ m) = eqb j k || contains_key k m

  -- No key occurs twice.
  unfoldable pub IsMap : List (Text × V) → Type 0
  IsMap [] = Unit
  IsMap ((k, v) ∷ m) = (contains_key k m ≡ false) × IsMap m

  pub lookup-insert :
      (k j : Text) (v : V) (m : List (Text × V))
      → lookup j (insert k v m) ≡ (if eqb k j then some v else lookup j m)
  unfolding lookup insert
  lookup-insert k j v [] = refl
  lookup-insert k j v ((i, w) ∷ m) =
      ground (arith, eqb_iff k j, eqb_iff i k, eqb_iff i j, lookup-insert k j v m)

  pub lookup-erase :
      (k j : Text) (m : List (Text × V))
      → lookup j (erase k m) ≡ (if eqb k j then none else lookup j m)
  unfolding lookup erase
  lookup-erase k j [] = ground arith
  lookup-erase k j ((i, w) ∷ m) =
      ground (arith, eqb_iff k j, eqb_iff i k, eqb_iff i j, lookup-erase k j m)

  pub contains_key-insert :
      (k j : Text) (v : V) (m : List (Text × V))
      → contains_key j (insert k v m) ≡ (eqb k j || contains_key j m)
  unfolding contains_key insert
  contains_key-insert k j v [] = ground arith
  contains_key-insert k j v ((i, w) ∷ m) =
      ground (arith, eqb_iff k j, eqb_iff i k, eqb_iff i j, contains_key-insert k j v m)

  pub contains_key-erase :
      (k j : Text) (m : List (Text × V))
      → contains_key j (erase k m) ≡ (not (eqb k j) && contains_key j m)
  unfolding contains_key erase
  contains_key-erase k j [] = ground arith
  contains_key-erase k j ((i, w) ∷ m) =
      ground (arith, eqb_iff k j, eqb_iff i k, eqb_iff i j, contains_key-erase k j m)

  pub contains_key-lookup :
      (k : Text) (m : List (Text × V)) → contains_key k m ≡ is_some (lookup k m)
  unfolding contains_key lookup
  contains_key-lookup k [] = refl
  contains_key-lookup k ((j, w) ∷ m) = ground (arith, contains_key-lookup k m)

  any_key-missing :
      (k : Text) (q : Text → V → Bool) (m : List (Text × V))
      → contains_key k m ≡ false
      → any (λ e. eqb e.0 k && q e.0 e.1) m ≡ false
  unfolding contains_key
  any_key-missing k q [] h = refl
  any_key-missing k q ((j, w) ∷ m) h = ground (arith, any_key-missing k q m)

  -- A test of every entry with a key is one of the entry that a lookup finds.
  pub any_key-lookup :
      (k : Text) (v : V) (q : Text → V → Bool) (m : List (Text × V))
      → IsMap m
      → lookup k m ≡ some v
      → any (λ e. eqb e.0 k && q e.0 e.1) m ≡ q k v
  unfolding IsMap lookup
  any_key-lookup k v q [] h e = absurd (ground arith)
  any_key-lookup k v q ((j, w) ∷ m) (new, h) e = elim (Bool-cases (eqb j k)) [
    | inl same ↦
        let key : j ≡ k = eqb_sound j k same in
        let value : w ≡ v = ground arith in
        rw (same, any_key-missing k q m (rw (← key) new), key, value) (ground arith)
    | inr other ↦ rw other (any_key-lookup k v q m h (rw other at e))
  ]
