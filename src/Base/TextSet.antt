-- ===== src/Base/TextSet.antt =====
-- `std::set<std::string>`: its members in ascending order.
use mathlib.Core.Path.{◌≡◌, refl}
use mathlib.Core.List.{List, [], ◌∷◌}
use mathlib.Core.Bool.{Bool, true, false, ◌&&◌, ◌||◌, not}
use native.Mathlib.Omega.{arith}
use catena.Base.Tests.{ltb, ◌==◌, if◌then◌else◌}
use catena.Base.Text.{Text, eqb, eqb_iff}

unfoldable pub lt_text : Text → Text → Bool
lt_text s [] = false
lt_text [] (b ∷ t) = true
lt_text (a ∷ s) (b ∷ t) = ltb a b || (a == b && lt_text s t)

unfoldable pub contains : Text → List Text → Bool
contains x [] = false
contains x (y ∷ ys) = eqb y x || contains x ys

unfoldable pub insert : Text → List Text → List Text
insert x [] = x ∷ []
insert x (y ∷ ys) = if eqb y x then y ∷ ys else if lt_text x y then x ∷ y ∷ ys else y ∷ insert x ys

unfoldable pub erase : Text → List Text → List Text
erase x [] = []
erase x (y ∷ ys) = if eqb y x then erase x ys else y ∷ erase x ys

pub contains-insert :
    (x z : Text) (s : List Text) → contains z (insert x s) ≡ (eqb x z || contains z s)
unfolding contains insert
contains-insert x z [] = refl
contains-insert x z (y ∷ ys) =
    ground (arith, eqb_iff y x, eqb_iff x z, eqb_iff y z, contains-insert x z ys)

pub contains-erase :
    (x z : Text) (s : List Text) → contains z (erase x s) ≡ (not (eqb x z) && contains z s)
unfolding contains erase
contains-erase x z [] = ground arith
contains-erase x z (y ∷ ys) =
    ground (arith, eqb_iff y x, eqb_iff x z, eqb_iff y z, contains-erase x z ys)
