-- ===== src/Ws/Rooms/Sets.antt =====
-- A JavaScript `Set` of texts: a list in the order of insertion, with what `has` says of it.
use pilots_hq.Prelude.{
  ◌≡◌, refl, String, Bool, true, false, ◌&&◌, ◌||◌, not, List, [], ◌∷◌, ◌++◌, arith, str_eq, eq_iff,
  if◌then◌else◌,
}

unfoldable pub contains : String → List String → Bool
contains x [] = false
contains x (y ∷ ys) = str_eq y x || contains x ys

unfoldable pub add : String → List String → List String
unfolding contains
add x s = if contains x s then s else s ++ x ∷ []

unfoldable pub delete : String → List String → List String
delete x [] = []
delete x (y ∷ ys) = if str_eq y x then delete x ys else y ∷ delete x ys

unfoldable pub is_empty : List String → Bool
is_empty [] = true
is_empty (x ∷ xs) = false

contains-snoc :
    (x y : String) (s : List String) → contains y (s ++ x ∷ []) ≡ (str_eq x y || contains y s)
unfolding contains
contains-snoc x y [] = ground arith
contains-snoc x y (z ∷ s) = ground (arith, contains-snoc x y s)

pub contains-add :
    (x y : String) (s : List String) → contains y (add x s) ≡ (str_eq x y || contains y s)
unfolding add
contains-add x y s = ground (arith, contains-snoc x y s, eq_iff x y)

pub contains-delete :
    (x y : String) (s : List String) → contains y (delete x s) ≡ (not (str_eq x y) && contains y s)
unfolding contains delete
contains-delete x y [] = ground arith
contains-delete x y (z ∷ s) =
    ground (arith, contains-delete x y s, eq_iff x y, eq_iff z x, eq_iff z y)

pub contains-is_empty : (y : String) (s : List String) → is_empty s ≡ true → contains y s ≡ false
unfolding contains is_empty
contains-is_empty y [] h = refl
contains-is_empty y (x ∷ s) h = absurd (ground arith)
