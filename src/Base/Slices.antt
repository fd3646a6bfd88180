-- ===== src/Base/Slices.antt =====
-- Go's byte slices and texts. A slice is `none` where the Go value is nil: `len`, `append`, `range`
-- and `bytes.Equal` read nil as empty, and only `== nil` tells the two apart.
use Prim.Native.Nat.{ℕ}
use Prim.Native.Char.{code}
use Prim.Native.String.{String}
use mathlib.Core.Path.{◌≡◌, refl}
use mathlib.Core.Bool.{Bool, true, false, ◌&&◌}
use mathlib.Core.Logic.{◌↔◌}
use mathlib.Core.List.{List, [], ◌∷◌}
use mathlib.Core.Option.{Option, none, some}
use native.Mathlib.Omega.{arith}
use dcschain.Base.Tests.{◌==◌}

abbrev pub Slice {ℓ} : Type ℓ → Type ℓ
Slice A = Option (List A)

abbrev pub elems {ℓ} : {A : Type ℓ} → Slice A → List A
elems none = []
elems (some xs) = xs

abbrev pub Bytes : Type 0
Bytes = Slice ℕ

-- A Go string, as its bytes.
abbrev pub Text : Type 0
Text = List ℕ

abbrev pub codes : String → Text
codes String.[] = []
codes (String.◌∷◌ c s) = code c ∷ codes s

abbrev pub is_nil {ℓ} : {A : Type ℓ} → Slice A → Bool
is_nil none = true
is_nil (some xs) = false

unfoldable pub text_eq : Text → Text → Bool
text_eq [] [] = true
text_eq (x ∷ xs) (y ∷ ys) = x == y && text_eq xs ys
text_eq [] (y ∷ ys) = false
text_eq (x ∷ xs) [] = false

pub text_eq_iff : (a b : Text) → (text_eq a b ≡ true) ↔ (a ≡ b)
unfolding text_eq
text_eq_iff [] [] = ((λ h. refl), (λ h. refl))
text_eq_iff (x ∷ xs) (y ∷ ys) =
    ((λ h. ground (arith, (text_eq_iff xs ys).0)), (λ h. ground (arith, (text_eq_iff xs ys).1)))
text_eq_iff [] (y ∷ ys) = ((λ h. cc), (λ h. cc))
text_eq_iff (x ∷ xs) [] = ((λ h. cc), (λ h. cc))

-- `bytes.Equal`
abbrev pub bytes_equal : Bytes → Bytes → Bool
bytes_equal a b = text_eq (elems a) (elems b)
