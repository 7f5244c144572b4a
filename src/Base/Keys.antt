-- ===== src/Base/Keys.antt =====
-- Types whose values the program compares for equality.
use Prim.Native.Nat.{ℕ}
use Prim.Native.String.{String}
use mathlib.Core.Path.{◌≡◌, refl, sym, ap}
use mathlib.Core.List.{List}
use openseer.Base.Lists.{any}
use mathlib.Core.Logic.{◌↔◌, ◌≢◌}
use mathlib.Core.Bool.{Bool, true, false}
use native.Mathlib.Omega.{arith}
use text.Mathlib.Text.{◌==◌ as str_eq}
use text.Mathlib.TextEquality.{eq_iff}
use openseer.Base.Tests.{nat_beq, nat_beq_iff}

pub record Eq {ℓ} (K : Type ℓ) : Type ℓ where
  pub same : K → K → Bool
  pub same_iff : (x y : K) → (same x y ≡ true) ↔ (x ≡ y)

instance abbrev pub string_eq : Eq String
string_eq = record { same = str_eq; same_iff = eq_iff }

instance abbrev pub nat_eq : Eq ℕ
nat_eq = record { same = nat_beq; same_iff = nat_beq_iff }

infix 50 ◌==◌
abbrev pub ◌==◌ {ℓ} : {K : Type ℓ} ⦃key : Eq K⦄ → K → K → Bool
◌==◌ ⦃key⦄ = key.same

pub str_eq_iff : (x y : String) → ((x == y) ≡ true) ↔ (x ≡ y)
str_eq_iff = eq_iff

pub str_eq_self : (x : String) → (x == x) ≡ true
str_eq_self x = (eq_iff x x).1 refl

pub str_eq_ne : (x y : String) → x ≢ y → (x == y) ≡ false
str_eq_ne x y h = ground (arith, eq_iff x y)

-- A text is in a list, whichever way it is spelled.
pub any_same :
    (x y : String) (texts : List String)
    → (x == y) ≡ true
    → any (λ t. t == y) texts ≡ any (λ t. t == x) texts
any_same x y texts h = ap (λ z. any (λ t. t == z) texts) (sym ((eq_iff x y).0 h))
