-- ===== src/Prelude/Keys.antt =====
-- Python's comparison of tuples, component by component, where `rest` compares what follows.
use Prim.Native.Nat.{ℕ}
use Prim.Native.String.{String}
use mathlib.Core.Path.{◌≡◌}
use mathlib.Core.Logic.{◌⊎◌}
use mathlib.Core.Bool.{Bool, true, false}
use native.Mathlib.Omega.{arith}
use lucius_engineering.Prelude.Tests.{if◌then◌else◌, ltb, eqb, ◌==◌, eq_iff}
use lucius_engineering.Prelude.Texts.{str_leb, str_leb_total, str_leb_trans, str_leb_antisymm}

abbrev pub then_by : ℕ → ℕ → Bool → Bool
then_by a b rest = if ltb a b then true else if eqb a b then rest else false

abbrev pub then_by_text : String → String → Bool → Bool
then_by_text a b rest = if a == b then rest else str_leb a b

pub then_by_total :
    (a b : ℕ) (r q : Bool)
    → (r ≡ true) ⊎ (q ≡ true)
    → (then_by a b r ≡ true) ⊎ (then_by b a q ≡ true)
then_by_total a b r q h = ground arith

pub then_by_trans :
    (a b c : ℕ) (p q r : Bool)
    → (p ≡ true → q ≡ true → r ≡ true)
    → then_by a b p ≡ true
    → then_by b c q ≡ true
    → then_by a c r ≡ true
then_by_trans a b c p q r h k l = ground arith

-- the same for a component that counts downwards
pub then_by_trans_down :
    (a b c : ℕ) (p q r : Bool)
    → (p ≡ true → q ≡ true → r ≡ true)
    → then_by b a p ≡ true
    → then_by c b q ≡ true
    → then_by c a r ≡ true
then_by_trans_down a b c p q r h k l = ground arith

pub text_total :
    (a b : String) (r q : Bool)
    → (r ≡ true) ⊎ (q ≡ true)
    → (then_by_text a b r ≡ true) ⊎ (then_by_text b a q ≡ true)
text_total a b r q h = ground (arith, h, str_leb_total a b, eq_iff a b, eq_iff b a)

pub text_trans :
    (a b c : String) (p q r : Bool)
    → (p ≡ true → q ≡ true → r ≡ true)
    → then_by_text a b p ≡ true
    → then_by_text b c q ≡ true
    → then_by_text a c r ≡ true
text_trans a b c p q r h k l = ground (
  arith,
  eq_iff a b,
  eq_iff b c,
  eq_iff a c,
  str_leb_trans a b c,
  str_leb_antisymm a b,
  str_leb_antisymm b c,
)
