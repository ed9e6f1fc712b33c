-- ===== src/Prelude/Texts.antt =====
-- The order of texts by code points, Python's `<=` on `str`: total, transitive, antisymmetric.
use Prim.Native.Nat.{ℕ, Ordering, compare as compare_ℕ}
use Prim.Native.Char.{Char, code}
use Prim.Native.String.{String, compare, then}
use Prim.Native.String.compare
use mathlib.Core.Path.{◌≡◌, refl}
use lucius_engineering.Prelude.Tests.{◌==◌, leb, eqb}
use mathlib.Core.Bool.{Bool, true, false, ◌&&◌, ◌||◌}
use mathlib.Core.List.{List, [], ◌∷◌}
use mathlib.Core.Logic.{◌⊎◌, inl}
use native.Mathlib.Omega.{arith}

-- the code points of a text
abbrev pub codes : String → List ℕ
codes String.[] = []
codes (String.◌∷◌ c s) = code c ∷ codes s

compare-cons :
    (c d : Char) (s t : String)
    → compare (String.◌∷◌ c s) (String.◌∷◌ d t) ≡ then (compare_ℕ (code c) (code d)) (compare s t)
compare-cons c d s t = λ i. compare.cons-cons c d s t i

compare-nil-cons : (d : Char) (t : String) → compare String.[] (String.◌∷◌ d t) ≡ Ordering.lt
compare-nil-cons d t = λ i. compare.nil-cons d t i

compare-cons-nil : (c : Char) (s : String) → compare (String.◌∷◌ c s) String.[] ≡ Ordering.gt
compare-cons-nil c s = λ i. compare.cons-nil c s i

compare-nil : compare String.[] String.[] ≡ Ordering.eq
compare-nil = λ i. compare.nil-nil i

abbrev is_le : Ordering → Bool
is_le Ordering.gt = false
is_le _ = true

-- `s <= t`
abbrev pub str_leb : String → String → Bool
str_leb s t = is_le (compare s t)

pub str_leb_total : (s t : String) → (str_leb s t ≡ true) ⊎ (str_leb t s ≡ true)
str_leb_total String.[] String.[] = inl refl
str_leb_total String.[] (String.◌∷◌ d t) = ground (arith, compare-nil-cons d t)
str_leb_total (String.◌∷◌ c s) String.[] = ground (arith, compare-nil-cons c s)
str_leb_total (String.◌∷◌ c s) (String.◌∷◌ d t) =
    ground (arith, compare-cons c d s t, compare-cons d c t s, str_leb_total s t)

pub str_leb_trans : (s t u : String) → str_leb s t ≡ true → str_leb t u ≡ true → str_leb s u ≡ true
str_leb_trans String.[] String.[] u h k = k
str_leb_trans String.[] (String.◌∷◌ d t) String.[] h k = refl
str_leb_trans String.[] (String.◌∷◌ d t) (String.◌∷◌ e u) h k = ground (arith, compare-nil-cons e u)
str_leb_trans (String.◌∷◌ c s) String.[] u h k = ground (arith, compare-cons-nil c s)
str_leb_trans (String.◌∷◌ c s) (String.◌∷◌ d t) String.[] h k = ground (arith, compare-cons-nil d t)
str_leb_trans (String.◌∷◌ c s) (String.◌∷◌ d t) (String.◌∷◌ e u) h k =
    ground
      (arith, compare-cons c d s t, compare-cons d e t u, compare-cons c e s u, str_leb_trans s t u)

pub str_leb_antisymm : (s t : String) → str_leb s t ≡ true → str_leb t s ≡ true → (s == t) ≡ true
str_leb_antisymm String.[] String.[] h k = refl
str_leb_antisymm String.[] (String.◌∷◌ d t) h k = ground (arith, compare-cons-nil d t)
str_leb_antisymm (String.◌∷◌ c s) String.[] h k = ground (arith, compare-cons-nil c s)
str_leb_antisymm (String.◌∷◌ c s) (String.◌∷◌ d t) h k =
    ground (arith, compare-cons c d s t, compare-cons d c t s, str_leb_antisymm s t)

-- the characters that `str.strip` removes
abbrev pub is_space : ℕ → Bool
is_space c =
    (leb 9 c && leb c 13)
    || (leb 28 c && leb c 32)
    || eqb c 133
    || eqb c 160
    || eqb c 5760
    || (leb 8192 c && leb c 8202)
    || eqb c 8232
    || eqb c 8233
    || eqb c 8239
    || eqb c 8287
    || eqb c 12288

-- `not text.strip()`
unfoldable pub is_blank : String → Bool
is_blank String.[] = true
is_blank (String.◌∷◌ c s) = is_space (code c) && is_blank s
