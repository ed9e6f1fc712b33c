-- ===== src/Persistence/Fresh.antt =====
-- The ids of `next_id`: they read back, and they are new.
use Prim.Native.Char.{Char, code}
use Prim.Native.String.{◌++◌ as append}
use Prim.Native.String.append
use lucius_engineering.Prelude.{
  ℕ, zero, suc, ◌+◌, ◌-◌, ◌/◌, ◌%◌, ◌≤◌, ◌<◌, String, ◌≡◌, ◌≢◌, refl, ap, ◌∙◌, true, false, Option,
  none, some, List, [], ◌∷◌, arith, eqb, lookup, mem, In, here, there, mem_iff, Bool-cases, inl,
  inr,
}
use lucius_engineering.Domain.Ids.{
  Entity, entity_name, entity_prefix, digit, pad, decimal6, public_id, format_public_id,
}
use lucius_engineering.Persistence.{
  IdState, strip_prefix, parse_digits, suffix_number, public_id_number, highest_number,
  persisted_next_number, next_number, next_id,
}

append-cons : (c : Char) (s t : String) → append (String.◌∷◌ c s) t ≡ String.◌∷◌ c (append s t)
append-cons c s t = λ i. append.cons c s t i

append-nil : (t : String) → append String.[] t ≡ t
append-nil t = λ i. append.nil t i

eqb_refl : (n : ℕ) → eqb n n ≡ true
eqb_refl n = ground arith

strip_prefix-append : (p t : String) → strip_prefix p (append p t) ≡ some t
unfolding strip_prefix
strip_prefix-append String.[] t = rw append-nil
strip_prefix-append (String.◌∷◌ c p) t =
    rw append-cons (rw (eqb_refl (code c)) (strip_prefix-append p t))

code-digit : (d : ℕ) → d < 10 → code (digit d) ≡ 48 + d
unfolding digit
code-digit zero h = refl
code-digit (suc zero) h = refl
code-digit (suc (suc zero)) h = refl
code-digit (suc (suc (suc zero))) h = refl
code-digit (suc (suc (suc (suc zero)))) h = refl
code-digit (suc (suc (suc (suc (suc zero))))) h = refl
code-digit (suc (suc (suc (suc (suc (suc zero)))))) h = refl
code-digit (suc (suc (suc (suc (suc (suc (suc zero))))))) h = refl
code-digit (suc (suc (suc (suc (suc (suc (suc (suc zero)))))))) h = refl
code-digit (suc (suc (suc (suc (suc (suc (suc (suc (suc zero))))))))) h = refl
code-digit (suc (suc (suc (suc (suc (suc (suc (suc (suc (suc d)))))))))) h = absurd (omega arith)

-- reading the last digit of `n` after those in front of it gives `n`
parse_digits-last :
    (n : ℕ) (out : String)
    → parse_digits (n / 10) (String.◌∷◌ (digit (n % 10)) out) ≡ parse_digits n out
unfolding parse_digits
parse_digits-last n out = ground (arith, code-digit (n % 10))

parse_digits-pad :
    (fuel width n : ℕ) (out : String)
    → n + width ≤ fuel
    → parse_digits 0 (pad fuel width n out) ≡ parse_digits n out
unfolding pad
parse_digits-pad zero width n out h = ap (λ k. parse_digits k out) (omega arith)
parse_digits-pad (suc fuel) width n out h = ground (
  arith,
  parse_digits-last n out,
  parse_digits-pad fuel (width - 1) (n / 10) (String.◌∷◌ (digit (n % 10)) out),
)

abbrev number_of : Option ℕ → ℕ
number_of none = 0
number_of (some n) = n

suffix_number-parse :
    (t : String) → t ≢ String.[] → suffix_number (some t) ≡ number_of (parse_digits 0 t)
suffix_number-parse String.[] h = absurd (h refl)
suffix_number-parse (String.◌∷◌ c t) h = refl

cons-ne-nil : (c : Char) (t : String) → String.◌∷◌ c t ≢ String.[]
cons-ne-nil c t e = cc

pad-ne-nil : (fuel width n : ℕ) (out : String) → out ≢ String.[] → pad fuel width n out ≢ String.[]
unfolding pad
pad-ne-nil zero width n out h = h
pad-ne-nil (suc fuel) width n out h = ground (
  arith,
  pad-ne-nil fuel (width - 1) (n / 10) (String.◌∷◌ (digit (n % 10)) out)
      (cons-ne-nil (digit (n % 10)) out),
)

decimal6-ne-nil : (n : ℕ) → decimal6 n ≢ String.[]
unfolding decimal6
decimal6-ne-nil n = rw (six n) (widened (n + 5))
  where
    six : (n : ℕ) → n + 6 ≡ suc (n + 5)
    six n = omega arith

    widened : (fuel : ℕ) → pad (suc fuel) 6 n String.[] ≢ String.[]
    widened fuel =
        unfold pad in pad-ne-nil fuel 5 (n / 10) _ (cons-ne-nil (digit (n % 10)) String.[])

number-decimal6 : (n : ℕ) → suffix_number (some (decimal6 n)) ≡ n
number-decimal6 n =
    suffix_number-parse _ (decimal6-ne-nil n)
    ∙ unfold decimal6 in
      ap number_of (parse_digits-pad (n + 6) 6 n String.[] (omega arith))
      ∙ unfold parse_digits in refl

-- The number of a public id is read back from its text, whatever its size.
pub public_id_number-public_id :
    (e : Entity) (n : ℕ) → public_id_number (public_id e n) (entity_prefix e) ≡ n
unfolding public_id public_id_number
public_id_number-public_id e n = rw strip_prefix-append (number-decimal6 n)

highest_number-In :
    (prefix id : String) (ids : List String)
    → In id ids
    → public_id_number id prefix ≤ highest_number prefix ids
unfolding highest_number
highest_number-In prefix id [] m = elim m [ ]
highest_number-In prefix id (x ∷ ids) here = omega arith
highest_number-In prefix id (x ∷ ids) (there m) = omega (arith, highest_number-In prefix id ids m)

persisted-le-next : (e : Entity) (s : IdState) → persisted_next_number e s ≤ next_number e s
unfolding next_number
persisted-le-next e s = ground arith

-- `next_id` hands out an id that no row has, and the guard of `format_public_id` lets it pass.
pub next_id_fresh :
    (e : Entity) (s : IdState)
    → (mem (next_id e s).0 s.persisted ≡ false)
      × (format_public_id e (next_number e s) ≡ some (next_id e s).0)
next_id_fresh e s = (new, formatted)
  where
    unfolded : persisted_next_number e s ≡ highest_number (entity_prefix e) s.persisted + 1
    unfolded = unfold persisted_next_number in refl

    bound : highest_number (entity_prefix e) s.persisted < next_number e s
    bound = omega (arith, unfolded, persisted-le-next e s)

    old : mem (next_id e s).0 s.persisted ≡ true → ⊥
    old h =
        unfold next_id in
        omega (
          arith,
          bound,
          highest_number-In (entity_prefix e) (public_id e (next_number e s)) s.persisted
              ((mem_iff _ s.persisted).0 h),
          public_id_number-public_id e (next_number e s),
        )

    new : mem (next_id e s).0 s.persisted ≡ false
    new = elim (Bool-cases (mem (next_id e s).0 s.persisted)) [ inl h ↦ absurd (old h) | inr h ↦ h ]

    formatted : format_public_id e (next_number e s) ≡ some (next_id e s).0
    formatted = unfold next_id format_public_id in ground (arith, bound)

pub counter-le-next :
    (e : Entity) (s : IdState) (c : ℕ)
    → lookup (entity_name e) s.counters ≡ some c
    → c ≤ next_number e s
unfolding next_number
counter-le-next e s c h = ground arith
