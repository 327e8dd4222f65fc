-- ===== src/FullKey/Decimal.antt =====
-- The occurrence number in the key of an instance, as PmtOccurrence.cpp reads it.
use pmt.Common.{
  length, length-append, ℕ, zero, suc, ◌+◌, ◌*◌, ◌/◌, ◌%◌, ◌-◌, ◌<◌, ◌≡◌, refl, ap, true, [], ◌∷◌,
  ◌++◌, arith, ltb, all, length, length-append, Bool-cases, inl, inr,
}
use pmt.Common.Text.{Text}
use pmt.Common.Text.Laws.{all-append}
use pmt.Occurrence.{is_digit, is_number, digits_value, int_max}
use pmt.Occurrence.Parse.{IsNumber}
use pmt.FullKey.{decimal}

digits_value-append :
    (a : ℕ) (s : Text) (c : ℕ) → digits_value a (s ++ c ∷ []) ≡ digits_value a s * 10 + (c - b'0')
unfolding digits_value
digits_value-append a [] c = refl
digits_value-append a (d ∷ s) c = digits_value-append (a * 10 + (d - b'0')) s c

-- `10 ^ digits` by clauses.
bound : ℕ → ℕ
bound zero = 1
bound (suc digits) = 10 * bound digits

digits_value-decimal : (d n : ℕ) → n < bound d → digits_value 0 (decimal d n) ≡ n
unfolding decimal digits_value bound
digits_value-decimal zero n h = ground (arith, h)
digits_value-decimal (suc d) n h = elim (Bool-cases (ltb n 10)) [
  | inl small ↦ rw small (omega arith)
  | inr large ↦
      let ih = digits_value-decimal d (n / 10) (omega (arith, h)) in
      rw (large, digits_value-append 0 (decimal d (n / 10)) (b'0' + n % 10), ih) (omega arith)
]

decimal-is_number : (d n : ℕ) → is_number (decimal d n) ≡ true
unfolding decimal is_number all
decimal-is_number zero n = refl
decimal-is_number (suc d) n = elim (Bool-cases (ltb n 10)) [
  | inl small ↦ rw small (ground (arith, small))
  | inr large ↦ rw (large) (
      all-append is_digit (decimal d (n / 10)) ((b'0' + n % 10) ∷ []) (decimal-is_number d (n / 10))
        (ground arith))
]

length-decimal : (d n : ℕ) → 0 < length (decimal (suc d) n)
unfolding decimal
length-decimal d n = elim (Bool-cases (ltb n 10)) [
  | inl small ↦ rw small (omega arith)
  | inr large ↦
      let last = (b'0' + n % 10) ∷ [] in
      rw large (omega (arith, length-append (decimal d (n / 10)) last))
]

-- The digits of an occurrence number are an argument that stands for it.
pub decimal-IsNumber :
    (n : ℕ) → n < int_max → IsNumber (decimal 10 n) × (digits_value 0 (decimal 10 n) ≡ n)
unfolding bound
decimal-IsNumber n h =
    let value = digits_value-decimal 10 n (omega (arith, h)) in
    (
      (
        λ empty. absurd (omega (arith, length-decimal 9 n, ap length empty)),
        decimal-is_number 10 n,
        rw value h,
      ),
      value,
    )
