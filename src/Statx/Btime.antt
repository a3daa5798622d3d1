-- ===== src/Statx/Btime.antt =====
-- The birth time that open records and statx reads.
use wslcompat.Prelude.{
  ℕ, zero, suc, ◌+◌, ◌-◌, ◌*◌, ◌/◌, ◌%◌, ◌^◌, ◌<◌, ◌≡◌, refl, sym, ap, ◌∙◌, true, some, [], ◌∷◌,
  ◌++◌, arith, lt→ltb,
}
use wslcompat.Prelude.Int.{ℤ, pos, negsuc}
use mathlib.Core.List.{append-nil}
use wslcompat.Prelude.Decimal.{
  skip_spaces, read_sign, read_digits, digit_first, decimal, value, AllDigits, AllDigits-snoc,
  value-snoc, read_digits-value, digit_first-append, digit_first-decimal, read_digits-decimal,
  digit_sign,
}
use wslcompat.Statx.{
  Timestamp, pad, print_seconds, btime_text, to_ll, scan_nsec, scan_fraction, scan_btime, Target,
  read_btime_xattr,
}

-- 10 ^ w
abbrev pow10 : ℕ → ℕ
pow10 zero = 1
pow10 (suc w) = pow10 w * 10

pad-AllDigits : (w n : ℕ) → AllDigits (pad w n)
unfolding pad AllDigits
pad-AllDigits zero n = tt
pad-AllDigits (suc w) n =
    AllDigits-snoc (pad w (n / 10)) (48 + n % 10) (pad-AllDigits w (n / 10)) (ground arith)

pad-value : (w n : ℕ) → n < pow10 w → value 0 (pad w n) ≡ n
unfolding pad value
pad-value zero n h = omega arith
pad-value (suc w) n h =
    let front = pad-value w (n / 10) (omega arith) in
    let sum : n / 10 * 10 + (48 + n % 10 - 48) ≡ n = omega arith in
    value-snoc 0 (pad w (n / 10)) (48 + n % 10) ∙ ap (λ v. v * 10 + (48 + n % 10 - 48)) front ∙ sum

pad-digit_first : (w n : ℕ) → digit_first (pad (suc w) n) ≡ true
unfolding pad
pad-digit_first zero n = ground arith
pad-digit_first (suc w) n = digit_first-append (pad (suc w) (n / 10)) _ (pad-digit_first w (n / 10))

-- A long long.
abbrev pub FitsLong : ℤ → Type 0
FitsLong (pos s) = s < 2 ^ 63
FitsLong (negsuc s) = s < 2 ^ 63

-- A timestamp of the kernel: seconds of 64 bits, and less than a second.
pub record IsTimestamp (ts : Timestamp) : Type 0 where
  pub sec_fits : FitsLong ts.tv_sec
  pub nsec_fits : ts.tv_nsec < 10 ^ 9

fraction-pad :
    (sec : ℤ) (n : ℕ)
    → n < 10 ^ 9
    → scan_fraction sec (b'.' ∷ pad 9 n) ≡ some (record { tv_sec = sec; tv_nsec = n })
unfolding scan_fraction scan_nsec
fraction-pad sec n h =
    let d = pad-digit_first 8 n in
    let digits = read_digits-value 0 (pad 9 n) [] (pad-AllDigits 9 n) refl in
    let whole : read_digits 0 (pad 9 n) ≡ (n, []) =
      ap (read_digits 0) (sym (append-nil (pad 9 n)))
      ∙ digits
      ∙ ap (λ v. (v, [])) (pad-value 9 n h) in
    let small : n % 2 ^ 32 ≡ n = omega (arith, h) in
    rw (digit_sign (pad 9 n) d, d, whole, small) refl

scan_seconds :
    (sec : ℤ) (n : ℕ)
    → FitsLong sec
    → scan_btime (print_seconds sec ++ b'.' ∷ pad 9 n) ≡ scan_fraction sec (b'.' ∷ pad 9 n)
unfolding scan_btime print_seconds to_ll skip_spaces read_sign
scan_seconds (pos s) n h =
    let r = b'.' ∷ pad 9 n in
    rw
      (
        digit_sign (decimal s ++ r) (digit_first-decimal s r),
        digit_first-decimal s r,
        read_digits-decimal s r refl,
        lt→ltb s (2 ^ 63) h,
      )
      refl
scan_seconds (negsuc s) n h =
    let r = b'.' ∷ pad 9 n in
    rw (digit_first-decimal (suc s) r, read_digits-decimal (suc s) r refl, lt→ltb s (2 ^ 63) h) refl

-- What record_btime_now writes for a time, read_btime_xattr reads as that time, also before 1970,
-- whatever name it finds the file by.
pub read_btime_xattr-btime_text :
    (ts : Timestamp) (target : Target)
    → IsTimestamp ts
    → read_btime_xattr (λ t. some (btime_text ts)) (some target) ≡ some ts
unfolding read_btime_xattr btime_text
read_btime_xattr-btime_text ts target v =
    scan_seconds ts.tv_sec ts.tv_nsec v.sec_fits ∙ fraction-pad ts.tv_sec ts.tv_nsec v.nsec_fits
