-- ===== src/Synth/Starttime/Stat.antt =====
-- The two readers on a line of /proc/<pid>/stat.
use wslcompat.Prelude.{
  ℕ, suc, ◌-◌, ◌^◌, ◌<◌, ◌≡◌, refl, sym, ap, ◌∙◌, Bool, true, false, none, some, List, [], ◌∷◌,
  ◌++◌, arith, ◌==◌, length, take, take_all,
}
use mathlib.Core.List.{append_assoc}
use mathlib.Core.Path.{subst}
use wslcompat.Prelude.Decimal.{
  decimal, signed, HasNone, HasNone-append, decimal-HasNone, strtoull, digit_first,
  strtoull-decimal, strtoull-end, strtoull-signed, to_ull,
}
use wslcompat.Synth.Starttime.{
  stat_buf, after_last, skip_blanks, skip_word, skip_fields, read_proc_starttime, skip_by_spaces,
  get_start_time,
}

-- A field of the line: a number and its sign.
pub record Field : Type 0 where
  pub negative : Bool
  pub magnitude : ℕ

abbrev pub write_field : Field → List ℕ
write_field f = 32 ∷ signed f.negative f.magnitude

abbrev pub write_fields : List Field → List ℕ → List ℕ
write_fields [] rest = rest
write_fields (f ∷ fs) rest = write_field f ++ write_fields fs rest

-- pid (comm) state, the fields from ppid to itrealvalue, starttime, and what follows it.
pub record Line : Type 0 where
  pub pid : ℕ
  pub comm : List ℕ
  pub state : ℕ
  pub fields : List Field
  pub starttime : ℕ
  pub rest : List ℕ

abbrev pub tail_of : Line → List ℕ
tail_of l = write_fields l.fields (32 ∷ decimal l.starttime ++ l.rest)

abbrev pub write : Line → List ℕ
write l = decimal l.pid ++ 32 ∷ b'(' ∷ (l.comm ++ b')' ∷ 32 ∷ l.state ∷ tail_of l)

after_last-none : (xs : List ℕ) → HasNone b')' xs → after_last xs ≡ none
unfolding after_last
after_last-none [] h = refl
after_last-none (x ∷ xs) h = rw (after_last-none xs h.1, h.0) refl

-- Whatever stands before the last ')'.
after_last-last : (xs ys : List ℕ) → HasNone b')' ys → after_last (xs ++ b')' ∷ ys) ≡ some ys
unfolding after_last
after_last-last [] ys h = rw (after_last-none ys h) refl
after_last-last (x ∷ xs) ys h = rw (after_last-last xs ys h) refl

write_fields-digit_first :
    (fs : List Field) (rest : List ℕ)
    → digit_first rest ≡ false
    → digit_first (write_fields fs rest) ≡ false
write_fields-digit_first [] rest h = h
write_fields-digit_first (f ∷ fs) rest h = refl

skip_fields-fields :
    (fs : List Field) (rest : List ℕ)
    → digit_first rest ≡ false
    → skip_fields (length fs) (write_fields fs rest) ≡ rest
unfolding skip_fields
skip_fields-fields [] rest h = refl
skip_fields-fields (f ∷ fs) rest h =
    rw
      (
        strtoull-end f.negative f.magnitude (write_fields fs rest)
            (write_fields-digit_first fs rest h),
        skip_fields,
      )
      (skip_fields-fields fs rest h)

signed-HasNone : (neg : Bool) (n : ℕ) → HasNone b')' (signed neg n)
signed-HasNone true n = (refl, decimal-HasNone b')' n refl)
signed-HasNone false n = decimal-HasNone b')' n refl

write_fields-HasNone :
    (fs : List Field) (rest : List ℕ) → HasNone b')' rest → HasNone b')' (write_fields fs rest)
write_fields-HasNone [] rest h = h
write_fields-HasNone (f ∷ fs) rest h = (
  refl,
  HasNone-append b')' (signed f.negative f.magnitude) _ (signed-HasNone f.negative f.magnitude)
      (write_fields-HasNone fs rest h),
)

-- The state is one letter, there are 18 fields behind it, the start time fits 64 bits and ends the
-- line or has no digit behind it, and no ')' follows.
pub record IsStat (l : Line) : Type 0 where
  pub state_letter : ((l.state == 32) ≡ false) × ((l.state == b')') ≡ false)
  pub field_count : length l.fields ≡ 18
  pub fits : l.starttime < 2 ^ 64
  pub ends : digit_first l.rest ≡ false
  pub plain : HasNone b')' l.rest
  pub read_whole : length (write l) < stat_buf

tail-HasNone : (l : Line) → IsStat l → HasNone b')' (tail_of l)
tail-HasNone l s = write_fields-HasNone l.fields (32 ∷ decimal l.starttime ++ l.rest) (
  refl,
  HasNone-append b')' (decimal l.starttime) l.rest (decimal-HasNone b')' l.starttime refl) s.plain,
)

-- Both readers find the state behind the name, whatever the name is.
after_last-write :
    (l : Line)
    → IsStat l
    → after_last (take (stat_buf - 1) (write l)) ≡ some (32 ∷ l.state ∷ tail_of l)
after_last-write l s =
    let whole : take (stat_buf - 1) (write l) ≡ write l =
      take_all (stat_buf - 1) (write l) (omega (arith, s.read_whole)) in
    let front = decimal l.pid ++ 32 ∷ b'(' ∷ l.comm in
    let split : write l ≡ front ++ b')' ∷ (32 ∷ l.state ∷ tail_of l) =
      sym (append_assoc (decimal l.pid) (32 ∷ b'(' ∷ l.comm) (b')' ∷ 32 ∷ l.state ∷ tail_of l)) in
    ap after_last (whole ∙ split)
    ∙ after_last-last front (32 ∷ l.state ∷ tail_of l) (refl, (s.state_letter.1, tail-HasNone l s))

word_space :
    (fs : List Field) (rest : List ℕ)
    → skip_word (write_fields fs (32 ∷ rest)) ≡ write_fields fs (32 ∷ rest)
unfolding skip_word
word_space [] rest = refl
word_space (f ∷ fs) rest = refl

-- The state's letter is one word.
skip_letter :
    (c : ℕ) (t : List ℕ) → (c == 32) ≡ false → skip_word (skip_blanks (32 ∷ c ∷ t)) ≡ skip_word t
unfolding skip_word skip_blanks
skip_letter c t h = rw (h, skip_blanks, h, skip_word) refl

-- The state and the fields before the start time are skipped.
skipped :
    (l : Line)
    → IsStat l
    → skip_fields 18 (skip_word (skip_blanks (32 ∷ l.state ∷ tail_of l)))
      ≡ 32 ∷ decimal l.starttime ++ l.rest
skipped l s =
    ap (skip_fields 18) (
      skip_letter l.state (tail_of l) s.state_letter.0
      ∙ word_space l.fields (decimal l.starttime ++ l.rest))
    ∙ subst (λ n. skip_fields n (tail_of l) ≡ 32 ∷ decimal l.starttime ++ l.rest) s.field_count
        (skip_fields-fields l.fields (32 ∷ decimal l.starttime ++ l.rest) refl)

-- For a line of /proc/<pid>/stat with any name, spaces and parentheses included, that fits the
-- buffer: read_proc_starttime gives the start time, the 22nd field.
pub read_proc_starttime-write :
    (l : Line) → IsStat l → read_proc_starttime (some (write l)) ≡ l.starttime
unfolding read_proc_starttime
read_proc_starttime-write l s =
    rw (after_last-write l s, read_proc_starttime)
      (ap (λ p. (strtoull p).0) (skipped l s)
        ∙ ap (λ (r : ℕ × List ℕ). r.0) (strtoull-decimal l.starttime l.rest s.ends s.fits).1)

skip_by_spaces-word :
    (n : ℕ) (xs r : List ℕ)
    → HasNone 32 xs
    → skip_by_spaces (suc n) (xs ++ 32 ∷ r) ≡ skip_by_spaces n r
unfolding skip_by_spaces
skip_by_spaces-word n [] r h = refl
skip_by_spaces-word n (x ∷ xs) r h = rw (h.0, skip_by_spaces) (skip_by_spaces-word n xs r h.1)

signed_one_word : (neg : Bool) (n : ℕ) → HasNone 32 (signed neg n)
signed_one_word true n = (refl, decimal-HasNone 32 n refl)
signed_one_word false n = decimal-HasNone 32 n refl

skip_by_spaces-fields :
    (fs : List Field) (f : Field) (xs rest : List ℕ)
    → HasNone 32 xs
    → skip_by_spaces (length (fs ++ f ∷ [])) (xs ++ write_fields (fs ++ f ∷ []) rest)
      ≡ signed f.negative f.magnitude ++ rest
unfolding skip_by_spaces
skip_by_spaces-fields [] f xs rest h =
    skip_by_spaces-word 0 xs (signed f.negative f.magnitude ++ rest) h
skip_by_spaces-fields (g ∷ fs) f xs rest h =
    skip_by_spaces-word (length (fs ++ f ∷ [])) xs
      (signed g.negative g.magnitude ++ write_fields (fs ++ f ∷ []) rest) h
    ∙ skip_by_spaces-fields fs f (signed g.negative g.magnitude) rest
        (signed_one_word g.negative g.magnitude)

-- On such a line, get_start_time gives the field before the start time, the 21st.
pub get_start_time-write :
    (l : Line) (fs : List Field) (f : Field)
    → IsStat l
    → l.fields ≡ fs ++ f ∷ []
    → get_start_time (some (write l)) ≡ to_ull f.negative f.magnitude
unfolding get_start_time skip_by_spaces
get_start_time-write l fs f s e =
    let rest = 32 ∷ decimal l.starttime ++ l.rest in
    let one_letter : HasNone 32 (l.state ∷ []) = (s.state_letter.0, tt) in
    let there : skip_by_spaces 19 (b')' ∷ 32 ∷ l.state ∷ tail_of l)
        ≡ signed f.negative f.magnitude ++ rest =
      skip_by_spaces-word 18 (b')' ∷ []) (l.state ∷ tail_of l) (refl, tt)
      ∙ subst
          (λ gs.
            skip_by_spaces 18 ((l.state ∷ []) ++ write_fields gs rest)
            ≡ signed f.negative f.magnitude ++ rest)
          (sym e)
          (subst
            (λ n.
              skip_by_spaces n ((l.state ∷ []) ++ write_fields (fs ++ f ∷ []) rest)
              ≡ signed f.negative f.magnitude ++ rest)
            (ap length (sym e) ∙ s.field_count)
            (skip_by_spaces-fields fs f (l.state ∷ []) rest one_letter)) in
    rw (after_last-write l s, get_start_time)
      (ap (λ p. (strtoull p).0) there
        ∙ ap (λ (r : ℕ × List ℕ). r.0) (strtoull-signed f.negative f.magnitude rest refl))
