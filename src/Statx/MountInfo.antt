-- ===== src/Statx/MountInfo.antt =====
-- lookup_mnt_id on the text of /proc/self/mountinfo.
use wslcompat.Prelude.{
  ℕ, zero, suc, ◌-◌, ◌%◌, ◌^◌, ◌≤◌, ◌<◌, ◌≡◌, refl, ap, ◌∙◌, ◌≢◌, inl, inr, true, false, ◌&&◌,
  Option, none, some, List, [], ◌∷◌, ◌++◌, arith, ◌==◌, if◌then◌else◌, Bool-cases, Option-cases,
  length, take, take_all, drop, length-append,
}
use wslcompat.Prelude.Decimal.{
  strtoull, digit_first, decimal, digit_first-decimal, strtoull-decimal, strtoull-le, HasNone,
}
use wslcompat.Statx.{
  find_char, Mount, read_minor, read_mount, is_device, mount_loop, mount_buf, lookup_mnt_id,
}

-- A line: the fields behind the device are `rest`.
pub record Line : Type 0 where
  pub id : ℕ
  pub parent : ℕ
  pub major : ℕ
  pub minor : ℕ
  pub rest : List ℕ

abbrev pub write : List Line → List ℕ
write [] = []
write (l ∷ ls) =
    decimal l.id
    ++ 32
      ∷ (decimal l.parent
          ++ 32 ∷ (decimal l.major ++ b':' ∷ (decimal l.minor ++ (l.rest ++ 10 ∷ write ls))))

pub record IsLine (l : Line) : Type 0 where
  pub id_fits : l.id < 2 ^ 64
  pub parent_fits : l.parent < 2 ^ 64
  pub major_fits : l.major < 2 ^ 32
  pub minor_fits : l.minor < 2 ^ 32
  pub ends : digit_first (l.rest ++ 10 ∷ []) ≡ false
  pub one_line : HasNone 10 l.rest

abbrev pub AllLines : List Line → Type 0
AllLines [] = Unit {0}
AllLines (l ∷ ls) = IsLine l × AllLines ls

-- The id of the first mount of the device, and 0 without one.
abbrev pub first_id : (major minor : ℕ) → List Line → ℕ
first_id major minor [] = 0
first_id major minor (l ∷ ls) =
    if (l.major == major) && (l.minor == minor) then l.id else first_id major minor ls

digit_first-line :
    (xs more : List ℕ) → digit_first (xs ++ 10 ∷ []) ≡ false → digit_first (xs ++ 10 ∷ more) ≡ false
digit_first-line [] more h = refl
digit_first-line (x ∷ xs) more h = h

find_char-line :
    (xs more : List ℕ) → HasNone 10 xs → find_char 10 (xs ++ 10 ∷ more) ≡ some (10 ∷ more)
unfolding find_char
find_char-line [] more h = refl
find_char-line (x ∷ xs) more h = rw (h.0) (find_char-line xs more h.1)

abbrev mount_of : Line → List ℕ → Mount
mount_of l more = record {
  id = l.id;
  major = l.major;
  minor = l.minor;
  behind = l.rest ++ 10 ∷ more;
}

-- One line is read as it was written.
read_mount-line :
    (l : Line) (ls : List Line)
    → IsLine l
    → read_mount (write (l ∷ ls)) ≡ some (mount_of l (write ls))
unfolding read_mount read_minor
read_mount-line l ls v =
    let tail = l.rest ++ 10 ∷ write ls in
    let minor = b':' ∷ (decimal l.minor ++ tail) in
    let major = 32 ∷ (decimal l.major ++ minor) in
    let parent = 32 ∷ (decimal l.parent ++ major) in
    let e0 = (strtoull-decimal l.id parent refl v.id_fits).0 in
    let e1 = (strtoull-decimal l.parent major refl v.parent_fits).1 in
    let e2 = (strtoull-decimal l.major minor refl (omega (arith, v.major_fits))).1 in
    let e3 =
      (strtoull-decimal l.minor tail (digit_first-line l.rest (write ls) v.ends)
        (omega (arith, v.minor_fits))).0 in
    let m0 : l.major % 2 ^ 32 ≡ l.major = omega (arith, v.major_fits) in
    let m1 : l.minor % 2 ^ 32 ≡ l.minor = omega (arith, v.minor_fits) in
    rw (e0, e1, e2, e3, m0, m1) refl

mount_loop-step :
    (f major minor : ℕ) (s : List ℕ) (m : Mount) (line : List ℕ)
    → digit_first s ≡ true
    → read_mount s ≡ some m
    → find_char 10 m.behind ≡ some line
    → mount_loop (suc f) major minor s ≡ (elim (is_device major minor m) [
      | true ↦ some m.id
      | false ↦ mount_loop f major minor (drop 1 line)
    ])
unfolding mount_loop
mount_loop-step f major minor [] m line d e n = cc
mount_loop-step f major minor (c ∷ cs) m line d e n = ground arith

mount_loop-end : (f major minor : ℕ) → mount_loop (suc f) major minor [] ≡ some 0
unfolding mount_loop
mount_loop-end f major minor = refl

mount_loop-write :
    (f major minor : ℕ) (ls : List Line)
    → AllLines ls
    → length ls < f
    → mount_loop f major minor (write ls) ≡ some (first_id major minor ls)
unfolding is_device
mount_loop-write zero major minor ls v h = absurd (omega arith)
mount_loop-write (suc f) major minor [] v h = mount_loop-end f major minor
mount_loop-write (suc f) major minor (l ∷ ls) v h =
    let line = v.0 in
    let step =
      mount_loop-step f major minor (write (l ∷ ls)) (mount_of l (write ls)) (10 ∷ write ls)
        (digit_first-decimal l.id _) (read_mount-line l ls line)
        (find_char-line l.rest (write ls) line.one_line) in
    let more = mount_loop-write f major minor ls v.1 (omega arith) in
    step ∙ (elim (Bool-cases ((l.major == major) && (l.minor == minor))) [
      | inl y ↦ rw y refl
      | inr n ↦ rw n more
    ])

length-write : (ls : List Line) → length ls ≤ length (write ls)
length-write [] = omega arith
length-write (l ∷ ls) =
    let tail = l.rest ++ 10 ∷ write ls in
    let minor = b':' ∷ (decimal l.minor ++ tail) in
    let major = 32 ∷ (decimal l.major ++ minor) in
    let parent = 32 ∷ (decimal l.parent ++ major) in
    omega (
      arith,
      length-write ls,
      length-append l.rest (10 ∷ write ls),
      length-append (decimal l.minor) tail,
      length-append (decimal l.major) minor,
      length-append (decimal l.parent) major,
      length-append (decimal l.id) parent,
    )

-- On a mountinfo of well-formed lines that fits the buffer, lookup_mnt_id gives the id of the first
-- mount of the device, and 0 if there is none.
pub lookup_mnt_id-write :
    (major minor : ℕ) (ls : List Line)
    → AllLines ls
    → length (write ls) < mount_buf
    → lookup_mnt_id (some (write ls)) major minor ≡ some (first_id major minor ls)
unfolding lookup_mnt_id
lookup_mnt_id-write major minor ls v h =
    ap (mount_loop mount_buf major minor) (take_all (mount_buf - 1) (write ls) (omega (arith, h)))
    ∙ mount_loop-write mount_buf major minor ls v (omega (arith, h, length-write ls))

read_minor-le :
    (id major : ℕ) (s : List ℕ) (m : Mount)
    → read_minor id major s ≡ some m
    → length m.behind ≤ length s
unfolding read_minor
read_minor-le id major [] m e = cc
read_minor-le id major (c ∷ p) m e = ground (arith, strtoull-le p)

read_mount-le : (s : List ℕ) (m : Mount) → read_mount s ≡ some m → length m.behind ≤ length s
unfolding read_mount
read_mount-le s m e =
    let a = strtoull s in
    let b = strtoull a.1 in
    let c = strtoull b.1 in
    omega (arith, strtoull-le s, strtoull-le a.1, strtoull-le b.1, read_minor-le a.0 c.0 c.1 m e)

find_char-le :
    (c : ℕ) (s line : List ℕ) → find_char c s ≡ some line → length (drop 1 line) < length s
unfolding find_char
find_char-le c [] line e = cc
find_char-le c (x ∷ xs) line e = ground (arith, find_char-le c xs line)

mount_loop-next :
    (f major minor c : ℕ) (cs : List ℕ)
    → ((m : Mount) (line : List ℕ)
        → read_mount (c ∷ cs) ≡ some m
        → find_char 10 m.behind ≡ some line
        → mount_loop f major minor (drop 1 line) ≢ none)
    → mount_loop (suc f) major minor (c ∷ cs) ≢ none
unfolding mount_loop
mount_loop-next f major minor c cs next = elim (Option-cases (read_mount (c ∷ cs))) [
  | inl e ↦ rw (e, mount_loop) (λ p. cc)
  | inr (m, e) ↦ elim (Option-cases (find_char 10 m.behind)) [
    | inl n ↦ ground arith
    | inr (line, n) ↦ ground (arith, next m line e n)
  ]
]

-- The loop ends within its fuel on any text.
mount_loop-Ends :
    (f major minor : ℕ) (s : List ℕ) → length s < f → mount_loop f major minor s ≢ none
unfolding mount_loop
mount_loop-Ends zero major minor s h = absurd (omega arith)
mount_loop-Ends (suc f) major minor [] h = λ e. cc
mount_loop-Ends (suc f) major minor (c ∷ cs) h =
    mount_loop-next f major minor c cs (λ m line read found.
      mount_loop-Ends f major minor (drop 1 line)
        (omega (arith, h, read_mount-le (c ∷ cs) m read, find_char-le 10 m.behind line found)))

length-take-le : (n : ℕ) (s : List ℕ) → length (take n s) ≤ n
length-take-le zero s = omega arith
length-take-le (suc n) [] = omega arith
length-take-le (suc n) (c ∷ cs) = omega (arith, length-take-le n cs)

-- Whatever mountinfo holds, lookup_mnt_id returns.
pub lookup_mnt_id-Ends :
    (text : Option (List ℕ)) (major minor : ℕ) → lookup_mnt_id text major minor ≢ none
unfolding lookup_mnt_id
lookup_mnt_id-Ends none major minor = λ e. cc
lookup_mnt_id-Ends (some text) major minor =
    mount_loop-Ends mount_buf major minor (take (mount_buf - 1) text)
      (omega (arith, length-take-le (mount_buf - 1) text))
