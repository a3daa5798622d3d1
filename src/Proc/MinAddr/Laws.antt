-- ===== src/Proc/MinAddr/Laws.antt =====
-- Reading the file in pieces gives the text.
use wslcompat.Prelude.{
  ℕ, zero, suc, ◌+◌, ◌-◌, ◌≤◌, ◌≡◌, refl, sym, ap, ◌∙◌, inl, inr, List, [], ◌∷◌, ◌++◌, arith, ltb,
  leb, if◌then◌else◌, ltb→lt, leb→le, Bool-cases, length, take, take_all, drop, ret,
}
use wslcompat.Prelude.Int.{pos}
use wslcompat.Proc.MinAddr.{mmap_min_addr_read, mmap_min_addr_pread}

length-drop : (p : ℕ) (t : List ℕ) → length (drop p t) ≡ length t - p
length-drop zero t = omega arith
length-drop (suc p) [] = omega arith
length-drop (suc p) (x ∷ t) = omega (arith, length-drop p t)

drop_all : (p : ℕ) (t : List ℕ) → length t ≤ p → drop p t ≡ []
drop_all zero [] h = refl
drop_all zero (x ∷ t) h = absurd (omega arith)
drop_all (suc p) [] h = refl
drop_all (suc p) (x ∷ t) h = drop_all p t (omega arith)

drop-drop : (a b : ℕ) (t : List ℕ) → drop (a + b) t ≡ drop b (drop a t)
drop-drop zero b t = let e : 0 + b ≡ b = omega arith in rw e refl
drop-drop (suc a) b [] =
    let e : suc a + b ≡ suc (a + b) = omega arith in rw e (sym (drop_all b [] (omega arith)))
drop-drop (suc a) b (x ∷ t) =
    let e : suc a + b ≡ suc (a + b) = omega arith in rw e (drop-drop a b t)

take_two : (a b : ℕ) (t : List ℕ) → take a t ++ take b (drop a t) ≡ take (a + b) t
take_two zero b t = let e : 0 + b ≡ b = omega arith in rw e refl
take_two (suc a) b [] =
    let e : suc a + b ≡ suc (a + b) = omega arith in rw e (take_all b [] (omega arith))
take_two (suc a) b (x ∷ t) =
    let e : suc a + b ≡ suc (a + b) = omega arith in rw e (ap (λ l. x ∷ l) (take_two a b t))

-- The number of bytes that a read at `p` moves.
moved : List ℕ → ℕ → ℕ → ℕ
moved t p count =
    if leb (length t) p then 0 else if ltb (length t - p) count then length t - p else count

read-moved :
    (t : List ℕ) (p count : ℕ)
    → mmap_min_addr_read t p count ≡ (p + moved t p count, take count (drop p t))
unfolding mmap_min_addr_read moved
read-moved t p count = elim (Bool-cases (leb (length t) p)) [
  | inl y ↦
      let e : drop p t ≡ [] = drop_all p t (leb→le (length t) p y) in
      let e' : p + 0 ≡ p = omega arith in
      rw (y, e, e') (ap (λ l. (p, l)) (sym (take_all count [] (omega arith))))
  | inr n ↦ elim (Bool-cases (ltb (length t - p) count)) [
    | inl y ↦
        let le : length (drop p t) ≤ length t - p = omega (arith, length-drop p t) in
        let le' : length (drop p t) ≤ count =
          omega (arith, length-drop p t, ltb→lt (length t - p) count y) in
        rw (n, y) (ap (λ l. (p + (length t - p), l)) (take_all _ _ le ∙ sym (take_all _ _ le')))
    | inr z ↦ rw (n, z) refl
  ]
]

-- What is left behind the bytes moved.
drop-moved : (t : List ℕ) (p count : ℕ) → drop (p + moved t p count) t ≡ drop count (drop p t)
unfolding moved
drop-moved t p count = elim (Bool-cases (leb (length t) p)) [
  | inl y ↦
      let e : drop p t ≡ [] = drop_all p t (leb→le (length t) p y) in
      let e' : p + 0 ≡ p = omega arith in rw (y, e', e) (sym (drop_all count [] (omega arith)))
  | inr n ↦ elim (Bool-cases (ltb (length t - p) count)) [
    | inl y ↦
        let le : length t ≤ p + (length t - p) = omega arith in
        let le' : length (drop p t) ≤ count =
          omega (arith, length-drop p t, ltb→lt (length t - p) count y) in
        rw (n, y) (drop_all _ t le ∙ sym (drop_all count (drop p t) le'))
    | inr z ↦ rw (n, z) (drop-drop p count t)
  ]
]

-- Reads one after the other: all the bytes that they return.
abbrev pub read_all : List ℕ → ℕ → List ℕ → List ℕ
read_all t p [] = []
read_all t p (c ∷ cs) = (mmap_min_addr_read t p c).1 ++ read_all t (mmap_min_addr_read t p c).0 cs

abbrev pub sum : List ℕ → ℕ
sum [] = 0
sum (c ∷ cs) = c + sum cs

-- Reads of any sizes, one after the other from a position on, return together the text from there,
-- as far as the sizes reach: nothing is lost, repeated, or read beyond the end.
pub read_all_lem : (t : List ℕ) (p : ℕ) (cs : List ℕ) → read_all t p cs ≡ take (sum cs) (drop p t)
read_all_lem t p [] = refl
read_all_lem t p (c ∷ cs) = rw (read-moved t p c) (
    ap (λ l. take c (drop p t) ++ l)
      (read_all_lem t (p + moved t p c) cs ∙ ap (take (sum cs)) (drop-moved t p c))
    ∙ take_two c (sum cs) (drop p t))

-- At an offset that is not negative, pread returns the bytes that a read at that position returns.
pub pread-read :
    (t : List ℕ) (count o : ℕ)
    → mmap_min_addr_pread t count (pos o) ≡ ret (mmap_min_addr_read t o count).1
unfolding mmap_min_addr_pread mmap_min_addr_read
pread-read t count o = ground arith
