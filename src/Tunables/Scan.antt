-- ===== src/Tunables/Scan.antt =====
-- The list scan against splitting at commas.
use wslcompat.Prelude.{
  ℕ, zero, suc, ◌+◌, ◌≤◌, ◌<◌, ◌≡◌, refl, ap, inl, inr, Bool, true, false, ◌||◌, Option, none, some,
  List, [], ◌∷◌, ◌++◌, arith, ◌==◌, if◌then◌else◌, Bool-cases, Option-cases, length,
}
use wslcompat.Prelude.Bytes.{text_eq, text_eq_self}
use wslcompat.Tunables.{item_at, scan_list}

-- The items of a comma-separated text.
pub split : List ℕ → List (List ℕ)
split [] = [] ∷ []
split (c ∷ cs) =
    if c == b','
    then [] ∷ split cs
    else elim (split cs) [ [] ↦ (c ∷ []) ∷ [] | item ∷ items ↦ (c ∷ item) ∷ items ]

pub has_item : List ℕ → List (List ℕ) → Bool
has_item x [] = false
has_item x (y ∷ ys) = text_eq y x || has_item x ys

abbrev pub NoNul : List ℕ → Type 0
NoNul [] = Unit {0}
NoNul (c ∷ cs) = ((c == 0) ≡ false) × NoNul cs

first_item : List ℕ → List ℕ
first_item [] = []
first_item (c ∷ cs) = if c == b',' then [] else c ∷ first_item cs

-- What follows the first comma.
after_comma : List ℕ → Option (List ℕ)
after_comma [] = none
after_comma (c ∷ cs) = if c == b',' then some cs else after_comma cs

split-first :
    (v : List ℕ) → split v ≡ first_item v ∷ (elim (after_comma v) [ none ↦ [] | some w ↦ split w ])
unfolding split first_item after_comma
split-first [] = refl
split-first (c ∷ cs) = ground (arith, split-first cs)

-- The rest of the memory after the first item of the text `v`, with `r` behind its NUL.
abbrev rest_after : Option (List ℕ) → List ℕ → List ℕ
rest_after none r = r
rest_after (some w) r = w ++ 0 ∷ r

item_at-first :
    (v r : List ℕ)
    → NoNul v
    → item_at (v ++ 0 ∷ r) ≡ some (first_item v, rest_after (after_comma v) r)
unfolding item_at first_item after_comma
item_at-first [] r h = refl
item_at-first (c ∷ cs) r h = ground (arith, item_at-first cs r h.1)

after_comma-rest :
    (v w : List ℕ) → NoNul v → after_comma v ≡ some w → NoNul w × (length w < length v)
unfolding after_comma
after_comma-rest [] w h e = cc
after_comma-rest (c ∷ cs) w h e = elim (Bool-cases (c == b',')) [
  | inl y ↦ let e' : cs ≡ w = ground arith in (rw e' at h.1, omega (arith, ap length e'))
  | inr n ↦ let (nn, lt) = after_comma-rest cs w h.1 (ground arith) in (nn, omega arith)
]

has_item-split_nil : (x : List ℕ) → text_eq [] x ≡ false → has_item x (split []) ≡ false
unfolding has_item split
has_item-split_nil x nx = ground arith

-- One round of the scan.
scan_list-item :
    (f c : ℕ) (x cs item rest : List ℕ)
    → (c == 0) ≡ false
    → item_at (c ∷ cs) ≡ some (item, rest)
    → scan_list (suc f) x (c ∷ cs)
      ≡ (elim (text_eq item x) [ true ↦ some true | false ↦ scan_list f x rest ])
unfolding scan_list
scan_list-item f c x cs item rest h e = rw (h, e)

has_item-split :
    (x v : List ℕ)
    → has_item x (split v) ≡ (
        text_eq (first_item v) x
        || (elim (after_comma v) [ none ↦ false | some w ↦ has_item x (split w) ]))
unfolding has_item
has_item-split x v = rw (split-first v) (ground arith)

-- A text followed by two NULs, with an item that is not empty to look for.
pub scan_list-split :
    (f : ℕ) (x v r : List ℕ)
    → NoNul v
    → text_eq [] x ≡ false
    → length v + 2 ≤ f
    → scan_list f x (v ++ 0 ∷ 0 ∷ r) ≡ some (has_item x (split v))
scan_list-split zero x v r h nx fuel = absurd (omega arith)
scan_list-split (suc f) x [] r h nx fuel = rw (has_item-split_nil x nx) (unfold scan_list in refl)
scan_list-split (suc zero) x (c ∷ cs) r h nx fuel = absurd (omega arith)
scan_list-split (suc (suc f)) x (c ∷ cs) r h nx fuel =
    let step = scan_list-item (suc f) c x _ _ _ h.0 (item_at-first (c ∷ cs) (0 ∷ r) h) in
    elim (Option-cases (after_comma (c ∷ cs))) [
      | inl e ↦
          let stop : scan_list (suc f) x (0 ∷ r) ≡ some false = unfold scan_list in refl in
          ground (arith, step, has_item-split x (c ∷ cs), stop)
      | inr (w, e) ↦
          let (nn, lt) = after_comma-rest (c ∷ cs) w h e in
          ground (
            arith,
            step,
            has_item-split x (c ∷ cs),
            scan_list-split (suc f) x w r nn nx (omega arith),
          )
    ]

abbrev pub NoComma : List ℕ → Type 0
NoComma [] = Unit {0}
NoComma (c ∷ cs) = ((c == b',') ≡ false) × NoComma cs

item_at-NoComma : (v r : List ℕ) → NoNul v → NoComma v → item_at (v ++ 0 ∷ r) ≡ some (v, r)
unfolding item_at
item_at-NoComma [] r h n = refl
item_at-NoComma (c ∷ cs) r h n = ground (arith, item_at-NoComma cs r h.1 n.1)

-- After a single item that does not match, the scan goes on behind the NUL.
pub scan_list-beyond :
    (f c : ℕ) (x cs r : List ℕ)
    → NoNul (c ∷ cs)
    → NoComma (c ∷ cs)
    → text_eq (c ∷ cs) x ≡ false
    → scan_list (suc f) x (c ∷ cs ++ 0 ∷ r) ≡ scan_list f x r
unfolding scan_list
scan_list-beyond f c x cs r h n ne = rw (h.0, item_at-NoComma (c ∷ cs) r h n, ne)

-- A single item that matches.
pub scan_list-here :
    (f c : ℕ) (cs r : List ℕ)
    → 0 < f
    → NoNul (c ∷ cs)
    → NoComma (c ∷ cs)
    → scan_list f (c ∷ cs) (c ∷ cs ++ 0 ∷ r) ≡ some true
unfolding scan_list
scan_list-here zero c cs r p h n = elim p [ ]
scan_list-here (suc f) c cs r p h n =
    rw (h.0, item_at-NoComma (c ∷ cs) r h n, text_eq_self (c ∷ cs))
