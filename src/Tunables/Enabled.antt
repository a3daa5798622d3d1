-- ===== src/Tunables/Enabled.antt =====
-- What the list options and `wslcompat_enabled` decide, and where the list scan overruns.
use wslcompat.Prelude.{
  ℕ, zero, suc, ◌+◌, ◌-◌, ◌≤◌, ◌<◌, ◌≡◌, refl, sym, ap, ◌∙◌, inl, inr, Bool, true, false, not, ◌&&◌,
  ◌||◌, none, some, List, [], ◌∷◌, ◌++◌, arith, Bool-cases, Option-cases, length, length-append,
  is_some,
}
use mathlib.Core.List.{append_assoc}
use mathlib.Core.Path.{subst, ap₂}
use wslcompat.Prelude.Bytes.{codes, text_eq, text_eq_self, text_eq_iff}
use wslcompat.Tunables.{
  max_options, key_buf, val_buf, Opt, find_option, tunable_str, pad, opt_memory, val_memory,
  scan_list, tunable_list, enabled,
}
use wslcompat.Tunables.Scan.{
  split, has_item, NoNul, NoComma, scan_list-split, scan_list-beyond, scan_list-here,
}

-- A value that leaves two NULs in its buffer.
abbrev pub IsShort : Opt → Type 0
IsShort o = NoNul o.val × (length o.val + 2 ≤ val_buf)

abbrev pub AllShort : List Opt → Type 0
AllShort [] = Unit {0}
AllShort (o ∷ os) = IsShort o × AllShort os

length-pad : (n : ℕ) (xs : List ℕ) → length (pad n xs) ≡ n
unfolding pad
length-pad zero xs = refl
length-pad (suc n) [] = ap suc (length-pad n [])
length-pad (suc n) (x ∷ xs) = ap suc (length-pad n xs)

pad-split : (n : ℕ) (xs : List ℕ) → length xs + 2 ≤ n → (r : List ℕ) × (pad n xs ≡ xs ++ 0 ∷ 0 ∷ r)
unfolding pad
pad-split zero xs h = absurd (omega arith)
pad-split (suc zero) xs h = absurd (omega arith)
pad-split (suc (suc n)) [] h = (pad n [], refl)
pad-split (suc (suc n)) (x ∷ xs) h =
    let (r, e) = pad-split (suc n) xs (omega arith) in (r, ap (λ l. x ∷ l) e)

-- The value of an option in memory, with the rest of the table behind it.
val_memory-find :
    (key : List ℕ) (os : List Opt) (spare : ℕ) (o : Opt)
    → find_option key os ≡ some o
    → AllShort os
    → (r : List ℕ) × (val_memory key os spare ≡ some (pad val_buf o.val ++ r)) × IsShort o
unfolding find_option val_memory
val_memory-find key [] spare o e s = cc
val_memory-find key (p ∷ os) spare o e s = elim (Bool-cases (text_eq key p.key)) [
  | inl y ↦ let e' : p ≡ o = ground arith in (opt_memory os spare, ground arith, rw e' at s.0)
  | inr n ↦
      let (r, m, sh) = val_memory-find key os spare o (ground arith) s.1 in (r, ground arith, sh)
]

val_memory-none :
    (key : List ℕ) (os : List Opt) (spare : ℕ)
    → find_option key os ≡ none
    → val_memory key os spare ≡ none
unfolding find_option val_memory
val_memory-none key [] spare e = refl
val_memory-none key (p ∷ os) spare e = ground (arith, val_memory-none key os spare)

-- The list named by an option, or the empty one.
abbrev pub lists : List Opt → List ℕ → List ℕ → Bool
lists os key x = elim (tunable_str os key) [ none ↦ false | some v ↦ has_item x (split v) ]

tunable_list-memory :
    (os : List Opt) (key x mem : List ℕ)
    → val_memory key os (max_options - length os) ≡ some mem
    → tunable_list os key x ≡ scan_list (length mem) x mem
unfolding tunable_list
tunable_list-memory os key x mem e = rw (e, tunable_list)

lists-find :
    (os : List Opt) (key x : List ℕ) (o : Opt)
    → find_option key os ≡ some o
    → lists os key x ≡ has_item x (split o.val)
unfolding tunable_str
lists-find os key x o e = rw (e, lists, tunable_str)

lists-none : (os : List Opt) (key x : List ℕ) → find_option key os ≡ none → lists os key x ≡ false
unfolding tunable_str
lists-none os key x e = rw (e, lists, tunable_str)

tunable_list-none :
    (os : List Opt) (key x : List ℕ)
    → val_memory key os (max_options - length os) ≡ none
    → tunable_list os key x ≡ some false
unfolding tunable_list
tunable_list-none os key x e = rw (e, tunable_list)

-- The scan of a padded value, with any memory behind it.
scan-padded :
    (o : Opt) (x r : List ℕ)
    → IsShort o
    → text_eq [] x ≡ false
    → scan_list (length (pad val_buf o.val ++ r)) x (pad val_buf o.val ++ r)
      ≡ some (has_item x (split o.val))
scan-padded o x r sh nx =
    let (r', p) = pad-split val_buf o.val sh.1 in
    let fuel : val_buf ≤ length (pad val_buf o.val ++ r) =
      omega (arith, length-append (pad val_buf o.val) r, length-pad val_buf o.val) in
    let e : pad val_buf o.val ++ r ≡ o.val ++ 0 ∷ 0 ∷ (r' ++ r) =
      ap (λ l. l ++ r) p ∙ append_assoc o.val (0 ∷ 0 ∷ r') r in
    subst (λ l. scan_list (length (pad val_buf o.val ++ r)) x l ≡ some (has_item x (split o.val)))
      (sym e) (scan_list-split _ x o.val (r' ++ r) sh.0 nx (omega arith))

-- When all values leave two NULs in their buffers, and the name looked for is not empty, the scan
-- says whether the name is among the comma-separated items of the option's value; it reads no
-- memory beyond the table, and its fuel suffices. Without that option the answer is no.
pub tunable_list_lem :
    (os : List Opt) (key x : List ℕ)
    → AllShort os
    → text_eq [] x ≡ false
    → tunable_list os key x ≡ some (lists os key x)
tunable_list_lem os key x s nx = elim (Option-cases (find_option key os)) [
  | inl e ↦
      tunable_list-none os key x (val_memory-none key os (max_options - length os) e)
      ∙ ap some (sym (lists-none os key x e))
  | inr (o, e) ↦
      let (r, m, sh) = val_memory-find key os (max_options - length os) o e s in
      tunable_list-memory os key x _ m
      ∙ scan-padded o x r sh nx
      ∙ ap some (sym (lists-find os key x o e))
]

-- When all values leave two NULs in their buffers, and the name is not empty: a feature is enabled
-- exactly when the environment does not disable the library, the list `disabled` does not name it,
-- and the list `enabled` is absent or names it.
pub enabled_lem :
    (disable : Bool) (os : List Opt) (name : List ℕ)
    → AllShort os
    → text_eq [] name ≡ false
    → enabled disable os name
      ≡ some (
          not disable
          && not (lists os (codes "disabled") name)
          && (not (is_some (tunable_str os (codes "enabled"))) || lists os (codes "enabled") name))
unfolding enabled
enabled_lem disable os name s nx = ground (
  arith,
  tunable_list_lem os (codes "disabled") name s nx,
  tunable_list_lem os (codes "enabled") name s nx,
)

-- A value of 511 bytes fills its buffer up to the single NUL.
pad-full : (v : List ℕ) (n : ℕ) → length v + 1 ≡ n → pad n v ≡ v ++ 0 ∷ []
unfolding pad
pad-full [] zero h = absurd (omega arith)
pad-full [] (suc n) h = let e : n ≡ 0 = omega arith in rw e
pad-full (x ∷ xs) zero h = absurd (omega arith)
pad-full (x ∷ xs) (suc n) h = ap (λ l. x ∷ l) (pad-full xs n (omega arith))

pad-key : (k : List ℕ) (n : ℕ) → length k < n → (r : List ℕ) × (pad n k ≡ k ++ 0 ∷ r)
unfolding pad
pad-key k zero h = elim h [ ]
pad-key [] (suc n) h = (pad n [], refl)
pad-key (x ∷ xs) (suc n) h = let (r, e) = pad-key xs n (omega arith) in (r, ap (λ l. x ∷ l) e)

-- Memory that holds a single item, a NUL, and a key.
scan-overrun :
    (c d : ℕ) (cs ds a : List ℕ)
    → NoNul (c ∷ cs)
    → NoComma (c ∷ cs)
    → NoNul (d ∷ ds)
    → NoComma (d ∷ ds)
    → text_eq (c ∷ cs) (d ∷ ds) ≡ false
    → (mem : List ℕ) → mem ≡ c ∷ cs ++ 0 ∷ (d ∷ ds ++ 0 ∷ a)
    → scan_list (length mem) (d ∷ ds) mem ≡ some true
scan-overrun c d cs ds a nn nc mn mc ne mem e =
    let more = length-append cs (0 ∷ (d ∷ ds ++ 0 ∷ a)) in
    rw e (
      scan_list-beyond _ c (d ∷ ds) cs (d ∷ ds ++ 0 ∷ a) nn nc ne
      ∙ scan_list-here _ d ds a (omega (arith, more)) mn mc)

differ-length :
    (c d : ℕ) (cs ds : List ℕ) → length ds < length cs → text_eq (c ∷ cs) (d ∷ ds) ≡ false
differ-length c d cs ds h = elim (Bool-cases (text_eq (c ∷ cs) (d ∷ ds))) [
  | inl y ↦ absurd (omega (arith, ap length ((text_eq_iff (c ∷ cs) (d ∷ ds)).0 y)))
  | inr n ↦ n
]

val_memory-first :
    (key : List ℕ) (o : Opt) (os : List Opt) (spare : ℕ)
    → text_eq key o.key ≡ true
    → val_memory key (o ∷ os) spare ≡ some (pad val_buf o.val ++ opt_memory os spare)
unfolding val_memory
val_memory-first key o os spare e = rw e

opt_memory-key :
    (key v : List ℕ) (spare : ℕ)
    → opt_memory (record { key = key; val = v } ∷ []) spare
      ≡ pad key_buf key ++ (pad val_buf v ++ opt_memory [] spare)
unfolding opt_memory
opt_memory-key key v spare = append_assoc (pad key_buf key) (pad val_buf v) (opt_memory [] spare)

-- Two options, the first with a value of 511 bytes that is one item: the list scan runs on into the
-- second option and takes its key for an item of the first.
pub tunable_list_overruns :
    (c d : ℕ) (cs ds k v : List ℕ)
    → length (c ∷ cs) + 1 ≡ val_buf
    → length (d ∷ ds) < key_buf
    → NoNul (c ∷ cs)
    → NoComma (c ∷ cs)
    → NoNul (d ∷ ds)
    → NoComma (d ∷ ds)
    → tunable_list
        (record { key = k; val = c ∷ cs } ∷ record { key = d ∷ ds; val = v } ∷ [])
        k
        (d ∷ ds)
      ≡ some true
tunable_list_overruns c d cs ds k v full kl nn nc mn mc =
    let ne : text_eq (c ∷ cs) (d ∷ ds) ≡ false = differ-length c d cs ds (omega arith) in
    let (r, p) = pad-key (d ∷ ds) key_buf kl in
    let tail = pad val_buf v ++ opt_memory [] (max_options - 2) in
    let first : (c ∷ cs ++ 0 ∷ []) ++ ((d ∷ ds ++ 0 ∷ r) ++ tail)
        ≡ c ∷ cs ++ 0 ∷ (d ∷ ds ++ 0 ∷ (r ++ tail)) =
      append_assoc (c ∷ cs) (0 ∷ []) _
      ∙ ap (λ l. c ∷ cs ++ 0 ∷ l) (append_assoc (d ∷ ds) (0 ∷ r) tail) in
    tunable_list-memory _ k (d ∷ ds) _ (val_memory-first k _ _ _ (text_eq_self k))
    ∙ scan-overrun c d cs ds (r ++ tail) nn nc mn mc ne _ (
        ap₂ ◌++◌ (pad-full (c ∷ cs) val_buf full)
          (opt_memory-key (d ∷ ds) v _ ∙ ap (λ l. l ++ tail) p)
        ∙ first)
