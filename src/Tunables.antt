-- ===== src/Tunables.antt =====
-- tunables.c: options read from the program's extended attributes. An option's key and value are
-- texts; `opt_memory` lays them out as the zero-filled buffers of `struct opt`, since the list scan
-- reads memory.
pub mod Scan
pub mod Enabled
mod Tests
use wslcompat.Prelude.{
  ℕ, zero, suc, ◌+◌, ◌-◌, ◌*◌, ◌/◌, ◌%◌, ◌^◌, ◌≤◌, ◌<◌, ◌≡◌, refl, sym, ap, ◌∙◌, ◌≢◌, ◌↔◌, ◌⊎◌, inl,
  inr, Bool, true, false, not, ◌&&◌, ◌||◌, Option, none, some, List, [], ◌∷◌, ◌++◌, map, arith, ltb,
  leb, ◌==◌, if◌then◌else◌, ltb→lt, lt→ltb, leb→le, ==_iff, ==_self, Bool-cases, Option-cases,
  length, get_elem?, get_or, set, take, drop, replicate, length-append, length-set,
  get_elem?-set_self, get_elem?-set_ne, length-replicate, length-map, Res, ret, fail, eperm, enoent,
  eintr, e2big, enoexec, ebadf, ewouldblock, enomem, efault, eexist, enodev, einval, enfile, enosys,
  enoprotoopt, eopnotsupp,
}
use wslcompat.Prelude.Int.{ℤ}
use wslcompat.Prelude.Bytes.{codes, text_eq}

abbrev pub max_options : ℕ
max_options = 32

abbrev pub key_buf : ℕ
key_buf = 64

abbrev pub val_buf : ℕ
val_buf = 512

pub record Opt : Type 0 where
  pub key : List ℕ
  pub val : List ℕ

-- kPrefix: "user.wslcompat."
abbrev pub prefix : List ℕ
prefix = codes "user.wslcompat."

-- strncmp(key, kPrefix, n) == 0, with what follows the prefix.
pub strip_prefix : List ℕ → List ℕ → Option (List ℕ)
strip_prefix [] key = some key
strip_prefix (p ∷ ps) [] = none
strip_prefix (p ∷ ps) (k ∷ ks) = let rest = strip_prefix ps ks in if p == k then rest else none

-- lfind(key, options, ...): the first option of that key.
pub find_option : List ℕ → List Opt → Option Opt
find_option key [] = none
find_option key (o ∷ os) = if text_eq key o.key then some o else find_option key os

-- lsearch(&entry, options, ...): appends the entry unless its key is there.
pub search_option : Opt → List Opt → List Opt
search_option e os = elim (find_option e.key os) [ none ↦ os ++ e ∷ [] | some _ ↦ os ]

-- `none` is the -1 that ends the loop in `init`; snprintf truncates to the buffers.
pub add_option : List Opt → (key val : List ℕ) → Option (List Opt)
add_option os key val =
    if leb max_options (length os) then none else elim (strip_prefix prefix key) [
      | none ↦ none
      | some name ↦ some (
          search_option (record { key = take (key_buf - 1) name; val = take (val_buf - 1) val }) os)
    ]

-- The loop of `init` over the names in the attribute list. `fetch` is fgetxattr: `none` on failure.
-- An attribute with another prefix is skipped, and so is one whose value cannot be read.
pub load_options : (fetch : List ℕ → Option (List ℕ)) → List (List ℕ) → List Opt → List Opt
load_options fetch [] os = os
load_options fetch (cur ∷ names) os = elim (strip_prefix prefix cur) [
  | none ↦ load_options fetch names os
  | some _ ↦ elim (fetch cur) [
    | none ↦ load_options fetch names os
    | some val ↦ elim (add_option os cur val) [
      | none ↦ os
      | some os' ↦ load_options fetch names os'
    ]
  ]
]

pub tunable_str : List Opt → List ℕ → Option (List ℕ)
tunable_str os key = elim (find_option key os) [ none ↦ none | some o ↦ some o.val ]

-- `strtol` is the C library's.
pub tunable_int : (strtol : List ℕ → ℤ) → List Opt → List ℕ → ℤ → ℤ
tunable_int strtol os key dflt = elim (tunable_str os key) [ none ↦ dflt | some s ↦ strtol s ]

pub is_yes : List ℕ → Bool
is_yes s =
    text_eq s (codes "1")
    || text_eq s (codes "true")
    || text_eq s (codes "on")
    || text_eq s (codes "yes")

pub is_no : List ℕ → Bool
is_no s =
    text_eq s (codes "0")
    || text_eq s (codes "false")
    || text_eq s (codes "off")
    || text_eq s (codes "no")

pub tunable_bool : List Opt → List ℕ → Bool → Bool
tunable_bool os key dflt = elim (tunable_str os key) [
  | none ↦ dflt
  | some s ↦ if is_yes s then true else if is_no s then false else dflt
]

-- The bytes of a buffer of size `n` that holds a text: the text, then zeros.
pub pad : ℕ → List ℕ → List ℕ
pad zero xs = []
pad (suc n) [] = 0 ∷ pad n []
pad (suc n) (x ∷ xs) = x ∷ pad n xs

-- The memory of the table from one entry on, with `spare` entries that are not in use.
pub opt_memory : List Opt → ℕ → List ℕ
opt_memory [] zero = []
opt_memory [] (suc spare) = pad key_buf [] ++ pad val_buf [] ++ opt_memory [] spare
opt_memory (o ∷ os) spare = pad key_buf o.key ++ pad val_buf o.val ++ opt_memory os spare

-- The memory from the value of the first option of that key to the end of the table.
pub val_memory : List ℕ → List Opt → ℕ → Option (List ℕ)
val_memory key [] spare = none
val_memory key (o ∷ os) spare =
    if text_eq key o.key
    then some (pad val_buf o.val ++ opt_memory os spare)
    else val_memory key os spare

-- strchrnul(s, ','): the bytes before the comma or NUL, and the bytes after it. `none`: neither is
-- found before the memory ends.
pub item_at : List ℕ → Option (List ℕ × List ℕ)
item_at [] = none
item_at (c ∷ cs) =
    if (c == 0) || (c == b',')
    then some ([], cs)
    else elim (item_at cs) [ none ↦ none | some (item, rest) ↦ some (c ∷ item, rest) ]

-- `for (p = s; *p; s = ++p)`. Note that `++p` also steps over a NUL. `none` is a read beyond the
-- memory; the fuel is the number of bytes.
pub scan_list : ℕ → (contains : List ℕ) → List ℕ → Option Bool
scan_list zero contains mem = none
scan_list (suc f) contains [] = none
scan_list (suc f) contains (c ∷ cs) = if c == 0 then some false else elim (item_at (c ∷ cs)) [
  | none ↦ none
  | some (item, rest) ↦ elim (text_eq item contains) [
    | true ↦ some true
    | false ↦ scan_list f contains rest
  ]
]

pub tunable_list : List Opt → (key contains : List ℕ) → Option Bool
tunable_list os key contains = elim (val_memory key os (max_options - length os)) [
  | none ↦ some false
  | some mem ↦ scan_list (length mem) contains mem
]

-- `disable` is getenv("__WSLCOMPAT_DISABLE") != NULL.
pub enabled : (disable : Bool) → List Opt → List ℕ → Option Bool
enabled disable os name =
    if disable then some false else elim (tunable_list os (codes "disabled") name) [
      | none ↦ none
      | some true ↦ some false
      | some false ↦ elim (tunable_str os (codes "enabled")) [
        | none ↦ some true
        | some _ ↦ tunable_list os (codes "enabled") name
      ]
    ]
