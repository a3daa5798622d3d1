-- ===== src/Synth/Table/Entries.antt =====
-- Pinning, unpinning and lookup of single entries.
use wslcompat.Prelude.{
  ℕ, zero, suc, ◌+◌, ◌≡◌, refl, inl, inr, Bool, true, false, not, ◌&&◌, Option, none, some, List,
  [], ◌∷◌, arith, ◌==◌, if◌then◌else◌, Bool-cases,
}
use wslcompat.Prelude.Int.{ℤ, pos, negsuc}
use wslcompat.Synth.Table.{Entry, pin, unpin, matches, look_past, pin_lookup}

-- Is the entry live: at least one reference?
abbrev pub is_live : Entry → Bool
is_live e = elim e.refcount [ pos n ↦ not (n == 0) | negsuc _ ↦ false ]

-- One more reference.
abbrev pub count_up : ℤ → ℤ
count_up (pos n) = pos (n + 1)
count_up (negsuc n) = negsuc n

abbrev pub pinned : Entry → Entry
pinned e = record e { refcount = count_up e.refcount }

pub pin-live : (e : Entry) → is_live e ≡ true → pin e ≡ some (pinned e)
unfolding pin
pin-live e h = ground arith

pub pin-dead : (e : Entry) → is_live e ≡ false → pin e ≡ none
unfolding pin
pin-dead e h = ground arith

-- A pin that is dropped again leaves no trace.
pub unpin-pinned :
    (e : Entry) → is_live e ≡ true → unpin (pinned e) ≡ record { entry = e; events = []; freed = 0 }
unfolding unpin
unpin-pinned e h = ground arith

-- The first live entry with the key, and the entries with that one pinned.
unfoldable pub find_live : (dev ino : ℕ) → List Entry → Option ℕ
find_live dev ino [] = none
find_live dev ino (e ∷ es) =
    if is_live e && matches dev ino e
    then some 0
    else elim (find_live dev ino es) [ none ↦ none | some i ↦ some (suc i) ]

unfoldable pub pin_at : Option ℕ → List Entry → List Entry
pin_at none es = es
pin_at (some i) [] = []
pin_at (some zero) (e ∷ es) = pinned e ∷ es
pin_at (some (suc i)) (e ∷ es) = e ∷ pin_at (some i) es

pin_at-past :
    (o : Option ℕ) (e : Entry) (es : List Entry)
    → pin_at (elim o [ none ↦ none | some i ↦ some (suc i) ]) (e ∷ es) ≡ e ∷ pin_at o es
unfolding pin_at
pin_at-past none e es = refl
pin_at-past (some i) e es = refl

matches-pinned : (dev ino : ℕ) (e : Entry) → matches dev ino (pinned e) ≡ matches dev ino e
unfolding matches
matches-pinned dev ino e = refl

-- A lookup pins the first live entry with that device and inode, leaves all others as they were,
-- and runs no cleanup.
pub pin_lookup_lem :
    (dev ino : ℕ) (es : List Entry)
    → pin_lookup dev ino es ≡ record {
      entries = pin_at (find_live dev ino es) es;
      index = find_live dev ino es;
      events = [];
      freed = 0;
    }
unfolding pin_lookup find_live look_past pin_at
pin_lookup_lem dev ino [] = refl
pin_lookup_lem dev ino (e ∷ es) = elim (Bool-cases (is_live e)) [
  | inr dead ↦
      ground
        (arith, pin-dead e dead, pin_lookup_lem dev ino es, pin_at-past (find_live dev ino es) e es)
  | inl alive ↦ ground (
    arith,
    pin-live e alive,
    unpin-pinned e alive,
    matches-pinned dev ino e,
    pin_lookup_lem dev ino es,
    pin_at-past (find_live dev ino es) e es,
  )
]
