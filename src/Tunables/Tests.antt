-- ===== src/Tunables/Tests.antt =====
-- Sample options, and the theorems of this part at them.
use wslcompat.Prelude.{
  ℕ, zero, suc, ◌+◌, ◌≡◌, refl, ap, true, false, some, List, [], ◌∷◌, arith, length, replicate,
  length-replicate,
}
use wslcompat.Prelude.Bytes.{codes, text_eq}
use wslcompat.Tunables.{
  Opt, tunable_str, find_option, tunable_list, enabled, add_option, load_options, strip_prefix,
  search_option, tunable_bool, is_yes, is_no, val_memory, opt_memory, pad, scan_list, item_at,
}
use wslcompat.Tunables.Scan.{NoNul, NoComma}
use wslcompat.Tunables.Enabled.{AllShort, lists, tunable_list_lem, tunable_list_overruns}

abbrev sample : List Opt
sample =
    record { key = codes "debug"; val = codes "2" }
    ∷ record { key = codes "disabled"; val = codes "fcntl,mmap" }
    ∷ []

sample-AllShort : AllShort sample
sample-AllShort = (
  ((refl, tt), omega arith),
  (
    (
      (refl, (refl, (refl, (refl, (refl, (refl, (refl, (refl, (refl, (refl, tt)))))))))),
      omega arith,
    ),
    tt,
  ),
)

tunable_list_lem_example :
    tunable_list sample (codes "disabled") (codes "mmap")
    ≡ some (lists sample (codes "disabled") (codes "mmap"))
unfolding text_eq
tunable_list_lem_example =
    tunable_list_lem sample (codes "disabled") (codes "mmap") sample-AllShort refl

mmap_is_disabled : enabled false sample (codes "mmap") ≡ some false
unfolding enabled tunable_list tunable_str find_option text_eq val_memory opt_memory pad scan_list
    item_at
mmap_is_disabled = refl

yes_is_true :
    tunable_bool (record { key = codes "redirect"; val = codes "off" } ∷ []) (codes "redirect") true
    ≡ false
unfolding tunable_bool tunable_str find_option text_eq is_yes is_no
yes_is_true = refl

-- The first of two attributes with one key counts, and others are skipped.
loaded :
    load_options
      (λ _. some (codes "1"))
      (codes "user.other" ∷ codes "user.wslcompat.debug" ∷ codes "user.wslcompat.debug" ∷ [])
      []
    ≡ record { key = codes "debug"; val = codes "1" } ∷ []
unfolding load_options add_option strip_prefix search_option find_option text_eq
loaded = refl

-- 511 bytes without a comma, and behind them an option with the key "fcntl".
abbrev long_value : List ℕ
long_value = replicate 510 b'x'

long_value-NoNul : (n : ℕ) → NoNul (replicate n b'x')
long_value-NoNul zero = tt
long_value-NoNul (suc n) = (refl, long_value-NoNul n)

long_value-NoComma : (n : ℕ) → NoComma (replicate n b'x')
long_value-NoComma zero = tt
long_value-NoComma (suc n) = (refl, long_value-NoComma n)

length_long : length (b'x' ∷ long_value) + 1 ≡ 512
length_long = ap (λ n. n + 2) (length-replicate {A = ℕ} 510 b'x')

tunable_list_overruns_example :
    tunable_list
      (record { key = codes "disabled"; val = b'x' ∷ long_value }
        ∷ record { key = codes "fcntl"; val = codes "1" }
        ∷ [])
      (codes "disabled")
      (codes "fcntl")
    ≡ some true
tunable_list_overruns_example =
    tunable_list_overruns b'x' b'f' long_value (codes "cntl") (codes "disabled") (codes "1")
      length_long (omega arith) (refl, long_value-NoNul 510) (refl, long_value-NoComma 510)
      (refl, (refl, (refl, (refl, (refl, tt))))) (refl, (refl, (refl, (refl, (refl, tt)))))
