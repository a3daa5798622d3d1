-- ===== src/Synth/Open/Cleanup.antt =====
-- wslcompat_synth_open leaves nothing behind when it fails, and a registered descriptor when it
-- does not.
use wslcompat.Prelude.{◌≡◌, ◌++◌, List, Res, ret}
use wslcompat.Prelude.Int.{ℤ}
use wslcompat.Synth.Table.{Event, Table, Env}
use wslcompat.Synth.Open.{Results, World, Wanted}
use wslcompat.Synth.Open.Settle.{Settled}
use wslcompat.Synth.Open.Swept.{without}

-- The log has grown by some calls, and but for the probes that these close all is settled.
abbrev pub Opened : Env → Wanted → Results → World → Res ℤ × World → Type 0
Opened env r R w x =
    (es : List Event) × (x.1.table.log ≡ w.table.log ++ es) × Settled env r R (without es w) x

-- The descriptors that the calls give, if they succeed.
pub record Gives (R : Results) (back path probe : ℤ) : Type 0 where
  pub tmp : (q : ℤ) → R.open_tmp ≡ ret q → q ≡ back
  pub o_path : (q : ℤ) → R.open_path ≡ ret q → q ≡ path
  pub third : (q : ℤ) → R.open_probe ≡ ret q → q ≡ probe
